-- ===== src/Permission.antt =====
-- harness/permission/policy.go and presets.go: the ruleset over canonical effects.
-- `path.Match` is the parameter `Matcher`, `none` its ErrBadPattern. A string is its runes; of the
-- `strings` package, Trim and Split by a slash and the replacement of backslashes are written out.
pub mod Chosen
pub mod Decided
pub mod Gate
use Prim.Native.Char.{Char, code}
use agentic.Prelude.{
  ℕ, zero, suc, String, List, [], ◌∷◌, ◌++◌, Option, none, some, Bool, true, false, not, ◌&&◌, ◌||◌,
  ◌==◌, Result, ok, err, ◌>>=◌, is_empty, if◌then◌else◌, ltb, nat_eq, ◌+◌,
}

pub data Decision : Type 0 where
  decision_invalid decision_allow decision_ask decision_deny : Decision
  other_decision : ℕ → Decision

pub record Rule : Type 0 where
  pub pattern : String
  pub decision : Decision

pub record CanonicalResource : Type 0 where
  pub scheme : String
  pub id : String
  pub display : String

pub record PermissionRequest : Type 0 where
  pub capability : String
  pub action : String
  pub canonical_resource : CanonicalResource

pub record CompiledRule : Type 0 where
  pub rule : Rule
  pub segments : List String
  pub specificity : ℕ
  pub index : ℕ

pub record Policy : Type 0 where
  pub fallback : Decision
  pub rules : List CompiledRule

pub data PatternError : Type 0 where
  empty_pattern empty_segment double_star_inside : PatternError
  bad_segment : String → PatternError

pub data PolicyError : Type 0 where
  invalid_fallback : PolicyError
  invalid_decision : ℕ → PolicyError
  invalid_pattern : ℕ → PatternError → PolicyError

abbrev pub Matcher : Type 0
Matcher = String → String → Option Bool

abbrev pub is_known : Decision → Bool
is_known decision_allow = true
is_known decision_ask = true
is_known decision_deny = true
is_known _ = false

abbrev pub is_slash : Char → Bool
is_slash c = nat_eq (code c) b'/'

unfoldable pub trim_left : String → String
trim_left String.[] = String.[]
trim_left (String.◌∷◌ c s) = let rest = trim_left s in if is_slash c then rest else String.◌∷◌ c s

abbrev pub put_before : Char → String → String
put_before c String.[] = if is_slash c then String.[] else String.◌∷◌ c String.[]
put_before c (String.◌∷◌ d s) = String.◌∷◌ c (String.◌∷◌ d s)

unfoldable pub trim_right : String → String
trim_right String.[] = String.[]
trim_right (String.◌∷◌ c s) = put_before c (trim_right s)

-- `strings.Trim(s, "/")`.
abbrev pub trim_slashes : String → String
trim_slashes s = trim_right (trim_left s)

abbrev pub lengthen_first : Char → List String → List String
lengthen_first c [] = String.◌∷◌ c String.[] ∷ []
lengthen_first c (segment ∷ segments) = String.◌∷◌ c segment ∷ segments

-- `strings.Split(s, "/")`.
unfoldable pub split_slashes : String → List String
split_slashes String.[] = String.[] ∷ []
split_slashes (String.◌∷◌ c s) =
    let rest = split_slashes s in if is_slash c then String.[] ∷ rest else lengthen_first c rest

abbrev slash : Char
slash = "/"

-- `strings.ReplaceAll(s, "\\", "/")`.
unfoldable pub slashes_for_backslashes : String → String
slashes_for_backslashes String.[] = String.[]
slashes_for_backslashes (String.◌∷◌ c s) =
    let rest = slashes_for_backslashes s in
    if nat_eq (code c) b'\\' then String.◌∷◌ slash rest else String.◌∷◌ c rest

abbrev pub is_wildcard : Char → Bool
is_wildcard c =
    nat_eq (code c) b'*' || nat_eq (code c) b'?' || nat_eq (code c) b'[' || nat_eq (code c) b']'

-- The runes of a segment, and of all of them, that are no wildcards.
unfoldable pub plain_runes : String → ℕ
plain_runes String.[] = 0
plain_runes (String.◌∷◌ c s) = let rest = plain_runes s in if is_wildcard c then rest else suc rest

unfoldable pub specificity_of : List String → ℕ
specificity_of [] = 0
specificity_of (segment ∷ segments) = plain_runes segment + specificity_of segments

-- The loop over a pattern's segments.
unfoldable pub check_segments : Matcher → List String → Option PatternError
check_segments matcher [] = none
check_segments matcher (segment ∷ segments) =
    let rest = check_segments matcher segments in
    if segment == ""
    then some empty_segment
    else if segment == "**"
    then (if is_empty segments then rest else some double_star_inside)
    else elim (matcher segment "probe") [ none ↦ some (bad_segment segment) | some _ ↦ rest ]

unfoldable pub pattern_segments : Matcher → String → Result PatternError (List String)
pattern_segments matcher pattern =
    let segments = split_slashes (trim_slashes pattern) in
    if trim_slashes pattern == ""
    then err empty_pattern
    else elim (check_segments matcher segments) [ some e ↦ err e | none ↦ ok segments ]

abbrev pub compiled : ℕ → Rule → List String → CompiledRule
compiled index rule segments = record {
  rule = rule;
  segments = segments;
  specificity = specificity_of segments;
  index = index;
}

unfoldable pub compile_rule : Matcher → ℕ → Rule → Result PolicyError CompiledRule
compile_rule matcher index rule =
    if not (is_known rule.decision)
    then err (invalid_decision index)
    else elim (pattern_segments matcher rule.pattern) [
      | err e ↦ err (invalid_pattern index e)
      | ok segments ↦ ok (compiled index rule segments)
    ]

unfoldable pub compile_rules : Matcher → ℕ → List Rule → Result PolicyError (List CompiledRule)
compile_rules matcher index [] = ok []
compile_rules matcher index (rule ∷ rules) = compile_rule matcher index rule >>= λ one.
    compile_rules matcher (suc index) rules >>= λ rest. ok (one ∷ rest)

unfoldable pub new_policy : Matcher → Decision → List Rule → Result PolicyError Policy
new_policy matcher fallback rules =
    if not (is_known fallback)
    then err invalid_fallback
    else (compile_rules matcher 0 rules >>= λ all. ok (record { fallback = fallback; rules = all }))

-- A name without its surrounding slashes, in segments; none if nothing is left of it.
abbrev pub name_segments : String → List String
name_segments id = if id == "" then [] else split_slashes id

unfoldable pub request_segments : PermissionRequest → List String
request_segments request =
    request.capability
    ∷ request.action
    ∷ ((if request.canonical_resource.scheme == ""
          then []
          else request.canonical_resource.scheme ∷ [])
        ++ name_segments (trim_slashes (slashes_for_backslashes request.canonical_resource.id)))

-- `matched` is false on an error too.
abbrev pub segment_matches : Option Bool → Bool
segment_matches none = false
segment_matches (some matched) = matched

unfoldable pub match_pattern : Matcher → List String → List String → Bool
match_pattern matcher [] [] = true
match_pattern matcher [] (name ∷ names) = false
match_pattern matcher (segment ∷ segments) [] = segment == "**"
match_pattern matcher (segment ∷ segments) (name ∷ names) =
    segment == "**"
    || segment_matches (matcher segment name) && match_pattern matcher segments names

-- The decision with the specificity and the index of the rule that made it, `none` for -1 and -1.
pub record Best : Type 0 where
  pub decision : Decision
  pub made_by : Option (ℕ × ℕ)

abbrev pub outranks : CompiledRule → Option (ℕ × ℕ) → Bool
outranks rule none = true
outranks rule (some (specificity, index)) =
    ltb specificity rule.specificity || nat_eq rule.specificity specificity && ltb index rule.index

unfoldable pub choose : Matcher → List String → CompiledRule → Best → Best
choose matcher names rule best =
    if not (match_pattern matcher rule.segments names)
    then best
    else if outranks rule best.made_by
    then record { decision = rule.rule.decision; made_by = some (rule.specificity, rule.index) }
    else best

unfoldable pub choose_all : Matcher → List String → List CompiledRule → Best → Best
choose_all matcher names [] best = best
choose_all matcher names (rule ∷ rules) best =
    choose_all matcher names rules (choose matcher names rule best)

unfoldable pub evaluate : Matcher → Option Policy → PermissionRequest → Decision
evaluate matcher none request = decision_deny
evaluate matcher (some policy) request =
    (choose_all matcher (request_segments request) policy.rules
      (record { decision = policy.fallback; made_by = none })).decision

abbrev allow : String → Rule
allow pattern = record { pattern = pattern; decision = decision_allow }

abbrev ask : String → Rule
ask pattern = record { pattern = pattern; decision = decision_ask }

-- The rules of the presets `ReadOnly` and `WorkspaceWrite`; both fall back to deny.
abbrev pub read_only : List Rule
read_only =
    allow "filesystem/read/**"
    ∷ allow "filesystem/list/**"
    ∷ allow "filesystem/stat/**"
    ∷ allow "artifact/read/**"
    ∷ []

abbrev pub workspace_write : List Rule
workspace_write =
    allow "filesystem/read/**"
    ∷ allow "filesystem/list/**"
    ∷ allow "filesystem/stat/**"
    ∷ allow "filesystem/write/**"
    ∷ allow "filesystem/mkdir/**"
    ∷ allow "filesystem/remove/**"
    ∷ allow "artifact/read/**"
    ∷ ask "shell/**"
    ∷ ask "network/**"
    ∷ []
