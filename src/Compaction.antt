-- ===== src/Compaction.antt =====
-- harness/contextpolicy/contextpolicy.go: where a transcript may be cut, and a compaction applied
-- to a transcript. SHA-256 over JSON is the parameter `hash`; a version and an index are no
-- negative numbers, and messages are values, so that the clones that the source makes are the
-- values.
pub mod Tracks
pub mod Cuts
pub mod Applies
pub mod Project
use agentic.Prelude.{
  ℕ, zero, suc, ◌-◌, String, List, [], ◌∷◌, ◌++◌, Option, none, some, Bool, true, false, not, ◌&&◌,
  ◌||◌, ◌==◌, Result, ok, err, ◌>>=◌, contains, is_empty, length, take, drop, ltb, leb, nat_eq,
  if◌then◌else◌,
}
use agentic.Message.{
  Message, MessageRole, Part, ContentType, content_text, ToolUse, ToolResult, is_system, is_user,
}
use agentic.Message.Parts.{get_tool_uses, get_tool_results}

-- `ErrCompactionInvalid` and `ErrInvalidTransform`.
pub data CompactionError : Type 0 where
  overlapping_frontiers duplicate_call orphan_result compaction_invalid : CompactionError
  not_user empty_content not_text : CompactionError

pub record Compaction : Type 0 where
  pub version : ℕ
  pub start : ℕ
  pub cut : ℕ
  pub prefix_hash : String
  pub summary : Message

abbrev pub is_text : ContentType → Bool
is_text content_text = true
is_text _ = false

unfoldable pub all_text : List Part → Bool
all_text [] = true
all_text (part ∷ parts) = is_text part.content_type && all_text parts

-- `validateContextTail`.
unfoldable pub validate_context_tail : List Message → Option CompactionError
validate_context_tail [] = none
validate_context_tail (message ∷ messages) =
    let rest = validate_context_tail messages in
    if not (is_user message.role)
    then some not_user
    else if is_empty message.content
    then some empty_content
    else if not (all_text message.content)
    then some not_text
    else rest

-- `waiting` (`open` of the source) holds the IDs of the calls that have no result yet.
unfoldable pub open_uses : List String → List ToolUse → Result CompactionError (List String)
open_uses waiting [] = ok waiting
open_uses waiting (call ∷ calls) =
    let rest = open_uses (call.id ∷ waiting) calls in
    if call.id == "" || contains call.id waiting then err duplicate_call else rest

unfoldable pub track_uses : List String → List ToolUse → Result CompactionError (List String)
track_uses waiting [] = ok waiting
track_uses waiting (call ∷ calls) =
    if not (is_empty waiting) then err overlapping_frontiers else open_uses waiting (call ∷ calls)

-- `delete(open, id)`.
unfoldable pub remove_id : String → List String → List String
remove_id id [] = []
remove_id id (other ∷ ids) =
    let rest = remove_id id ids in if other == id then rest else other ∷ rest

unfoldable pub track_results : List String → List ToolResult → Result CompactionError (List String)
track_results waiting [] = ok waiting
track_results waiting (result ∷ results) =
    let rest = track_results (remove_id result.tool_use_id waiting) results in
    if not (contains result.tool_use_id waiting) then err orphan_result else rest

-- The boundary behind a message, if no call is open there and it lies between the two limits.
abbrev pub better : ℕ → ℕ → ℕ → List String → Option ℕ → Option ℕ
better boundary start max_cut waiting best =
    if ltb start boundary && leb boundary max_cut && is_empty waiting then some boundary else best

unfoldable pub cut_loop :
    ℕ → ℕ → ℕ → List String → Option ℕ → List Message → Result CompactionError (Option ℕ)
cut_loop index start max_cut waiting best [] = ok best
cut_loop index start max_cut waiting best (message ∷ messages) =
    track_uses waiting (get_tool_uses message) >>= λ opened.
    track_results opened (get_tool_results message) >>= λ left.
    cut_loop (suc index) start max_cut left (better (suc index) start max_cut left best) messages

-- An initial system message stays outside.
abbrev pub start_of : List Message → ℕ
start_of [] = 0
start_of (message ∷ messages) = if is_system message.role then 1 else 0

abbrev pub with_start : ℕ → Option ℕ → Option (ℕ × ℕ)
with_start start none = none
with_start start (some best) = some (start, best)

unfoldable pub compaction_cut : List Message → ℕ → Result CompactionError (Option (ℕ × ℕ))
compaction_cut messages recent =
    if leb (length messages - recent) (start_of messages)
    then ok none
    else (cut_loop 0 (start_of messages) (length messages - recent) [] none messages >>= λ best.
        ok (with_start (start_of messages) best))

abbrev pub segment : ℕ → ℕ → List Message → List Message
segment start cut messages = take (cut - start) (drop start messages)

-- `Apply`.
unfoldable pub apply :
    (List Message → String) → List Message → Compaction → Result CompactionError (List Message)
apply hash messages c =
    if not (nat_eq c.version 1)
      || (leb c.cut c.start || (ltb (length messages) c.cut || not (is_user c.summary.role)))
    then err compaction_invalid
    else if not (hash (segment c.start c.cut messages) == c.prefix_hash)
    then err compaction_invalid
    else ok (take c.start messages ++ c.summary ∷ drop c.cut messages)

-- The recipe that `Project` makes of a cut.
abbrev pub recipe : (List Message → String) → List Message → ℕ × ℕ → Message → Compaction
recipe hash messages (start, cut) summary = record {
  version = 1;
  start = start;
  cut = cut;
  prefix_hash = hash (segment start cut messages);
  summary = summary;
}
