-- ===== src/Compaction/Applies.antt =====
-- A compaction applied: `Apply` of harness/contextpolicy/contextpolicy.go against transcript.go.
use agentic.Prelude.{
  ℕ, zero, suc, ◌+◌, ◌-◌, ◌≤◌, ◌<◌, ◌≡◌, refl, sym, ap, ◌∙◌, inl, inr, subst, String, List, [], ◌∷◌,
  eq_refl, ◌++◌, append_assoc, Option, none, some, true, false, ok, ◌>>=◌, >>=-eq-ok, Bool-cases,
  contains, length, length-append, length-drop, take, drop, take-append-drop, take-append,
  drop-append, ltb, leb, arith,
}
use agentic.Message.{
  Message, MessageRole, ToolUse, ToolResult, Part, ContentType, content_text, other_content,
  content_image_url, content_tool_use, content_tool_result, content_thinking, content_image_data,
  content_audio_url, content_video_url, content_document_url, content_cache_point,
  content_uploaded_file, is_system, is_user,
}
use agentic.Message.Parts.{get_tool_uses, get_tool_results, tool_uses, tool_results}
use agentic.Transcript.{Scan, start, inspect_message, inspect_loop, open_frontier, take_results}
use agentic.Transcript.Scans.{inspect_loop-append}
use agentic.Transcript.Places.{inspect_loop-anywhere}
use agentic.Transcript.Admits.{Shut, IsPlain, Shut-plain}
use agentic.Compaction.{
  validate_context_tail, all_text, is_text, cut_loop, start_of, with_start, compaction_cut, segment,
  apply, recipe,
}
use agentic.Compaction.Cuts.{cut_loop-Good}
use agentic.Compaction.Tracks.{Tracks}

-- A closed prefix leaves the scan of what stands behind it unchanged.
inspect_loop-behind :
    (before rest : List Message) {t : Scan}
    → Shut before
    → inspect_loop zero start (before ++ rest) ≡ ok t
    → inspect_loop zero start rest ≡ ok t
inspect_loop-behind before rest e h =
    inspect_loop-anywhere (zero + length before) zero start rest
      (sym (inspect_loop-append zero start before rest ∙ rw e refl) ∙ h)

inspect_loop-before :
    (before rest : List Message) {t : Scan}
    → Shut before
    → inspect_loop zero start rest ≡ ok t
    → inspect_loop zero start (before ++ rest) ≡ ok t
inspect_loop-before before rest e h =
    inspect_loop-append zero start before rest
    ∙ rw e (inspect_loop-anywhere zero (zero + length before) start rest h)

system-start :
    (i : ℕ) (role : MessageRole) (uses : List ToolUse) (results : List ToolResult) (t : Scan)
    → is_system role ≡ true
    → (open_frontier i role uses start >>= take_results i role uses results) ≡ ok t
    → t ≡ start
unfolding open_frontier take_results
system-start i MessageRole.system [] [] t h e = ground arith
system-start i MessageRole.system [] (r ∷ results) t h e = absurd (ground arith)
system-start i MessageRole.system (call ∷ calls) results t h e = absurd (ground arith)
system-start i MessageRole.user uses results t h e = absurd (ground arith)
system-start i MessageRole.assistant uses results t h e = absurd (ground arith)
system-start i MessageRole.tool uses results t h e = absurd (ground arith)
system-start i (MessageRole.other_role name) uses results t h e = absurd (ground arith)

first-Shut :
    (ms : List Message) {t : Scan}
    → inspect_loop zero start ms ≡ ok t
    → Shut (take (start_of ms) ms)
unfolding inspect_loop inspect_message
first-Shut [] e = refl
first-Shut (m ∷ ms) e =
    let (u, one, rest) =
      >>=-eq-ok (inspect_message zero start m) (λ x. inspect_loop (suc zero) x ms) e in
    elim (Bool-cases (is_system m.role)) [
      | inl system ↦
          let same = system-start zero m.role (get_tool_uses m) (get_tool_results m) u system one in
          rw (system, one, same) refl
      | inr other ↦ rw other refl
    ]

text_of_is_text : (kind : ContentType) → is_text kind ≡ true → kind ≡ content_text
text_of_is_text content_text h = refl
text_of_is_text content_image_url h = absurd (ground arith)
text_of_is_text content_tool_use h = absurd (ground arith)
text_of_is_text content_tool_result h = absurd (ground arith)
text_of_is_text content_thinking h = absurd (ground arith)
text_of_is_text content_image_data h = absurd (ground arith)
text_of_is_text content_audio_url h = absurd (ground arith)
text_of_is_text content_video_url h = absurd (ground arith)
text_of_is_text content_document_url h = absurd (ground arith)
text_of_is_text content_cache_point h = absurd (ground arith)
text_of_is_text content_uploaded_file h = absurd (ground arith)
text_of_is_text (other_content name) h = absurd (ground arith)

all_text_no_tools :
    (parts : List Part) → all_text parts ≡ true → (tool_uses parts ≡ []) × (tool_results parts ≡ [])
unfolding all_text tool_uses tool_results
all_text_no_tools [] h = (refl, refl)
all_text_no_tools (part ∷ parts) h =
    let (uses, results) = all_text_no_tools parts (ground arith) in
    let kind = text_of_is_text part.content_type (ground arith) in
    (rw (kind, uses) refl, rw (kind, results) refl)

pub validate_context_tail-IsPlain :
    (m : Message) → validate_context_tail (m ∷ []) ≡ none → (is_user m.role ≡ true) × IsPlain m
unfolding validate_context_tail
validate_context_tail-IsPlain m h = (ground arith, all_text_no_tools m.content (ground arith))

with_start-some :
    (n first cut : ℕ) (found : Option ℕ)
    → with_start n found ≡ some (first, cut)
    → (n ≡ first) × (found ≡ some cut)
with_start-some n first cut none e = absurd (ground arith)
with_start-some n first cut (some best) e = ground arith

start-Tracks : Tracks [] start
unfolding contains
start-Tracks k = refl

-- The cut that is found.
compaction_cut-Good :
    (ms : List Message) (recent first cut : ℕ) {t : Scan}
    → inspect_loop zero start ms ≡ ok t
    → compaction_cut ms recent ≡ ok (some (first, cut))
    → (start_of ms ≡ first) × (Shut (take cut ms) × first < cut × cut ≤ length ms)
unfolding compaction_cut inspect_loop
compaction_cut-Good ms recent first cut scan e =
    elim (Bool-cases (leb (length ms - recent) (start_of ms))) [
      | inl few ↦ absurd (ground arith)
      | inr many ↦
          let (found, looped, last) =
            >>=-eq-ok (cut_loop 0 (start_of ms) (length ms - recent) [] none ms)
              (λ best. ok (with_start (start_of ms) best)) {last = some (first, cut)}
              (ground arith) in
          let (same, place) = with_start-some (start_of ms) first cut found (ground arith) in
          let good =
            cut_loop-Good ms [] ms zero (start_of ms) (length ms - recent) [] none found start refl
              refl refl scan start-Tracks (λ b f. absurd (ground arith)) looped in
          (same, subst (λ n. Shut (take cut ms) × n < cut × cut ≤ length ms) same (good cut place))
    ]

-- A summary in place of a closed middle.
summarised :
    (ms : List Message) (first cut : ℕ) (m : Message) {t : Scan}
    → Shut (take first ms)
    → Shut (take cut ms)
    → IsPlain m
    → inspect_loop zero start ms ≡ ok t
    → inspect_loop zero start (take first ms ++ m ∷ drop cut ms) ≡ ok t
summarised ms first cut m head middle plain scan =
    let whole = take-append-drop cut ms in
    let behind =
      inspect_loop-behind (take cut ms) (drop cut ms) middle
        (ap (inspect_loop zero start) whole ∙ scan) in
    let shut = Shut-plain (take first ms) (m ∷ []) head (plain, tt) in
    ap (inspect_loop zero start) (sym (append_assoc (take first ms) (m ∷ []) (drop cut ms)))
    ∙ inspect_loop-before (take first ms ++ m ∷ []) (drop cut ms) shut behind

segment-append :
    (first cut : ℕ) (ms more : List Message)
    → first ≤ cut
    → cut ≤ length ms
    → segment first cut (ms ++ more) ≡ segment first cut ms
segment-append first cut ms more l h =
    ap (take (cut - first)) (drop-append first ms more (omega arith))
    ∙ take-append (cut - first) (drop first ms) more (omega (arith, length-drop first ms))

apply-accepts :
    (hash : List Message → String) (all ms : List Message) (first cut : ℕ) (summary : Message)
    → is_user summary.role ≡ true
    → first < cut
    → cut ≤ length all
    → segment first cut all ≡ segment first cut ms
    → apply hash all (recipe hash ms (first, cut) summary)
      ≡ ok (take first all ++ summary ∷ drop cut all)
unfolding apply
apply-accepts hash all ms first cut summary user above within same =
    let not_below : leb cut first ≡ false = ground arith in
    let not_beyond : ltb (length all) cut ≡ false = ground arith in
    rw (not_below, not_beyond, user, same, eq_refl (hash (segment first cut ms))) refl

-- For a transcript that has grown since the cut was found, and that the scan accepts: the cut that
-- `compaction_cut` found lies behind its start and within what the transcript was, with no call
-- open at it; if the summary is a valid context message, `apply` accepts the recipe made of that
-- cut, and the scan accepts the transcript that it returns, with the same calls open at its end.
pub apply-compaction_cut :
    (hash : List Message → String) (ms more : List Message) (recent first cut : ℕ)
    (summary : Message) {t : Scan}
    → inspect_loop zero start (ms ++ more) ≡ ok t
    → compaction_cut ms recent ≡ ok (some (first, cut))
    → validate_context_tail (summary ∷ []) ≡ none
    → first < cut
      × cut ≤ length ms
      × Shut (take cut ms)
      × (out : List Message) × (apply hash (ms ++ more) (recipe hash ms (first, cut) summary)
          ≡ ok out)
      × (inspect_loop zero start out ≡ ok t)
apply-compaction_cut hash ms more recent first cut summary scan found valid =
    let (user, plain) = validate_context_tail-IsPlain summary valid in
    let (u, old, new) =
      >>=-eq-ok (inspect_loop zero start ms) (λ u. inspect_loop (zero + length ms) u more)
        (sym (inspect_loop-append zero start ms more) ∙ scan) in
    let (same, place) = compaction_cut-Good ms recent first cut old found in
    let (middle, above, within) = place in
    let head : Shut (take first ms) = subst (λ n. Shut (take n ms)) same (first-Shut ms old) in
    let first_kept = take-append first ms more (omega arith) in
    let cut_kept = take-append cut ms more within in
    let all = ms ++ more in
    let bound : cut ≤ length all = omega (arith, length-append ms more) in
    (
      above,
      within,
      middle,
      take first all ++ summary ∷ drop cut all,
      apply-accepts hash all ms first cut summary user above bound
          (segment-append first cut ms more (omega arith) within),
      summarised all first cut summary (subst Shut (sym first_kept) head)
          (subst Shut (sym cut_kept) middle) plain scan,
    )
