-- ===== src/Examples/Compactions.antt =====
-- A small transcript, cut and compacted: harness/contextpolicy/contextpolicy.go.
use agentic.Prelude.{
  ◌≡◌, refl, ◌<◌, ◌≤◌, String, List, [], ◌∷◌, ◌++◌, contains, ok, none, some, length, take,
}
use agentic.Message.{Message, system, user, assistant}
use agentic.Message.Build.{new_text_message}
use agentic.Message.Parts.{tool_uses, tool_results}
use agentic.Transcript.{
  start, inspect_loop, inspect_message, open_frontier, take_results, check_ids, resolve_all,
  resolve_one, find_call, settle, all_resolved,
}
use agentic.Transcript.Admits.{Shut}
use agentic.Compaction.{
  validate_context_tail, all_text, compaction_cut, cut_loop, track_uses, open_uses, track_results,
  remove_id, apply, recipe,
}
use agentic.Compaction.Applies.{apply-compaction_cut}
use agentic.Examples.{paired, calls_both, two_calls}

abbrev talk : List Message
talk = new_text_message system "be brief" ∷ paired ++ new_text_message assistant "done" ∷ []

abbrev later : List Message
later = calls_both ∷ []

abbrev summary : Message
summary = new_text_message user "found it"

abbrev hashed : List Message → String
hashed messages = "ctx1:"

later_scan :
    inspect_loop 0 start (talk ++ later) ≡ ok (record { frontier = two_calls; resolved = [] })
unfolding inspect_loop inspect_message open_frontier tool_uses take_results tool_results check_ids
    contains resolve_all resolve_one find_call settle all_resolved
later_scan = refl

talk_cut : compaction_cut talk 1 ≡ ok (some (1, 5))
unfolding compaction_cut cut_loop track_uses open_uses track_results remove_id tool_uses
    tool_results contains
talk_cut = refl

summary_valid : validate_context_tail (summary ∷ []) ≡ none
unfolding validate_context_tail all_text
summary_valid = refl

apply-compaction_cut_example :
    1 < 5
    × 5 ≤ length talk
    × Shut (take 5 talk)
    × (out : List Message) × (apply hashed (talk ++ later) (recipe hashed talk (1, 5) summary)
        ≡ ok out)
    × (inspect_loop 0 start out ≡ ok (record { frontier = two_calls; resolved = [] }))
apply-compaction_cut_example =
    apply-compaction_cut hashed talk later 1 1 5 summary later_scan talk_cut summary_valid
