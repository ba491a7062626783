-- ===== src/Examples/Projections.antt =====
-- A transcript projected under a policy that compacts: harness/contextpolicy/contextpolicy.go.
use agentic.Prelude.{
  ◌≡◌, refl, sym, ap, ◌∙◌, inl, inr, String, List, [], ◌∷◌, ◌++◌, Option, Bool, true, false, ◌&&◌,
  none, some, ok, map, length, is_empty, replicate, nat_eq, Bool-cases, arith, if◌then◌else◌,
}
use agentic.Message.{
  Message, MessageRole, ToolUse, ToolResult, system, user, assistant, tool, other_role, is_user,
}
use agentic.Message.Build.{new_text_message}
use agentic.Message.Parts.{get_tool_uses, get_tool_results, tool_uses, tool_results}
use agentic.Transcript.{inspect_loop, inspect_message, open_frontier, take_results}
use agentic.Transcript.Admits.{Shut}
use agentic.Transcript.Outlines.{outline, bare}
use agentic.Compaction.{
  validate_context_tail, all_text, compaction_cut, cut_loop, track_uses, track_results, apply,
  recipe,
}
use agentic.Compaction.Project.{
  Policy, Projection, Transform, check_partitions, messages_equal, estimate, message_total,
  tool_total, run_transforms, current_view, fit, use_summary, compact, shrink, project,
}
use agentic.Compaction.Project.Shows.{Fits, MarshalTells, project-Shut}

abbrev told : Message
told = new_text_message user "found it"

abbrev long : List Message
long = told ∷ told ∷ told ∷ []

-- A user message without calls and results.
abbrev is_plain : Message → Bool
is_plain m = is_user m.role && (is_empty (get_tool_uses m) && is_empty (get_tool_results m))

abbrev all_plain : List Message → Bool
all_plain [] = true
all_plain (m ∷ ms) = is_plain m && all_plain ms

-- Three such messages have an encoding, and nothing else has.
abbrev encode : List Message → Option String
encode ms = if nat_eq (length ms) 3 && all_plain ms then some "[u,u,u]" else none

abbrev plain_outline : MessageRole × (List ToolUse × List ToolResult)
plain_outline = (user, ([], []))

outline-plain :
    (role : MessageRole) (uses : List ToolUse) (results : List ToolResult)
    → (is_user role && (is_empty uses && is_empty results)) ≡ true
    → Path
        (MessageRole × (List ToolUse × List ToolResult))
        (role, (map bare uses, results))
        plain_outline
outline-plain user [] [] e = refl
outline-plain user [] (r ∷ results) e = cc
outline-plain user (call ∷ uses) results e = cc
outline-plain system uses results e = cc
outline-plain assistant uses results e = cc
outline-plain tool uses results e = cc
outline-plain (other_role name) uses results e = cc

outlines-plain :
    (ms : List Message) → all_plain ms ≡ true → map outline ms ≡ replicate (length ms) plain_outline
outlines-plain [] e = refl
outlines-plain (m ∷ ms) e =
    rw
      (
        outline-plain m.role (get_tool_uses m) (get_tool_results m) (ground arith),
        outlines-plain ms (ground arith),
      )
      refl

outlines_of_encoded :
    (ms : List Message) (s : String)
    → encode ms ≡ some s
    → map outline ms ≡ replicate 3 plain_outline
outlines_of_encoded ms s e = elim (Bool-cases (nat_eq (length ms) 3 && all_plain ms)) [
  | inl both ↦
      let three : length ms ≡ 3 = ground arith in
      outlines-plain ms (ground arith) ∙ ap (λ n. replicate n plain_outline) three
  | inr other ↦ absurd (ground arith)
]

-- A transform that adds a message to the transcript.
abbrev remind : Transform
remind (durable, ephemeral) = ok (some (durable ++ told ∷ []), some ephemeral)

-- Each message counts three tokens; the window is ten, the trigger seven and the target six.
abbrev compacting : Policy Bool
compacting = record {
  context_error = none;
  transforms = remind ∷ [];
  compactor = some (λ messages. ok told);
  context_window_tokens = 10;
  trigger_percent = 70;
  target_percent = 60;
  recent_messages = 1;
  message_overhead = 0;
  part_overhead = 0;
  tool_overhead = 0;
  tools = [];
  count_message = λ message. ok 3;
  count_tool = λ tool. ok 0;
  marshal = encode;
  compactions_equal = λ one two. false;
  prefix_hash = λ messages. "ctx1:";
}

abbrev compacted : Projection
compacted = record {
  messages = told ∷ told ∷ [];
  durable_additions = told ∷ [];
  compaction = some (recipe compacting.prefix_hash (long ++ told ∷ []) (0, 3) told);
  compaction_changed = true;
}

long_projected : project compacting long none ≡ ok compacted
unfolding project run_transforms check_partitions messages_equal current_view shrink estimate
    message_total tool_total compaction_cut cut_loop track_uses track_results compact use_summary
    validate_context_tail all_text apply fit tool_uses tool_results
long_projected = refl

long_closed : Shut long
unfolding inspect_loop inspect_message open_frontier take_results tool_uses tool_results
long_closed = refl

encode-MarshalTells : MarshalTells compacting
encode-MarshalTells one two s e f = outlines_of_encoded one s e ∙ sym (outlines_of_encoded two s f)

project-Shut_example : Shut compacted.messages × Fits compacting compacted
project-Shut_example =
    project-Shut compacting long compacted encode-MarshalTells long_closed long_projected
