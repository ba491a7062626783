-- ===== src/Examples.antt =====
-- Small inputs for the operations, and runs on them.
pub mod Repairs
pub mod Permissions
pub mod Resumes
pub mod Journals
pub mod Compactions
pub mod Projections
use agentic.Prelude.{
  ℕ, zero, suc, ◌≤◌, ◌<◌, ◌≡◌, ◌↔◌, refl, String, true, false, none, some, List, [], ◌∷◌, ◌++◌, ok,
  err, map, arith, is_some,
}
use agentic.Message.{Message, system, user, assistant, ToolUse, ToolResult}
use agentic.Message.Build.{new_text_message, new_tool_use_message}
use agentic.Faults.{Fault, failure}
use agentic.Usage.{Usage, no_usage, add}
use agentic.Usage.Accounts.{IsAccounted, no_usage-IsAccounted, add-IsAccounted}
use agentic.Usage.Limits.{
  default_usage_limits, check_before_request, check_after_response, check_before_tool_calls,
}
use agentic.Usage.Caps.{
  Within, Below, check_before_request_iff, check_after_response_iff, check_before_tool_calls_iff,
}
use agentic.Tools.{Rendering, text, ToolExecutionResult, make_tool_result_error}
use agentic.Tools.Gate.{allow_all, Processor, project_tool_result, validate_tool_batch_decision}
use agentic.Tools.Gate.Laws.{
  Truthful, project_tool_result-Truthful, validate_tool_batch_decision_sound, ResolveAll,
}
use agentic.Tools.Scheduler.{Completion, arrive, collect}
use agentic.Tools.Scheduler.Orders.{failed_with, occurs, collect-order}
use agentic.Transcript.{start, inspect_transcript, inspect_loop}
use agentic.Transcript.Closing.{result_message, inspect_loop-close}
use agentic.Transcript.{
  unresolved_calls, inspect_message, open_frontier, take_results, check_ids, resolve_all,
  resolve_one, find_call, settle, all_resolved,
}
use agentic.Message.Parts.{tool_uses, tool_results}
use agentic.Transcript.Balance.{call_ids, answered_ids, calls-balance-results}
use agentic.Prelude.{count, contains, distinct, ◌==◌, is_empty, ◌⊎◌}
use agentic.Tools.{ToolDeferral}
use agentic.Tools.Scheduler.Orders.{occurs}
use agentic.Agent.Input.{
  drive_start, validate_drive_input, TurnDecision, turn_default, turn_continue, turn_stop,
  validate_turn_decision, all_user,
}
use agentic.Agent.Input.Checked.{Admits, validate_drive_input_iff, validate_turn_decision_iff}
use agentic.Prelude.{Result}
use agentic.Agent.{Suspension, LoopState, Config, Options, exhaustive, stop}
use agentic.Agent.Suspend.{
  Sealing, Payload, payload_for, new_tool_suspension, decode_tool_suspension,
}
use agentic.Agent.Suspend.Sealed.{decode_tool_suspension-new_tool_suspension}
use agentic.Agent.Turn.{Evaluator, complete_assistant_turn}
use agentic.Agent.Turn.Closes.{complete_assistant_turn-closes}
use agentic.Agent.Drive.{Driver, Execution}
use agentic.Agent.Loop.{turn_loop}
use agentic.Prelude.{subst}
use agentic.Agent.Drive.{ChatResponse}
use agentic.Transcript.Admits.{IsResponse}
use agentic.Agent.Loop.Closed.{is_settled}
use agentic.Agent.Loop.Paired.{turn_loop-pairs}
use agentic.Agent.Loop.Resting.{IsPaired}
use agentic.Agent.Run.{drive_loop}
use agentic.Agent.Run.Returns.{Returns, drive_loop-Returns}
use agentic.Prelude.{drop, length, ◌>>=◌, ◌+◌, ◌-◌, ◌^◌, All, Bool}
use agentic.History.{truncate_history, sliding_window_history}
use agentic.History.Windows.{
  Prompted, cost, Shows, truncate_history-drop, sliding_window_history-Fits,
}
use agentic.Agent.Loop.Ends.{turn_loop-ends}

abbrev pub search_call : ToolUse
search_call = record { id = "c1"; name = "search"; input = none }

abbrev pub read_call : ToolUse
read_call = record { id = "c2"; name = "read"; input = none }

abbrev pub two_calls : List ToolUse
two_calls = search_call ∷ read_call ∷ []

abbrev pub plain : Rendering
plain = record { describe = λ f. "fault"; marshal = λ c. ok "value" }

abbrev pub found : ToolUse → String → ToolExecutionResult
found call s = record {
  tool_use_id = call.id;
  tool_name = call.name;
  content = text s;
  is_error = false;
  error = none;
}

abbrev done : ℕ → ToolUse → Completion
done i call = record {
  index = i;
  result = found call "ok";
  fault = none;
  deferral = none;
  suspension_fault = none;
}

-- The second handler fails.
abbrev two_done : List Completion
two_done = done 0 search_call ∷ record (done 1 read_call) { fault = some (failure "broken") } ∷ []

abbrev answer_to : ToolUse → ToolResult
answer_to call = record {
  tool_use_id = call.id;
  name = call.name;
  content = "ok";
  is_error = false;
}

abbrev pub one_response : Usage
one_response = record no_usage { prompt_tokens = 7; completion_tokens = 5; total_tokens = 12 }

add-IsAccounted_example : IsAccounted (add no_usage one_response)
add-IsAccounted_example = add-IsAccounted no_usage one_response no_usage-IsAccounted

check_before_request_iff_example :
    (check_before_request default_usage_limits no_usage ≡ none)
    ↔ (Below 0 (some 50) × Within 0 none × Within 0 none)
check_before_request_iff_example = check_before_request_iff default_usage_limits no_usage

check_after_response_iff_example :
    (check_after_response default_usage_limits one_response ≡ none)
    ↔ (Within 7 none × Within 5 none × Within 12 none)
check_after_response_iff_example = check_after_response_iff default_usage_limits one_response

check_before_tool_calls_iff_example :
    (check_before_tool_calls (record default_usage_limits { max_tool_calls = some 3 }) 2 2 ≡ none)
    ↔ (Within 4 (some 3) ⊎ (2 ^ 63 ≤ 4))
check_before_tool_calls_iff_example =
    check_before_tool_calls_iff (record default_usage_limits { max_tool_calls = some 3 }) 2 2
      (omega arith) (omega arith)

-- A processor that turns an error into a success is refused.
abbrev whitewash : Processor
whitewash call result = ok (record result { is_error = false })

project_tool_result-Truthful_example :
    Truthful search_call
      (make_tool_result_error search_call "no" none)
      (project_tool_result plain
        (some whitewash)
        search_call
        (make_tool_result_error search_call "no" none)).0
project_tool_result-Truthful_example =
    project_tool_result-Truthful plain (some whitewash) search_call
      (make_tool_result_error search_call "no" none)

validate_tool_batch_decision_sound_example :
    (validate_tool_batch_decision two_calls (allow_all two_calls) ≡ ok false
      → ResolveAll two_calls (allow_all two_calls).calls × ((allow_all two_calls).deferral ≡ none))
    × (validate_tool_batch_decision two_calls (allow_all two_calls) ≡ ok true
        → (deferral : ToolDeferral) × ((allow_all two_calls).deferral ≡ some deferral)
          × ((deferral.kind == "") ≡ false))
validate_tool_batch_decision_sound_example =
    validate_tool_batch_decision_sound two_calls (allow_all two_calls)

both_arrive : (i : ℕ) → i < 2 → occurs i (1 ∷ 0 ∷ []) ≡ true
both_arrive zero l = refl
both_arrive (suc zero) l = refl
both_arrive (suc (suc i)) l = absurd (omega arith)

-- The second call is the first to complete.
collect-order_example :
    (collect plain two_calls (arrive two_done (1 ∷ 0 ∷ []))).results
    ≡ found search_call "ok" ∷ failed_with plain read_call (failure "broken") ∷ []
collect-order_example =
    collect-order plain two_calls two_done (1 ∷ 0 ∷ []) (refl, refl, (refl, refl, tt))
      (omega arith, (omega arith, tt)) both_arrive

one_left : unresolved_calls ("c1" ∷ []) two_calls ≡ read_call ∷ []
unfolding unresolved_calls contains
one_left = refl

inspect_loop-close_example :
    inspect_loop 3
      (record { frontier = two_calls; resolved = "c1" ∷ [] })
      (map result_message (answer_to read_call ∷ []))
    ≡ ok start
unfolding contains distinct
inspect_loop-close_example =
    inspect_loop-close 3 two_calls ("c1" ∷ []) read_call [] (answer_to read_call ∷ []) refl one_left
      (refl, refl, tt)

abbrev pub paired : List Message
paired =
    new_text_message user "find it"
    ∷ new_tool_use_message two_calls
    ∷ map result_message (answer_to read_call ∷ answer_to search_call ∷ [])

paired_passes : inspect_transcript paired ≡ ok []
unfolding inspect_transcript inspect_loop inspect_message open_frontier tool_uses take_results
    tool_results check_ids contains resolve_all resolve_one find_call settle all_resolved
paired_passes = refl

calls-balance-results_example : count "c1" (call_ids paired) ≡ count "c1" (answered_ids paired)
calls-balance-results_example = calls-balance-results "c1" paired paired_passes

abbrev pub asked : List Message
asked = new_text_message user "find it" ∷ []

validate_drive_input_iff_example :
    (validate_drive_input
        (record { mode = drive_start; history = []; prompt = some (new_text_message user "go") })
        []
      ≡ none)
    ↔ ((inspect_transcript [] ≡ ok []) × Admits drive_start (some (new_text_message user "go")) [])
validate_drive_input_iff_example =
    validate_drive_input_iff
      (record { mode = drive_start; history = []; prompt = some (new_text_message user "go") }) []

abbrev go_on : TurnDecision
go_on = record { action = turn_continue; inject = asked }

validate_turn_decision_iff_example : (validate_turn_decision go_on ≡ none) ↔ (
    ((turn_continue ≡ turn_continue)
      × ((is_empty asked ≡ false) × All (λ (m : Message). m.role ≡ user) asked))
    ⊎ (((turn_continue ≡ turn_default) ⊎ (turn_continue ≡ turn_stop)) × (asked ≡ [])))
validate_turn_decision_iff_example = validate_turn_decision_iff go_on

abbrev pub calls_both : Message
calls_both = new_tool_use_message two_calls

abbrev pub opened : List Message
opened = asked ++ calls_both ∷ []

abbrev pub fresh : LoopState
fresh = record {
  messages = opened;
  history_len = 0;
  max_iterations = 10;
  usage_limits = some default_usage_limits;
  end_strategy = exhaustive;
  all_tool_calls = [];
  all_tool_results = [];
  total_usage = no_usage;
  retry_counts = [];
  total_retries = 0;
  validation_retries = 0;
  iteration = 0;
  last_finish_reason = stop;
  config_fingerprint = "";
  events = [];
}

abbrev pub registered : Config
registered = record {
  output_tool_names = [];
  max_retries = 1;
  max_validation_retries = 1;
  registry = record {
    handlers =
        ("search", record { may_suspend = false; max_retries = none })
        ∷ ("read", record { may_suspend = false; max_retries = none })
        ∷ [];
    has_executor = false;
  };
}

-- The second call is the first to complete, and each handler succeeds.
abbrev pub unwatched : Options
unwatched = record {
  render = plain;
  event_sink = none;
  tool_gate = none;
  tool_result_processor = none;
  execute = λ ls call attempt. (found call "ok", none);
  arrivals = λ ls calls. 1 ∷ 0 ∷ [];
}

abbrev pub sealing : Sealing
sealing = record {
  frontier_hash = λ ms calls. "v1:";
  encode = λ payload. ok "{}";
  decode = λ s. err (failure s);
  new_suspension_id = λ ls. "s1";
}

abbrev pub last_text : Evaluator String
last_text ls m = ok "done"

pub asked_passes : inspect_transcript asked ≡ ok []
unfolding inspect_transcript inspect_loop inspect_message open_frontier tool_uses take_results
    tool_results
asked_passes = refl

pub opened_passes : inspect_transcript opened ≡ ok two_calls
unfolding inspect_transcript inspect_loop inspect_message open_frontier tool_uses take_results
    tool_results check_ids contains
opened_passes = refl

complete_assistant_turn-closes_example :
    let (ls', outcome) =
      complete_assistant_turn unwatched registered sealing last_text fresh calls_both false none in
    (outcome.suspension ≡ none → inspect_transcript ls'.messages ≡ ok [])
    × (is_some outcome.suspension ≡ true → ls'.messages ≡ opened)
complete_assistant_turn-closes_example =
    complete_assistant_turn-closes unwatched registered sealing last_text fresh calls_both false
      none asked refl asked_passes opened_passes tt

-- A provider that answers each request with a text.
abbrev pub replies : Driver
replies = record {
  context_error = λ ls. none;
  history_processor = none;
  request = λ ls messages. ok (record {
    message = new_text_message assistant "done";
    usage = one_response;
    finish_reason = stop;
    raw_finish_reason = "stop";
  });
  turn_hook = none;
}

turn_loop-ends_example :
    (ls' : LoopState) × (execution : Execution String) × (turn_loop unwatched registered sealing
        replies last_text 11 fresh
      ≡ some (ls', execution))
    × (ls'.iteration ≤ 10)
turn_loop-ends_example =
    turn_loop-ends unwatched registered sealing replies last_text 11 fresh (omega arith)
      (omega arith)

abbrev pub approval : ToolDeferral
approval = record { kind = "approval"; payload = "{}" }

abbrev pub paused : Payload
paused = record {
  version = 1;
  suspension_id = "s1";
  handler_suspension = false;
  calls = two_calls;
  executable_call_ids = "c1" ∷ "c2" ∷ [];
  iteration = 0;
  usage = no_usage;
  retry_counts = [];
  total_retries = 0;
  validation_retries = 0;
  end_strategy = exhaustive;
  config_fingerprint = "";
  last_finish_reason = stop;
  deferral = approval;
}

abbrev pub reading : Sealing
reading = record sealing { decode = λ s. ok paused }

abbrev pub waiting : Suspension
waiting = record { id = "s1"; kind = "approval"; frontier_hash = "v1:"; payload = "{}" }

abbrev reply : ChatResponse
reply = record {
  message = new_text_message assistant "done";
  usage = one_response;
  finish_reason = stop;
  raw_finish_reason = "stop";
}

reply-IsResponse : IsResponse reply.message
unfolding tool_uses tool_results check_ids
reply-IsResponse = (refl, refl, λ i. refl)

replies-responds :
    (ls : LoopState) (messages : List Message) (r : ChatResponse)
    → replies.request ls messages ≡ ok r
    → IsResponse r.message
replies-responds ls messages r h =
    let same : reply ≡ r = cc in subst (λ t. IsResponse t.message) same reply-IsResponse

pub replies-IsPaired : IsPaired replies
replies-IsPaired = record { responds = replies-responds; injects = λ hook ls turn decision e h. cc }

abbrev begun : LoopState
begun = record fresh { messages = asked }

turn_loop-pairs_example :
    (ls' : LoopState) × (execution : Execution String) × (turn_loop unwatched registered sealing
        replies last_text 11 begun
      ≡ some (ls', execution))
    × (is_settled execution.status ≡ true → inspect_transcript execution.result.messages ≡ ok [])
turn_loop-pairs_example =
    turn_loop-pairs unwatched registered sealing replies last_text 11 begun replies-IsPaired
      asked_passes (omega arith) (omega arith)

drive_loop-Returns_example :
    Returns String unwatched registered sealing replies
      (drive_loop unwatched registered sealing replies last_text 11 begun none none)
drive_loop-Returns_example =
    drive_loop-Returns String unwatched registered sealing replies last_text 11 begun none none
      replies-IsPaired tt asked_passes (omega arith) (omega arith)

abbrev prompted : List Message
prompted = new_text_message system "be brief" ∷ paired

truncate_history-drop_example :
    (prefix : List Message) × (rest : List Message) × Prompted prompted prefix rest
    × (truncate_history 2 prompted ≡ prefix ++ drop (length rest - 2) rest)
    × (length (truncate_history 2 prompted) ≤ 2 + 1)
truncate_history-drop_example = truncate_history-drop 2 prompted

-- Each message costs three tokens.
abbrev three_each : Message → ℕ
three_each m = 3

sliding_window_history-Fits_example :
    (prefix : List Message) × (rest : List Message) × Prompted prompted prefix rest
    × Shows three_each prefix rest
        (7 - cost three_each prefix)
        (sliding_window_history three_each 7 prompted)
sliding_window_history-Fits_example = sliding_window_history-Fits three_each 7 prompted
