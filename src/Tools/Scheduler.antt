-- ===== src/Tools/Scheduler.antt =====
-- `executeAdmittedTools` of tool_scheduler.go, from the start of the goroutines on: a batch runs
-- concurrently, and each completion is accepted as it arrives. An interleaving is the list of the
-- completions in the order of their arrival. The select loop ends when every call has a result; if
-- the arrivals end before that, its only other way out was taken: the context was cancelled and the
-- grace period passed.
pub mod Orders
use agentic.Prelude.{
  ℕ, zero, suc, String, Bool, true, false, Option, none, some, List, [], ◌∷◌, Result, ok, err, map,
  get_elem?, set, nat_eq, if◌then◌else◌, is_some,
}
use agentic.Message.{ToolUse}
use agentic.Faults.{Fault, wrapped, join, suspension_fault as handler_fault, execution_interrupted}
use agentic.Tools.{Rendering, ToolDeferral, ToolExecutionResult, make_tool_result_error}
use agentic.Tools.Gate.{handler_deferral}

-- `scheduledResult`; it is suspended where it has a deferral.
pub record Completion : Type 0 where
  pub index : ℕ
  pub result : ToolExecutionResult
  pub fault : Option Fault
  pub deferral : Option ToolDeferral
  pub suspension_fault : Option Fault

-- What a goroutine sends, from what the registry's `Execute` returned to it.
unfoldable pub complete :
    (String → Bool) → ToolUse → ℕ → ToolExecutionResult × Option Fault → Completion
complete may_suspend call i (result, fault) = elim (handler_deferral may_suspend call result) [
  | ok deferral ↦ record {
    index = i;
    result = result;
    fault = fault;
    deferral = deferral;
    suspension_fault = none;
  }
  | err e ↦ record {
    index = i;
    result = result;
    fault = fault;
    deferral = none;
    suspension_fault = some (handler_fault e);
  }
]

-- The completions in an order of arrival given by their indices.
abbrev pub arrive : List Completion → List ℕ → List Completion
arrive cs [] = []
arrive cs (i ∷ order) = elim (get_elem? cs i) [
  | none ↦ arrive cs order
  | some c ↦ c ∷ arrive cs order
]

-- The collector's variables; a slot without a result has not been received.
pub record Gather : Type 0 where
  pub slots : List (Option ToolExecutionResult)
  pub first_fault : Option Fault
  pub deferral : Option ToolDeferral

abbrev pub empty_gather : List ToolUse → Gather
empty_gather calls = record { slots = map (λ _. none) calls; first_fault = none; deferral = none }

unfoldable pub received : List (Option ToolExecutionResult) → ℕ → Bool
received [] i = false
received (slot ∷ slots) zero = is_some slot
received (slot ∷ slots) (suc i) = received slots i

unfoldable pub remaining : List (Option ToolExecutionResult) → ℕ
remaining [] = 0
remaining (none ∷ slots) = suc (remaining slots)
remaining (some r ∷ slots) = remaining slots

-- What stands in the slot of a completion.
unfoldable pub outcome : Rendering → ToolUse → Completion → ToolExecutionResult
outcome render call c = elim (join c.fault c.suspension_fault) [
  | none ↦ c.result
  | some e ↦ make_tool_result_error call (render.describe e) (some e)
]

abbrev first_of_faults : Option Fault → ToolUse → Option Fault → Option Fault
first_of_faults (some old) call new = some old
first_of_faults none call none = none
first_of_faults none call (some e) = some (wrapped call.name e)

-- A completion that failed sets no deferral.
abbrev pub next_deferral :
    Option Fault → Option ToolDeferral → Option ToolDeferral → Option ToolDeferral
next_deferral (some e) new old = old
next_deferral none none old = old
next_deferral none (some d) old = some d

-- `acceptCompletion`, of a completion for the call of its index.
unfoldable pub accept_for : Rendering → ToolUse → Gather → Completion → Gather
accept_for render call g c = if received g.slots c.index then g else record {
  slots = set g.slots c.index (some (outcome render call c));
  first_fault = first_of_faults g.first_fault call (join c.fault c.suspension_fault);
  deferral = next_deferral (join c.fault c.suspension_fault) c.deferral g.deferral;
}

-- No completion has an index outside the batch.
unfoldable pub accept : Rendering → List ToolUse → Gather → Completion → Gather
accept render calls g c = elim (get_elem? calls c.index) [
  | none ↦ g
  | some call ↦ accept_for render call g c
]

-- The loop `for remaining > 0` over the arrivals.
unfoldable pub gather : Rendering → List ToolUse → Gather → List Completion → Gather
gather render calls g [] = g
gather render calls g (c ∷ cs) =
    let rest = gather render calls (accept render calls g c) cs in
    if nat_eq (remaining g.slots) 0 then g else rest

unfoldable pub interrupted : ToolUse → ToolExecutionResult
interrupted call =
    make_tool_result_error call
      "Tool execution did not stop before cancellation grace; side effects may still be running."
      (some execution_interrupted)

-- The case of the timer: each call that is still open gets an interruption for its result.
unfoldable pub fill : List ToolUse → List (Option ToolExecutionResult) → List ToolExecutionResult
fill (call ∷ calls) (some r ∷ slots) = r ∷ fill calls slots
fill (call ∷ calls) (none ∷ slots) = interrupted call ∷ fill calls slots
fill _ _ = []

-- The results of a batch, or its deferral, with the first fault.
pub record Batch : Type 0 where
  pub results : List ToolExecutionResult
  pub deferral : Option ToolDeferral
  pub fault : Option Fault

abbrev pub finish : List ToolUse → Gather → Batch
finish calls g = elim g.deferral [
  | some d ↦ record { results = []; deferral = some d; fault = g.first_fault }
  | none ↦ record { results = fill calls g.slots; deferral = none; fault = g.first_fault }
]

unfoldable pub collect : Rendering → List ToolUse → List Completion → Batch
collect render calls arrivals = finish calls (gather render calls (empty_gather calls) arrivals)
