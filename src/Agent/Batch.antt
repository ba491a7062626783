-- ===== src/Agent/Batch.antt =====
-- `executeRegularTurn` and `validateSuspendableBatch` of turn.go, with the start of a batch from
-- tool_scheduler.go: plan, gate, limits, execution and the results of the regular calls of a turn.
pub mod Kept
pub mod Results
use Prim.Native.String.{◌++◌ as append}
use agentic.Prelude.{
  ℕ, zero, suc, ◌+◌, String, Bool, true, false, not, ◌&&◌, ◌||◌, Option, none, some, List, [], ◌∷◌,
  Result, ok, err, ltb, nat_eq, if◌then◌else◌, is_empty, is_some, length, lookup, insert, contains,
}
use agentic.Message.{ToolUse}
use agentic.Faults.{
  Fault, failure, wrapped, gate_fault, suspension_fault, not_alone, is_model_retry,
}
use agentic.Tools.{
  ToolExecutionResult, ToolDeferral, ToolDispositionKind, execute, return, ToolDisposition,
  ToolBatchDecision, make_tool_result_error,
}
use agentic.Tools.Gate.{validate_tool_batch_decision, allow_all, project_tool_result}
use agentic.Tools.Scheduler.{Completion, complete, arrive, Batch, collect}
use agentic.Agent.{
  LoopState, Config, Options, Registry, ToolHandler, get_handler, handler_suspends, may_suspend,
  Suspension, emit, tool_batch_planned, tool_started, check_tool_call_limits,
}
use agentic.Agent.Suspend.{Sealing, new_tool_suspension}

-- `regularTurnState`.
pub record RegularTurn : Type 0 where
  pub results : List (String × ToolExecutionResult)
  pub continuation : Bool
  pub suspension : Option Suspension
  pub fatal : Option Fault

abbrev pub no_turn : RegularTurn
no_turn = record { results = []; continuation = false; suspension = none; fatal = none }

-- The calls that are no output tools.
unfoldable pub regular_calls : List String → List ToolUse → List ToolUse
regular_calls names [] = []
regular_calls names (call ∷ calls) =
    let rest = regular_calls names calls in if contains call.name names then rest else call ∷ rest

-- `state.results[call.ID] = makeToolResultError(call, note, cause)` for each call.
unfoldable pub deny_all :
    String
    → Fault
    → List ToolUse
    → List (String × ToolExecutionResult)
    → List (String × ToolExecutionResult)
deny_all note cause [] results = results
deny_all note cause (call ∷ calls) results =
    deny_all note cause calls
      (insert call.id (make_tool_result_error call note (some cause)) results)

-- A batch that ends with a fatal error and an error result for each of the calls.
abbrev pub deny : RegularTurn → List ToolUse → String → Fault → Fault → RegularTurn
deny st calls note cause fatal = record st {
  results = deny_all note cause calls st.results;
  fatal = some fatal;
}

-- The loop over the gate's dispositions: results to return, and the calls to execute.
unfoldable pub dispose :
    List ToolUse → List ToolDisposition → RegularTurn → RegularTurn × List ToolUse
dispose (call ∷ calls) (d ∷ ds) st =
    let st' : RegularTurn = record st { continuation = st.continuation || d.continue } in
    elim d.kind [
      | return ↦ elim d.result [
        | none ↦ dispose calls ds st'
        | some r ↦ dispose calls ds (record st' { results = insert call.id r st'.results })
      ]
      | execute ↦ let (st'', executable) = dispose calls ds st' in (st'', call ∷ executable)
      | _ ↦ dispose calls ds st'
    ]
dispose _ _ st = (st, [])

-- `validateSuspendableBatch`.
unfoldable pub validate_suspendable_batch :
    Registry → List ToolUse → List ToolUse → List ToolUse → Option Fault
validate_suspendable_batch registry regular executable [] = none
validate_suspendable_batch registry regular executable (call ∷ calls) =
    let rest = validate_suspendable_batch registry regular executable calls in
    if may_suspend registry call.name
      && not (nat_eq (length regular) 1 && nat_eq (length executable) 1)
    then some (suspension_fault (not_alone call.name))
    else rest

abbrev pub retry_count : List (String × ℕ) → String → ℕ
retry_count counts name = elim (lookup name counts) [ none ↦ 0 | some n ↦ n ]

-- The events that announce the batch; the first that the sink refuses ends the batch.
unfoldable pub start_all : Options → LoopState → List ToolUse → LoopState × Option Fault
start_all o ls [] = (ls, none)
start_all o ls (call ∷ calls) =
    let (ls', fault) = emit o ls (tool_started call (retry_count ls.retry_counts call.name + 1)) in
    elim fault [ none ↦ start_all o ls' calls | some e ↦ (ls', some e) ]

-- What the goroutines send, one for each call of the batch.
unfoldable pub completions : Options → Registry → LoopState → ℕ → List ToolUse → List Completion
completions o registry ls i [] = []
completions o registry ls i (call ∷ calls) =
    complete (may_suspend registry) call i
      (o.execute ls call (retry_count ls.retry_counts call.name + 1))
    ∷ completions o registry ls (suc i) calls

-- `executeAdmittedTools`.
unfoldable pub execute_admitted_tools :
    Options → Registry → LoopState → List ToolUse → LoopState × Batch
execute_admitted_tools o registry ls [] =
    (ls, record { results = []; deferral = none; fault = none })
execute_admitted_tools o registry ls (call ∷ calls) =
    let (ls', fault) = start_all o ls (call ∷ calls) in
    elim fault [
      | some e ↦ (ls', record { results = []; deferral = none; fault = some e })
      | none ↦ (
        ls',
        collect o.render (call ∷ calls)
            (arrive (completions o registry ls' 0 (call ∷ calls)) (o.arrivals ls' (call ∷ calls))),
      )
    ]

abbrev retries_of : ℕ → Option ToolHandler → ℕ
retries_of default none = default
retries_of default (some handler) = elim handler.max_retries [ none ↦ default | some n ↦ n ]

abbrev asks_retry : Option Fault → Bool
asks_retry none = false
asks_retry (some e) = is_model_retry e

-- `applyRetryState`, and the same lines of `executeRegularTurn`.
unfoldable pub apply_retry_state :
    Config → LoopState → ToolUse → ToolExecutionResult → RegularTurn → LoopState × RegularTurn
apply_retry_state c ls call result st =
    if asks_retry result.error
      && ltb (retry_count ls.retry_counts call.name)
          (retries_of c.max_retries (get_handler c.registry call.name))
    then (
      record ls {
        retry_counts = insert call.name (retry_count ls.retry_counts call.name + 1) ls.retry_counts;
        total_retries = ls.total_retries + 1;
      },
      record st { continuation = true },
    )
    else (ls, st)

abbrev pub first_fatal : Option Fault → Option Fault → Option Fault
first_fatal (some old) new = some old
first_fatal none new = new

abbrev pub in_context : String → Option Fault → Option Fault
in_context note none = none
in_context note (some e) = some (wrapped note e)

abbrev count_tool_call : LoopState → LoopState
count_tool_call ls =
    let u = ls.total_usage in record ls { total_usage = record u { tool_calls = u.tool_calls + 1 } }

-- The body of the loop over the results of a batch.
unfoldable pub settle_result :
    Options
    → Config
    → LoopState
    → RegularTurn
    → ToolUse
    → ToolExecutionResult
    → LoopState × RegularTurn
settle_result o c ls st call result =
    let (projected, fault) = project_tool_result o.render o.tool_result_processor call result in
    let st' : RegularTurn = record st {
      results = insert call.id projected st.results;
      fatal = first_fatal st.fatal (in_context "tool result processor" fault);
    } in
    let (ls', st'') = apply_retry_state c ls call projected st' in (count_tool_call ls', st'')

unfoldable pub settle_results :
    Options
    → Config
    → LoopState
    → RegularTurn
    → List ToolUse
    → List ToolExecutionResult
    → LoopState × RegularTurn
settle_results o c ls st (call ∷ calls) (result ∷ results) =
    let (ls', st') = settle_result o c ls st call result in settle_results o c ls' st' calls results
settle_results o c ls st _ _ = (ls, st)

-- A frontier that is left open, or the calls denied if its description cannot be made.
unfoldable pub suspend_batch :
    Sealing
    → LoopState
    → RegularTurn
    → List ToolUse
    → List ToolUse
    → ToolDeferral
    → Bool
    → RegularTurn
suspend_batch seal ls st calls executable deferral handler =
    elim (new_tool_suspension seal ls calls executable deferral handler) [
      | ok suspension ↦ record st { suspension = some suspension }
      | err e ↦ deny st executable "Unable to persist tool suspension." e e
    ]

-- From the admitted batch to its results.
unfoldable pub run_batch :
    Options
    → Config
    → Sealing
    → LoopState
    → RegularTurn
    → List ToolUse
    → List ToolUse
    → LoopState × RegularTurn
run_batch o c seal ls st calls executable =
    let (ls', batch) = execute_admitted_tools o c.registry ls executable in
    elim batch.deferral [
      | some deferral ↦ (ls', suspend_batch seal ls' st calls executable deferral true)
      | none ↦
          let (ls'', st') = settle_results o c ls' st executable batch.results in
          (ls'', record st' { fatal = first_fatal st'.fatal batch.fault })
    ]

abbrev no_tools_note : String
no_tools_note = "model requested tool calls but no tools are registered"

-- The checks between the gate's dispositions and the execution.
unfoldable pub admit :
    Options
    → Config
    → Sealing
    → LoopState
    → RegularTurn
    → List ToolUse
    → List ToolUse
    → List ToolUse
    → LoopState × RegularTurn
admit o c seal ls st calls regular executable =
    let run = run_batch o c seal ls st calls executable in
    if is_empty executable
    then (ls, st)
    else if is_empty c.registry.handlers && not c.registry.has_executor
    then (ls, deny st executable no_tools_note (failure no_tools_note) (failure no_tools_note))
    else elim (check_tool_call_limits ls (length executable)) [
      | some e ↦ (ls, deny st executable (o.render.describe e) e e)
      | none ↦ elim (validate_suspendable_batch c.registry regular executable executable) [
        | some e ↦ (ls, deny st executable (o.render.describe e) e e)
        | none ↦ run
      ]
    ]

-- The decision of the gate, or of the gate that allows all.
abbrev pub gate_decision : Options → LoopState → List ToolUse → Result Fault ToolBatchDecision
gate_decision o ls regular = elim o.tool_gate [
  | none ↦ ok (allow_all regular)
  | some evaluate ↦ evaluate ls regular
]

-- `*decision.Deferral` of a decision that suspends.
abbrev pub suspension_deferral : Bool → Option ToolDeferral → Option ToolDeferral
suspension_deferral false deferral = none
suspension_deferral true deferral = deferral

unfoldable pub decide_batch :
    Options
    → Config
    → Sealing
    → LoopState
    → List ToolUse
    → List ToolUse
    → Result Fault ToolBatchDecision
    → LoopState × RegularTurn
decide_batch o c seal ls calls regular (err e) = (
  ls,
  deny no_turn regular
      (append "Tool batch denied because the tool gate failed: " (o.render.describe e)) e
      (wrapped "tool gate" e),
)
decide_batch o c seal ls calls regular (ok decision) =
    elim (validate_tool_batch_decision regular decision) [
      | err e ↦ (
        ls,
        deny no_turn regular "Tool batch denied because the tool gate returned an invalid decision."
            (gate_fault e) (wrapped "tool gate" (gate_fault e)),
      )
      | ok suspended ↦ elim (suspension_deferral suspended decision.deferral) [
        | some deferral ↦ (ls, suspend_batch seal ls no_turn calls regular deferral false)
        | none ↦
            let (st, executable) = dispose regular decision.calls no_turn in
            admit o c seal ls st calls regular executable
      ]
    ]

unfoldable pub execute_regular_turn :
    Options → Config → Sealing → LoopState → List ToolUse → LoopState × RegularTurn
execute_regular_turn o c seal ls calls =
    let regular = regular_calls c.output_tool_names calls in
    let (ls', fault) = emit o ls (tool_batch_planned regular) in
    if is_empty regular then (ls, no_turn) else elim fault [
      | some e ↦ (ls', deny no_turn regular "Tool batch planning failed." e e)
      | none ↦ decide_batch o c seal ls' calls regular (gate_decision o ls' regular)
    ]
