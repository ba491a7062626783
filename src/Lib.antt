-- ===== src/Lib.antt =====
-- Verification of the agent loop of this library: the code that calls a model, runs the tools that
-- it asks for, and commits a transcript in which every tool call is answered.
--
-- The parts and how they interact. A run is a loop of turns (execution_loop.go). A turn asks the
-- provider for an assistant message, commits it, and completes it (turn.go): the gate decides on
-- the batch of its regular calls (tool_control.go, tool_scheduler.go), the admitted calls run
-- concurrently and are collected in the order of the calls, each result is projected and recorded,
-- a completion candidate is evaluated, and one result per call is committed. A gate or a handler
-- may suspend the frontier instead (suspension.go). The transcript check (transcript.go) is the
-- contract between the turns: it admits a new frontier only when the one before is answered.
--
-- Where each part is modelled:
--   Prelude        names of the library, Boolean tests, lists, association lists of strings
--   Message        internal/core/message.go: `Message`, `Part`, the builders and the accessors
--   Faults         the errors of the loop, as values (errors.go and the files that make them)
--   Usage          internal/core/request.go (`Usage.Add`) and usage_limits.go
--   Tools          tool_control.go, internal/core/handler.go, and of tool_scheduler.go the checks
--                  (Gate) and the collector of a batch (Scheduler)
--   Transcript     transcript.go: `inspectTranscript` as a scan, `transcriptToolState`
--   Agent          run_state.go and events.go: the state of a run, its events and collaborators
--   Agent.Batch    turn.go: `executeRegularTurn`, `validateSuspendableBatch`
--   Agent.Pairs    turn.go: `checkOutputTool`, the pairing loop, `commitToolResults`
--   Agent.Turn     turn.go: `completeAssistantTurn`
--   Agent.Suspend  suspension.go
--   Agent.Input    execution_loop.go: `validateDriveInput`, `validateTurnDecision`
--   Agent.Drive    execution_loop.go: the executions that a run ends with
--   Agent.Loop     execution_loop.go: `requestTurn`, `driveLoop`, `finishTurn`
--   Agent.Run      execution_loop.go: `driveLoop` from its start, with a resumed turn
--   Agent.Resume   execution_loop.go and driver.go: the decisions of a resumption and their checks;
--                  Restart: their execution, the checks on the suspension and the resumed run
--   History        history_processor.go: truncation, sliding window, summaries and chains
--   Repair         harness/repair/repair.go: `Process` (Final: `InspectFrontier`)
--   Permission     harness/permission: policy.go and presets.go (Gate: capability.go)
--   Compaction     harness/contextpolicy/contextpolicy.go: `compactionCut`, `Apply` (Project:
--                  `Project` and `Estimate`)
--   Store          harness/store/store.go and harness/store/memory/memory.go
--   Examples       runs on small inputs
--
-- Around the loop stand the packages of the harness that are modelled. `Process` of the repair package
-- projects a durable transcript to one that the check admits, before a request. A permission policy
-- decides on a batch as a gate, in dispositions that the loop's check admits. The session store keeps
-- the journals that a session is rebuilt from. A context policy cuts a transcript that has grown too
-- long where no call is open, and puts a summary in place of what stands before the cut.
--
-- State and operations. `LoopState` has the fields of `loopState` that the loop reads or writes, and
-- the list of the events that the sink was given; an operation takes the state and returns it. What
-- the loop calls and does not contain (model, gate, handlers, result processor, history processor,
-- evaluator, hook, sink, JSON, hashes) is a function of the state among the fields of `Options`,
-- `Driver` and `Sealing`, so that it may answer differently at each call. A law that a theorem
-- needs of one of them is among that theorem's hypotheses.
-- A Go map is an association list in which an insertion overwrites, an error is a `Fault`, a nil is
-- `none`, and the concurrency of a batch is the list of the indices in the order of arrival.
--
-- Fuel. `turn_loop` takes fuel; the iterations that are left and one more are enough, since a step
-- that goes on counts one turn below the bound.
--
-- Not modelled: contexts and spans, streamed responses, the settings and tools of a request, the
-- preparation of a run, the defaults of a context policy, the sessions over the journals, and the
-- other packages around the loop (providers, hosts, interfaces). JSON, `path.Match`, hashes, token
-- counters, clocks and random sources are parameters.
pub mod Prelude
pub mod Message
pub mod Faults
pub mod Tools
pub mod Transcript
pub mod Usage
pub mod Agent
pub mod Examples
pub mod History
pub mod Repair
pub mod Permission
pub mod Store
pub mod Compaction
