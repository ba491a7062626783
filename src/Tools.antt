-- ===== src/Tools.antt =====
-- The vocabulary of tool execution: `ToolExecutionResult` (internal/core/handler.go), the gate and
-- suspension types of tool_control.go, and `makeToolResultError` of driver.go.
pub mod Gate
pub mod Scheduler
use agentic.Prelude.{String, Option, none, some, Bool, true, false, List, ◌≡◌, Result, ok, err}
use Prim.Native.String.{◌++◌ as append}
use agentic.Message.{ToolUse, Json}
use agentic.Faults.{Fault, failure}

pub record ToolDeferral : Type 0 where
  pub kind : String
  pub payload : String

-- `ToolHandlerSuspension`.
pub record ToolHandlerSuspension : Type 0 where
  pub deferral : ToolDeferral

-- The `interface{}` of a result's content: nil, a string, a suspension by value or by pointer, or
-- any other Go value, here a JSON-shaped one.
pub data Content : Type 0 where
  empty : Content
  text : String → Content
  suspends : ToolHandlerSuspension → Content
  suspends_at : Option ToolHandlerSuspension → Content
  value : Json → Content

-- What the standard library renders: `err.Error()`, and `json.Marshal` of a tool's result.
pub record Rendering : Type 0 where
  pub describe : Fault → String
  pub marshal : Content → Result Fault String

pub record ToolExecutionResult : Type 0 where
  pub tool_use_id : String
  pub tool_name : String
  pub content : Content
  pub is_error : Bool
  pub error : Option Fault

pub data ToolDispositionKind : Type 0 where
  invalid execute return suspend : ToolDispositionKind

pub record ToolDisposition : Type 0 where
  pub kind : ToolDispositionKind
  pub result : Option ToolExecutionResult
  pub continue : Bool

pub record ToolBatchDecision : Type 0 where
  pub calls : List ToolDisposition
  pub deferral : Option ToolDeferral

-- `makeToolResultError`: a nil cause becomes an error with the message.
abbrev cause_or : Option Fault → String → Fault
cause_or none note = failure note
cause_or (some fault) note = fault

unfoldable pub make_tool_result_error : ToolUse → String → Option Fault → ToolExecutionResult
make_tool_result_error call message_text cause = record {
  tool_use_id = call.id;
  tool_name = call.name;
  content = text message_text;
  is_error = true;
  error = some (cause_or cause message_text);
}

-- `FormatToolResult`.
unfoldable pub format_tool_result : Rendering → Content → String
format_tool_result render empty = ""
format_tool_result render (text s) = s
format_tool_result render other = elim (render.marshal other) [
  | ok encoded ↦ encoded
  | err e ↦ append "Error formatting result: " (render.describe e)
]

-- A result answers a call: it carries the call's ID and name.
abbrev pub Answers : ToolUse → ToolExecutionResult → Type 0
Answers call result = (result.tool_use_id ≡ call.id) × (result.tool_name ≡ call.name)
