-- ===== src/Agent/Suspend.antt =====
-- suspension.go: the durable description of a frontier that is left open. JSON, SHA-256 and the
-- random source are the fields of `Sealing`.
pub mod Sealed
use agentic.Prelude.{
  ℕ, String, Bool, not, ◌||◌, ◌==◌, List, map, Result, ok, err, ◌>>=◌, is_empty, nat_eq,
  if◌then◌else◌,
}
use agentic.Message.{Message, ToolUse}
use agentic.Faults.{Fault, transcript_fault, TranscriptError}
use agentic.Usage.{Usage}
use agentic.Tools.{ToolDeferral}
use agentic.Transcript.{inspect_transcript}
use agentic.Agent.{LoopState, Suspension, EndStrategy, FinishReason}

abbrev pub payload_version : ℕ
payload_version = 1

-- `toolSuspensionPayload`.
pub record Payload : Type 0 where
  pub version : ℕ
  pub suspension_id : String
  pub handler_suspension : Bool
  pub calls : List ToolUse
  pub executable_call_ids : List String
  pub iteration : ℕ
  pub usage : Usage
  pub retry_counts : List (String × ℕ)
  pub total_retries : ℕ
  pub validation_retries : ℕ
  pub end_strategy : EndStrategy
  pub config_fingerprint : String
  pub last_finish_reason : FinishReason
  pub deferral : ToolDeferral

pub record Sealing : Type 0 where
  pub frontier_hash : List Message → List ToolUse → String
  pub encode : Payload → Result Fault String
  pub decode : String → Result Fault Payload
  pub new_suspension_id : LoopState → String

-- The payload that `newToolSuspension` makes.
unfoldable pub payload_for :
    LoopState → String → List ToolUse → List ToolUse → ToolDeferral → Bool → Payload
payload_for ls id calls executable deferral handler = record {
  version = payload_version;
  suspension_id = id;
  handler_suspension = handler;
  calls = calls;
  executable_call_ids = map (λ call. call.id) executable;
  iteration = ls.iteration;
  usage = ls.total_usage;
  retry_counts = ls.retry_counts;
  total_retries = ls.total_retries;
  validation_retries = ls.validation_retries;
  end_strategy = ls.end_strategy;
  config_fingerprint = ls.config_fingerprint;
  last_finish_reason = ls.last_finish_reason;
  deferral = deferral;
}

abbrev pub transcript_of : Result TranscriptError (List ToolUse) → Result Fault (List ToolUse)
transcript_of (ok frontier) = ok frontier
transcript_of (err e) = err (transcript_fault e)

unfoldable pub new_tool_suspension :
    Sealing
    → LoopState
    → List ToolUse
    → List ToolUse
    → ToolDeferral
    → Bool
    → Result Fault Suspension
unfolding payload_for
new_tool_suspension seal ls calls executable deferral handler = do
  let id = seal.new_suspension_id ls
  encoded ← seal.encode (payload_for ls id calls executable deferral handler)
  frontier ← transcript_of (inspect_transcript ls.messages)
  ok (record {
    id = id;
    kind = deferral.kind;
    frontier_hash = seal.frontier_hash ls.messages frontier;
    payload = encoded;
  })

-- `decodeToolSuspension`: `ErrSuspensionVersion` or `ErrSuspensionMismatch`.
pub data DecodeError : Type 0 where
  undecodable : Fault → DecodeError
  unsupported_version : ℕ → DecodeError
  missing_calls : DecodeError

unfoldable pub check_payload : Payload → Result DecodeError Payload
check_payload payload =
    if not (nat_eq payload.version payload_version)
    then err (unsupported_version payload.version)
    else if payload.suspension_id == ""
        || (is_empty payload.calls || is_empty payload.executable_call_ids)
    then err missing_calls
    else ok payload

unfoldable pub decode_tool_suspension : Sealing → Suspension → Result DecodeError Payload
unfolding check_payload
decode_tool_suspension seal suspension = elim (seal.decode suspension.payload) [
  | err e ↦ err (undecodable e)
  | ok payload ↦ check_payload payload
]
