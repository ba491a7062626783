-- ===== src/Agent/Input.antt =====
-- The checks at the edges of the loop, execution_loop.go: `validateDriveInput` before the first
-- turn, and `validateTurnDecision` after each.
pub mod Checked
use agentic.Prelude.{
  ℕ, String, Bool, true, false, not, ◌&&◌, ◌||◌, Option, none, some, List, [], ◌∷◌, Result, ok, err,
  is_empty, is_some, if◌then◌else◌,
}
use agentic.Message.{Message, MessageRole, is_user, is_tool, is_assistant, ToolUse}
use agentic.Message.Parts.{get_tool_uses}
use agentic.Faults.{
  Fault, drive_fault, turn_fault, transcript_fault, start_requires_prompt, start_open_frontier,
  continue_forbids_prompt, continue_requires_history, continue_open_frontier, continue_wrong_end,
  unknown_mode, unknown_action, inject_without_continue, continue_without_message, inject_not_user,
}
use agentic.Transcript.{inspect_transcript}

-- `DriveMode`, an integer with three constants.
pub data DriveMode : Type 0 where
  drive_start drive_continue drive_recover : DriveMode
  other_mode : ℕ → DriveMode

pub record DriveInput : Type 0 where
  pub mode : DriveMode
  pub history : List Message
  pub prompt : Option Message

abbrev is_user_prompt : Option Message → Bool
is_user_prompt none = false
is_user_prompt (some m) = is_user m.role

-- The last message of a history that is not empty.
unfoldable pub last_message : List Message → Option Message
last_message [] = none
last_message (m ∷ []) = some m
last_message (m ∷ n ∷ ms) = last_message (n ∷ ms)

abbrev is_recover : DriveMode → Bool
is_recover drive_recover = true
is_recover _ = false

-- The role test on the last message of a continued history.
abbrev may_continue : DriveMode → Option Message → Bool
may_continue mode none = false
may_continue mode (some last) =
    is_user last.role
    || (is_tool last.role
        || (is_recover mode && (is_assistant last.role && is_empty (get_tool_uses last))))

unfoldable pub check_continue : DriveInput → List Message → List ToolUse → Option Fault
check_continue input history frontier =
    if is_some input.prompt
    then some (drive_fault continue_forbids_prompt)
    else if is_empty history
    then some (drive_fault continue_requires_history)
    else if not (is_empty frontier)
    then some (drive_fault continue_open_frontier)
    else if not (may_continue input.mode (last_message history))
    then some (drive_fault continue_wrong_end)
    else none

unfoldable pub check_mode : DriveMode → DriveInput → List Message → List ToolUse → Option Fault
check_mode drive_start input history frontier =
    if not (is_user_prompt input.prompt)
    then some (drive_fault start_requires_prompt)
    else if not (is_empty frontier)
    then some (drive_fault start_open_frontier)
    else none
check_mode drive_continue input history frontier = check_continue input history frontier
check_mode drive_recover input history frontier = check_continue input history frontier
check_mode (other_mode n) input history frontier = some (drive_fault (unknown_mode n))

unfoldable pub validate_drive_input : DriveInput → List Message → Option Fault
validate_drive_input input history = elim (inspect_transcript history) [
  | err e ↦ some (transcript_fault e)
  | ok frontier ↦ check_mode input.mode input history frontier
]

-- `TurnAction`, an integer with three constants.
pub data TurnAction : Type 0 where
  turn_default turn_continue turn_stop : TurnAction
  other_action : ℕ → TurnAction

pub record TurnDecision : Type 0 where
  pub action : TurnAction
  pub inject : List Message

abbrev is_continue : TurnAction → Bool
is_continue turn_continue = true
is_continue _ = false

abbrev is_known : TurnAction → Bool
is_known (other_action n) = false
is_known _ = true

unfoldable pub all_user : List Message → Bool
all_user [] = true
all_user (m ∷ ms) = is_user m.role && all_user ms

unfoldable pub validate_turn_decision : TurnDecision → Option Fault
validate_turn_decision d =
    if not (is_known d.action)
    then some (turn_fault unknown_action)
    else if not (is_continue d.action) && not (is_empty d.inject)
    then some (turn_fault inject_without_continue)
    else if is_continue d.action && is_empty d.inject
    then some (turn_fault continue_without_message)
    else if not (all_user d.inject)
    then some (turn_fault inject_not_user)
    else none
