-- ===== src/Agent/Input/Checked.antt =====
-- `validateDriveInput` and `validateTurnDecision` of execution_loop.go, by what they admit.
use agentic.Prelude.{
  ◌≡◌, refl, ap, inl, inr, ◌⊎◌, ◌↔◌, true, false, Option, none, some, List, [], ◌∷◌, ◌++◌, ok, All,
  Bool-cases, Result-cases, is_empty, arith,
}
use agentic.Message.{
  Message, MessageRole, system, user, assistant, tool, other_role, is_user, is_tool, is_assistant,
  ToolUse,
}
use agentic.Message.Parts.{get_tool_uses}
use agentic.Transcript.{inspect_transcript}
use agentic.Agent.Input.{
  DriveInput, DriveMode, drive_start, drive_continue, drive_recover, other_mode, is_recover,
  validate_drive_input, check_mode, check_continue, may_continue, is_user_prompt, last_message,
  TurnDecision, TurnAction, turn_default, turn_stop, turn_continue, other_action,
  validate_turn_decision, all_user,
}

is_empty-eq : {A : Type 0} → (xs : List A) → is_empty xs ≡ true → xs ≡ []
is_empty-eq [] e = refl
is_empty-eq (x ∷ xs) e = cc

-- A history that ends in a message that its mode may continue from: a user's, a tool's, or, to
-- recover, an assistant's without calls.
abbrev pub EndsFor : DriveMode → List Message → Type 0
EndsFor mode history =
    (before : List Message) × (last : Message) × (history ≡ before ++ last ∷ [])
    × ((last.role ≡ user)
        ⊎ (last.role ≡ tool)
        ⊎ ((mode ≡ drive_recover) × (last.role ≡ assistant) × (get_tool_uses last ≡ [])))

-- What each mode asks of the prompt and of the end of the history.
abbrev pub Admits : DriveMode → Option Message → List Message → Type 0
Admits drive_start prompt history = (m : Message) × (prompt ≡ some m) × (m.role ≡ user)
Admits drive_continue prompt history = (prompt ≡ none) × EndsFor drive_continue history
Admits drive_recover prompt history = (prompt ≡ none) × EndsFor drive_recover history
Admits (other_mode n) prompt history = ⊥

user_of_is_user : (role : MessageRole) → is_user role ≡ true → role ≡ user
user_of_is_user user e = refl
user_of_is_user system e = cc
user_of_is_user assistant e = cc
user_of_is_user tool e = cc
user_of_is_user (other_role name) e = cc

tool_of_is_tool : (role : MessageRole) → is_tool role ≡ true → role ≡ tool
tool_of_is_tool tool e = refl
tool_of_is_tool system e = cc
tool_of_is_tool assistant e = cc
tool_of_is_tool user e = cc
tool_of_is_tool (other_role name) e = cc

assistant_of_is_assistant : (role : MessageRole) → is_assistant role ≡ true → role ≡ assistant
assistant_of_is_assistant assistant e = refl
assistant_of_is_assistant system e = cc
assistant_of_is_assistant tool e = cc
assistant_of_is_assistant user e = cc
assistant_of_is_assistant (other_role name) e = cc

recover_of_is_recover : (mode : DriveMode) → is_recover mode ≡ true → mode ≡ drive_recover
recover_of_is_recover drive_recover e = refl
recover_of_is_recover drive_start e = cc
recover_of_is_recover drive_continue e = cc
recover_of_is_recover (other_mode n) e = cc

last_message-last :
    (before : List Message) (last : Message) → last_message (before ++ last ∷ []) ≡ some last
unfolding last_message
last_message-last [] last = refl
last_message-last (m ∷ []) last = refl
last_message-last (m ∷ n ∷ before) last = last_message-last (n ∷ before) last

last_message-split :
    (history : List Message) (last : Message)
    → last_message history ≡ some last
    → (before : List Message) × (history ≡ before ++ last ∷ [])
unfolding last_message
last_message-split [] last e = cc
last_message-split (m ∷ []) last e = ([], cc)
last_message-split (m ∷ n ∷ ms) last e =
    let (before, same) = last_message-split (n ∷ ms) last e in (m ∷ before, ap (◌∷◌ m) same)

may_continue-EndsFor :
    (mode : DriveMode) (history : List Message) (last : Option Message)
    → last_message history ≡ last
    → may_continue mode last ≡ true
    → EndsFor mode history
may_continue-EndsFor mode history none e h = cc
may_continue-EndsFor mode history (some last) e h =
    let (before, same) = last_message-split history last e in
    elim (Bool-cases (is_user last.role)) [
      | inl u ↦ (before, last, same, inl (user_of_is_user last.role u))
      | inr not_user ↦ elim (Bool-cases (is_tool last.role)) [
        | inl t ↦ (before, last, same, inr (inl (tool_of_is_tool last.role t)))
        | inr not_tool ↦ (
          before,
          last,
          same,
          inr (
              inr (
                recover_of_is_recover mode (ground arith),
                assistant_of_is_assistant last.role (ground arith),
                is_empty-eq (get_tool_uses last) (ground arith),
              )),
        )
      ]
    ]

EndsFor-may_continue :
    (mode : DriveMode) (history : List Message)
    → EndsFor mode history
    → may_continue mode (last_message history) ≡ true
EndsFor-may_continue mode history (before, last, same, inl u) =
    rw (same, last_message-last before last, u) refl
EndsFor-may_continue mode history (before, last, same, inr (inl t)) =
    rw (same, last_message-last before last, t) refl
EndsFor-may_continue mode history (before, last, same, inr (inr (m, a, none_called))) =
    rw (same, last_message-last before last, m, a, none_called) refl

abbrev input_of : DriveMode → List Message → Option Message → DriveInput
input_of mode history prompt = record { mode = mode; history = history; prompt = prompt }

abbrev Passes : DriveMode → List Message → Option Message → List Message → List ToolUse → Type 0
Passes mode given prompt history frontier =
    (check_mode mode (input_of mode given prompt) history frontier ≡ none)
    ↔ ((frontier ≡ []) × Admits mode prompt history)

check_continue_iff :
    (mode : DriveMode) (given : List Message) (prompt : Option Message) (history : List Message)
    (frontier : List ToolUse)
    → (check_continue (input_of mode given prompt) history frontier ≡ none)
      ↔ ((frontier ≡ []) × ((prompt ≡ none) × (may_continue mode (last_message history) ≡ true)))
unfolding check_continue last_message
check_continue_iff mode given none [] [] = (λ h. cc, λ h. cc)
check_continue_iff mode given none (m ∷ ms) [] = (λ h. ground arith, λ h. ground arith)
check_continue_iff mode given (some p) history [] = (λ h. cc, λ h. cc)
check_continue_iff mode given prompt history (call ∷ frontier) =
    (λ h. ground arith, λ h. ground arith)

check_continue-EndsFor :
    (mode : DriveMode) (given : List Message) (prompt : Option Message) (history : List Message)
    (frontier : List ToolUse)
    → (check_continue (input_of mode given prompt) history frontier ≡ none)
      ↔ ((frontier ≡ []) × ((prompt ≡ none) × EndsFor mode history))
check_continue-EndsFor mode given prompt history frontier =
    let (there, back) = check_continue_iff mode given prompt history frontier in
    (
      λ h.
          let (closed, (bare, ends)) = there h in
          (closed, (bare, may_continue-EndsFor mode history (last_message history) refl ends)),
      λ (closed, (bare, ends)). back (closed, (bare, EndsFor-may_continue mode history ends)),
    )

is_user_prompt_iff :
    (prompt : Option Message)
    → (is_user_prompt prompt ≡ true) ↔ ((m : Message) × (prompt ≡ some m) × (m.role ≡ user))
is_user_prompt_iff none = (λ h. cc, λ (m, e, u). cc)
is_user_prompt_iff (some p) = (
  λ h. (p, refl, user_of_is_user p.role h),
  λ (m, e, u). let same : p ≡ m = ground arith in rw (same, u) refl,
)

check_mode_iff :
    (mode : DriveMode) (given : List Message) (prompt : Option Message) (history : List Message)
    (frontier : List ToolUse)
    → Passes mode given prompt history frontier
unfolding check_mode
check_mode_iff drive_start given prompt history [] =
    let (there, back) = is_user_prompt_iff prompt in
    (λ h. (refl, there (ground arith)), λ (closed, brings). rw (back brings) refl)
check_mode_iff drive_start given prompt history (call ∷ frontier) =
    (λ h. absurd (start-open prompt h), λ (closed, brings). cc)
  where
    start-open :
        (prompt : Option Message)
        → check_mode drive_start (input_of drive_start given prompt) history (call ∷ frontier)
          ≡ none
        → ⊥
    start-open prompt h = ground arith
check_mode_iff drive_continue given prompt history frontier =
    check_continue-EndsFor drive_continue given prompt history frontier
check_mode_iff drive_recover given prompt history frontier =
    check_continue-EndsFor drive_recover given prompt history frontier
check_mode_iff (other_mode n) given prompt history frontier = (λ h. cc, λ h. absurd h.1)

-- A run is accepted exactly if its history is a well-formed transcript with no open call, and its
-- mode admits the prompt and the last message: a start brings a user prompt, and the other two
-- bring none and end in a user or tool message, or, to recover, in an assistant message without
-- calls.
pub validate_drive_input_iff :
    (input : DriveInput) (history : List Message)
    → (validate_drive_input input history ≡ none)
      ↔ ((inspect_transcript history ≡ ok []) × Admits input.mode input.prompt history)
unfolding validate_drive_input
validate_drive_input_iff input history = elim (Result-cases (inspect_transcript history)) [
  | inl (frontier, e) ↦
      let (there, back) = check_mode_iff input.mode input.history input.prompt history frontier in
      rw (e, validate_drive_input)
        (λ h. (ap ok (there h).0, (there h).1), λ (same, admitted). back (ground arith, admitted))
  | inr (x, e) ↦ rw (e, validate_drive_input) (λ h. cc, λ (same, admitted). cc)
]

decided :
    (action : TurnAction) (inject : List Message)
    → let d : TurnDecision = record { action = action; inject = inject } in
      (validate_turn_decision d ≡ none) ↔ (
        ((action ≡ turn_continue) × ((is_empty inject ≡ false) × (all_user inject ≡ true)))
        ⊎ (((action ≡ turn_default) ⊎ (action ≡ turn_stop)) × (inject ≡ [])))
unfolding validate_turn_decision all_user
decided turn_default [] = (λ h. ground arith, λ h. ground arith)
decided turn_default (m ∷ ms) = (λ h. ground arith, λ h. ground arith)
decided turn_continue [] = (λ h. ground arith, λ h. ground arith)
decided turn_continue (m ∷ ms) = (λ h. ground arith, λ h. ground arith)
decided turn_stop [] = (λ h. ground arith, λ h. ground arith)
decided turn_stop (m ∷ ms) = (λ h. ground arith, λ h. ground arith)
decided (other_action n) inject = (λ h. ground arith, λ h. ground arith)

all_user_iff : (ms : List Message) → (all_user ms ≡ true) ↔ All (λ m. m.role ≡ user) ms
unfolding all_user
all_user_iff [] = (λ h. tt, λ h. refl)
all_user_iff (m ∷ ms) =
    let (there, back) = all_user_iff ms in
    (
      λ h. (user_of_is_user m.role (ground arith), there (ground arith)),
      λ (first, others). rw (first, back others) refl,
    )

-- A decision of the hook is accepted exactly if it continues with one or more messages, all of
-- them a user's, or if it is one of the other two known actions and injects nothing.
pub validate_turn_decision_iff :
    (d : TurnDecision)
    → (validate_turn_decision d ≡ none) ↔ (
        ((d.action ≡ turn_continue)
          × ((is_empty d.inject ≡ false) × All (λ m. m.role ≡ user) d.inject))
        ⊎ (((d.action ≡ turn_default) ⊎ (d.action ≡ turn_stop)) × (d.inject ≡ [])))
validate_turn_decision_iff d =
    let (there, back) = decided d.action d.inject in
    let (to_users, from_users) = all_user_iff d.inject in
    (
      λ h. elim (there h) [
        | inl (go, (some_message, users)) ↦ inl (go, (some_message, to_users users))
        | inr other ↦ inr other
      ],
      λ h. elim h [
        | inl (go, (some_message, users)) ↦ back (inl (go, (some_message, from_users users)))
        | inr other ↦ back (inr other)
      ],
    )
