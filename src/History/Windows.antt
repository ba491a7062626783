-- ===== src/History/Windows.antt =====
-- The processors of history_processor.go, by what they keep of a history.
use agentic.Prelude.{
  ℕ, ◌+◌, ◌-◌, ◌≤◌, ◌<◌, ◌≡◌, ◌≢◌, refl, sym, subst, ap, ◌∙◌, inl, inr, ◌⊎◌, Bool, true, false,
  List, [], ◌∷◌, ◌++◌, leb, ltb, length, drop, length-append, length-drop, Bool-cases, arith,
}
use agentic.Message.{Message, MessageRole, system, user, assistant, tool, other_role, is_system}
use agentic.History.{split_system, truncate_history, walk_back, prefix_cost, sliding_window_history}

leb→eq : (n : ℕ) → leb n 0 ≡ true → n ≡ 0
leb→eq n e = ground arith

drop_none : (xs : List Message) (n : ℕ) → n ≡ 0 → drop n xs ≡ xs
drop_none xs n e = rw e refl

split_system-append :
    (messages : List Message) → (split_system messages).0 ++ (split_system messages).1 ≡ messages
split_system-append [] = refl
split_system-append (m ∷ ms) = elim (Bool-cases (is_system m.role)) [
  | inl e ↦ rw e refl
  | inr e ↦ rw e refl
]

split_system-length :
    (messages : List Message)
    → (length (split_system messages).1 ≤ length messages) × (length (split_system messages).0 ≤ 1)
split_system-length [] = (omega arith, omega arith)
split_system-length (m ∷ ms) = elim (Bool-cases (is_system m.role)) [
  | inl e ↦ rw e (omega arith, omega arith)
  | inr e ↦ rw e (omega arith, omega arith)
]

whole_length :
    (messages : List Message)
    → length messages ≡ length (split_system messages).0 + length (split_system messages).1
whole_length messages =
    ap length (sym (split_system-append messages)) ∙ length-append (split_system messages).0 _

all_of_it :
    (max_messages : ℕ) (messages : List Message)
    → length (split_system messages).1 ≤ max_messages
    → messages
      ≡ (split_system messages).0
        ++ drop (length (split_system messages).1 - max_messages) (split_system messages).1
all_of_it max_messages messages l =
    let (prefix, rest) = split_system messages in
    sym (split_system-append messages)
    ∙ ap (λ ms. (split_system messages).0 ++ ms) (sym (drop_none rest _ (omega arith)))

-- The first message is no system prompt.
abbrev pub BeginsOther : List Message → Type 0
BeginsOther [] = Unit {0}
BeginsOther (m ∷ ms) = m.role ≢ system

-- The system prompt, if the first message is one, and the messages behind it.
abbrev pub Prompted : List Message → List Message → List Message → Type 0
Prompted messages prefix rest =
    ((m : Message) × (m.role ≡ system) × (prefix ≡ m ∷ []) × (messages ≡ m ∷ rest))
    ⊎ ((prefix ≡ []) × (messages ≡ rest) × BeginsOther messages)

system_of_is_system : (role : MessageRole) → is_system role ≡ true → role ≡ system
system_of_is_system system e = refl
system_of_is_system user e = cc
system_of_is_system assistant e = cc
system_of_is_system tool e = cc
system_of_is_system (other_role name) e = cc

split_system-Prompted :
    (messages : List Message)
    → Prompted messages (split_system messages).0 (split_system messages).1
split_system-Prompted [] = inr (refl, refl, tt)
split_system-Prompted (m ∷ ms) = elim (Bool-cases (is_system m.role)) [
  | inl e ↦ rw e (inl (m, system_of_is_system m.role e, refl, refl))
  | inr e ↦ rw e (inr (refl, refl, λ same. cc))
]

truncate_history-split :
    (max_messages : ℕ) (messages : List Message)
    → let (prefix, rest) = split_system messages in
      (truncate_history max_messages messages ≡ prefix ++ drop (length rest - max_messages) rest)
      × (length (truncate_history max_messages messages) ≤ max_messages + 1)
unfolding truncate_history
truncate_history-split max_messages messages =
    let (prefix, rest) = split_system messages in
    let whole = whole_length messages in
    let (shorter, one) = split_system-length messages in
    elim (Bool-cases (leb (length messages) max_messages)) [
      | inl e ↦
          let l : length messages ≤ max_messages = ground arith in
          rw (e, truncate_history) (all_of_it max_messages messages (omega arith), omega arith)
      | inr e ↦ elim (Bool-cases (leb (length rest) max_messages)) [
        | inl f ↦
            let l : length (split_system messages).1 ≤ max_messages = ground arith in
            rw (e, f, truncate_history) (all_of_it max_messages messages l, omega arith)
        | inr f ↦
            rw (e, f, truncate_history)
              (
                refl,
                omega (
                  arith,
                  length-append prefix (drop (length rest - max_messages) rest),
                  length-drop (length rest - max_messages) rest,
                ),
              )
      ]
    ]

-- In every case the truncated history is the system prompt, if the first message is one, with the
-- last `max_messages` of the messages behind it, and it has at most one message more than that.
pub truncate_history-drop :
    (max_messages : ℕ) (messages : List Message)
    → (prefix : List Message) × (rest : List Message) × Prompted messages prefix rest
      × (truncate_history max_messages messages ≡ prefix ++ drop (length rest - max_messages) rest)
      × (length (truncate_history max_messages messages) ≤ max_messages + 1)
truncate_history-drop max_messages messages =
    let (shown, short) = truncate_history-split max_messages messages in
    (
      (split_system messages).0,
      (split_system messages).1,
      split_system-Prompted messages,
      shown,
      short,
    )

-- The sum of the tokens of a window.
abbrev pub cost : (Message → ℕ) → List Message → ℕ
cost counter [] = 0
cost counter (m ∷ ms) = counter m + cost counter ms

-- What a walk back leaves: the window ends the messages, its cost and the budget left make up the
-- budget, and either nothing was dropped or the last message that was dropped did not fit.
abbrev pub Fits : (Message → ℕ) → ℕ → List Message → List Message × ℕ × Bool → Type 0
Fits counter budget ms (window, left, full) =
    (dropped : List Message) × (ms ≡ dropped ++ window)
    × (cost counter window + left ≡ budget)
    × (((full ≡ false) × (dropped ≡ []))
        ⊎ ((full ≡ true)
            × ((first : List Message) × (last : Message) × (dropped ≡ first ++ last ∷ [])
                × (left < counter last))))

walk_back-Fits :
    (counter : Message → ℕ) (budget : ℕ) (ms : List Message)
    → Fits counter budget ms (walk_back counter budget ms)
unfolding walk_back
walk_back-Fits counter budget [] = ([], refl, omega arith, inl (refl, refl))
walk_back-Fits counter budget (m ∷ ms) =
    let left = (walk_back counter budget ms).1 in
    let (dropped, e, sum, either) = walk_back-Fits counter budget ms in
    elim either [
      | inr (full, (first, last, shape, over)) ↦
          rw (full, walk_back)
            (m ∷ dropped, ap (◌∷◌ m) e, sum, inr (refl, (m ∷ first, last, ap (◌∷◌ m) shape, over)))
      | inl (full, none_dropped) ↦ elim (Bool-cases (ltb left (counter m))) [
        | inl f ↦
            let over : left < counter m = ground arith in
            rw (full, f, walk_back)
              (
                m ∷ [],
                ap (◌∷◌ m) (e ∙ ap (λ xs. xs ++ (walk_back counter budget ms).0) none_dropped),
                sum,
                inr (refl, ([], m, refl, over)),
              )
        | inr f ↦
            let fits : counter m ≤ left = ground arith in
            rw (full, f, walk_back)
              (
                [],
                ap (◌∷◌ m) (e ∙ ap (λ xs. xs ++ (walk_back counter budget ms).0) none_dropped),
                omega arith,
                inl (refl, refl),
              )
      ]
    ]

prefix_cost-cost :
    (counter : Message → ℕ) (messages : List Message)
    → prefix_cost counter (split_system messages).0 ≡ cost counter (split_system messages).0
prefix_cost-cost counter [] = refl
prefix_cost-cost counter (m ∷ ms) = elim (Bool-cases (is_system m.role)) [
  | inl e ↦ rw e (omega arith)
  | inr e ↦ rw e refl
]

-- What is shown, of the budget that the prompt leaves: the prompt alone if nothing is left, and
-- else the prompt with a window that fits.
abbrev pub Shows : (Message → ℕ) → List Message → List Message → ℕ → List Message → Type 0
Shows counter prefix rest budget shown =
    ((budget ≡ 0) × (shown ≡ prefix))
    ⊎ ((0 < budget)
        × ((window : List Message) × (left : ℕ) × (full : Bool) × (shown ≡ prefix ++ window)
            × Fits counter budget rest (window, left, full)))

sliding_window_history-split :
    (counter : Message → ℕ) (max_tokens : ℕ) (messages : List Message)
    → let (prefix, rest) = split_system messages in
      Shows counter prefix rest
        (max_tokens - prefix_cost counter prefix)
        (sliding_window_history counter max_tokens messages)
unfolding sliding_window_history
sliding_window_history-split counter max_tokens messages =
    let (prefix, rest) = split_system messages in
    let budget = max_tokens - prefix_cost counter prefix in
    elim (Bool-cases (leb budget 0)) [
      | inl e ↦ inl (leb→eq budget e, rw (e, sliding_window_history) refl)
      | inr e ↦ inr (
        ground arith,
        (
          (walk_back counter budget rest).0,
          (walk_back counter budget rest).1,
          (walk_back counter budget rest).2,
          rw (e, sliding_window_history) refl,
          walk_back-Fits counter budget rest,
        ),
      )
    ]

-- The prompt is the first message if that is a system message. If it leaves no budget, it is shown
-- alone; else it is shown with the longest end of the messages behind it that fits that budget: its
-- cost and what is left make up the budget, and either nothing was dropped or the last message that
-- was dropped did not fit.
pub sliding_window_history-Fits :
    (counter : Message → ℕ) (max_tokens : ℕ) (messages : List Message)
    → (prefix : List Message) × (rest : List Message) × Prompted messages prefix rest
      × Shows counter prefix rest
          (max_tokens - cost counter prefix)
          (sliding_window_history counter max_tokens messages)
sliding_window_history-Fits counter max_tokens messages = (
  (split_system messages).0,
  (split_system messages).1,
  split_system-Prompted messages,
  subst
      (λ spent.
        Shows counter (split_system messages).0 (split_system messages).1 (max_tokens - spent)
          (sliding_window_history counter max_tokens messages))
      (prefix_cost-cost counter messages)
      (sliding_window_history-split counter max_tokens messages),
)
