-- ===== src/History.antt =====
-- history_processor.go: what a request shows of the messages. A processor is a function of the
-- messages; counts of messages and tokens are not negative.
pub mod Windows
use Prim.Native.String.{◌++◌ as append}
use agentic.Prelude.{
  ℕ, ◌-◌, String, Bool, true, false, List, [], ◌∷◌, ◌++◌, Result, ok, err, ◌>>=◌, ◌==◌, leb, ltb,
  length, take, drop, if◌then◌else◌,
}
use agentic.Message.{Message, MessageRole, system, user, assistant, tool, other_role, is_system}
use agentic.Message.Build.{new_text_message}
use agentic.Message.Parts.{get_text_content}
use agentic.Faults.{Fault, wrapped, provider_error}
use agentic.Agent.Drive.{ChatResponse}

-- The system prompt, if it is the first message, and the messages behind it.
abbrev pub split_system : List Message → List Message × List Message
split_system [] = ([], [])
split_system (m ∷ ms) = if is_system m.role then (m ∷ [], ms) else ([], m ∷ ms)

unfoldable pub truncate_history : ℕ → List Message → List Message
truncate_history max_messages messages =
    let (prefix, rest) = split_system messages in
    if leb (length messages) max_messages
    then messages
    else if leb (length rest) max_messages
    then messages
    else prefix ++ drop (length rest - max_messages) rest

-- The walk back from the last message: the window, the budget that is left, and whether a message
-- did not fit.
unfoldable pub walk_back : (Message → ℕ) → ℕ → List Message → List Message × ℕ × Bool
walk_back counter budget [] = ([], budget, false)
walk_back counter budget (m ∷ ms) =
    let (window, left, full) = walk_back counter budget ms in
    if full
    then (window, left, true)
    else if ltb left (counter m)
    then (window, left, true)
    else (m ∷ window, left - counter m, false)

abbrev window_of : (Message → ℕ) → ℕ → List Message → List Message → List Message
window_of counter budget prefix rest =
    if leb budget 0 then prefix else prefix ++ (walk_back counter budget rest).0

-- What the system prompt costs.
abbrev pub prefix_cost : (Message → ℕ) → List Message → ℕ
prefix_cost counter [] = 0
prefix_cost counter (m ∷ ms) = counter m

unfoldable pub sliding_window_history : (Message → ℕ) → ℕ → List Message → List Message
sliding_window_history counter max_tokens messages =
    let (prefix, rest) = split_system messages in
    window_of counter (max_tokens - prefix_cost counter prefix) prefix rest

abbrev role_name : MessageRole → String
role_name system = "system"
role_name user = "user"
role_name assistant = "assistant"
role_name tool = "tool"
role_name (other_role name) = name

unfoldable pub transcript_text : List Message → String
transcript_text [] = ""
transcript_text (m ∷ ms) =
    append
      (append "[" (append (role_name m.role) (append "]: " (append (get_text_content m) "\n"))))
      (transcript_text ms)

abbrev pub summary_message : String → Message
summary_message summary = new_text_message user (append "[Conversation summary]: " summary)

-- The summary that a response brings; an empty one is refused.
abbrev summary_of : Result Fault ChatResponse → Result Fault String
summary_of (err e) = err (wrapped "summarize history" e)
summary_of (ok response) =
    let summary = get_text_content response.message in
    if summary == ""
    then err (wrapped "summarize history" (provider_error "summary response contained no text"))
    else ok summary

abbrev instruction : String
instruction =
    "Summarize the following conversation concisely, preserving key facts and decisions:\n\n"

unfoldable pub summarize_history :
    (List Message → Result Fault ChatResponse) → ℕ → List Message → Result Fault (List Message)
summarize_history request max_messages messages =
    let (prefix, rest) = split_system messages in
    let cutoff = length rest - max_messages in
    let answer =
      request
        (new_text_message user (append instruction (transcript_text (take cutoff rest))) ∷ []) in
    if leb (length messages) max_messages
    then ok messages
    else if leb (length rest) max_messages
    then ok messages
    else (summary_of answer >>= λ summary.
        ok (prefix ++ summary_message summary ∷ drop cutoff rest))

unfoldable pub chain_processors :
    List (List Message → Result Fault (List Message)) → List Message → Result Fault (List Message)
chain_processors [] messages = ok messages
chain_processors (p ∷ ps) messages = p messages >>= λ next. chain_processors ps next
