-- ===== src/Examples/Resumes.antt =====
-- A frontier that is resumed with one decision to execute and one result: execution_loop.go.
use agentic.Prelude.{
  ◌≡◌, refl, sym, ◌∙◌, Bool, true, false, String, none, some, List, [], ◌∷◌, ◌==◌, ◌&&◌, eq_iff,
  Result, ok, err, if◌then◌else◌, arith, subst, ap, ◌⊎◌, inl, inr, Bool-cases, ◌<◌,
}
use agentic.Message.{ToolUse}
use agentic.Faults.{Fault, failure}
use agentic.Agent.Run.Returns.{Returns}
use agentic.Agent.{LoopState}
use agentic.Agent.Suspend.{
  Payload, Sealing, payload_for, new_tool_suspension, decode_tool_suspension,
}
use agentic.Agent.Resume.{ToolResumeDecision, ResumeInput, Resuming, resume_execute, resume_return}
use agentic.Agent.Resume.Restart.{resume_prepared, check_suspension, restore}
use agentic.Agent.Resume.Suspended.{check_suspension-new_tool_suspension}
use agentic.Agent.Resume.Frontier.{MarshalKeeps}
use agentic.Agent.Resume.Restored.{resume_prepared-Returns}
use agentic.Examples.{
  search_call, read_call, found, calls_both, asked, asked_passes, opened_passes, fresh, registered,
  unwatched, reading, waiting, last_text, replies, replies-IsPaired, paused, one_response,
  two_calls, approval,
}

abbrev is_call : ToolUse → ToolUse → Bool
is_call one two = one.id == two.id && one.name == two.name

-- The two calls have an encoding each, and no other call has one.
abbrev encode : ToolUse → Result Fault String
encode call =
    if is_call call search_call
    then ok "search"
    else if is_call call read_call
    then ok "read"
    else err (failure "unsupported")

abbrev resuming : Resuming
resuming = record {
  marshal = encode;
  has_tool = λ name. true;
  admits_input = λ name input. true;
  execute_with = λ contexts ls call attempt. (found call "ok", none);
}

encoded_as :
    (call : ToolUse) (encoded : String)
    → encode call ≡ ok encoded
    → ((call.id ≡ "c1") × (call.name ≡ "search") × (encoded ≡ "search"))
      ⊎ ((call.id ≡ "c2") × (call.name ≡ "read") × (encoded ≡ "read"))
encoded_as call encoded h = elim (Bool-cases (is_call call search_call)) [
  | inl e ↦
      inl (
        ground (arith, eq_iff call.id "c1"),
        ground (arith, eq_iff call.name "search"),
        ground arith,
      )
  | inr e ↦ elim (Bool-cases (is_call call read_call)) [
    | inl f ↦
        inr (
          ground (arith, eq_iff call.id "c2"),
          ground (arith, eq_iff call.name "read"),
          ground arith,
        )
    | inr f ↦ absurd (ground arith)
  ]
]

differs : (encoded : String) → encoded ≡ "search" → encoded ≡ "read" → ⊥
differs encoded p q =
    let same : ("search" == "read") ≡ ("read" == "read") = ap (λ s. s == "read") (sym p ∙ q) in cc

resuming-MarshalKeeps : MarshalKeeps resuming
resuming-MarshalKeeps one two encoded h g = elim (encoded_as one encoded h) [
  | inl (i, m, p) ↦ elim (encoded_as two encoded g) [
    | inl (j, n, q) ↦ (i ∙ sym j, m ∙ sym n)
    | inr (j, n, q) ↦ absurd (differs encoded p q)
  ]
  | inr (i, m, p) ↦ elim (encoded_as two encoded g) [
    | inl (j, n, q) ↦ absurd (differs encoded q p)
    | inr (j, n, q) ↦ (i ∙ sym j, m ∙ sym n)
  ]
]

abbrev decisions : List ToolResumeDecision
decisions =
    record { call_id = "c1"; action = resume_execute; input = none; result = none; payload = "" }
    ∷ record {
      call_id = "c2";
      action = resume_return;
      input = none;
      result = some (found read_call "given");
      payload = "";
    }
    ∷ []

abbrev resumed : ResumeInput
resumed = record { suspension = waiting; decisions = decisions; prompt = none }

decoded_paused :
    (payload : Payload)
    → decode_tool_suspension reading waiting ≡ ok payload
    → payload.iteration < 10
unfolding decode_tool_suspension
decoded_paused payload h =
    let same : paused ≡ payload = ground arith in
    subst (λ (p : Payload). p.iteration < 10) same (omega arith)

resume_prepared-Returns_example :
    Returns String unwatched registered reading replies
      (resume_prepared unwatched resuming registered reading replies last_text 11 fresh resumed)
resume_prepared-Returns_example =
    resume_prepared-Returns String unwatched resuming registered reading replies last_text 11 fresh
      resumed asked calls_both resuming-MarshalKeeps replies-IsPaired tt refl asked_passes
      opened_passes decoded_paused (omega arith)

-- A state in its fourth turn, with a retry behind it.
abbrev busy : LoopState
busy = record fresh {
  iteration = 3;
  total_usage = one_response;
  retry_counts = ("search", 1) ∷ [];
  total_retries = 1;
}

abbrev busy_payload : Payload
busy_payload = record paused {
  iteration = 3;
  usage = one_response;
  retry_counts = ("search", 1) ∷ [];
  total_retries = 1;
}

abbrev busy_reading : Sealing
busy_reading = record reading { decode = λ s. ok busy_payload }

busy_suspends :
    new_tool_suspension busy_reading busy two_calls two_calls approval false ≡ ok waiting
unfolding new_tool_suspension
busy_suspends = rw opened_passes refl

busy_reads_back :
    Path
      (Result Fault Payload)
      (ok busy_payload)
      (ok (payload_for busy "s1" two_calls two_calls approval false))
unfolding payload_for
busy_reads_back = refl

check_suspension-new_tool_suspension_example :
    (payload : Payload) × (check_suspension resuming busy_reading fresh waiting two_calls
      ≡ ok payload)
    × (payload.calls ≡ two_calls)
    × (payload.executable_call_ids ≡ "c1" ∷ "c2" ∷ [])
    × (payload.deferral ≡ approval)
    × (payload.handler_suspension ≡ false)
    × (restore fresh payload ≡ busy)
check_suspension-new_tool_suspension_example =
    check_suspension-new_tool_suspension resuming busy_reading busy fresh two_calls two_calls
      approval false (λ s e. busy_reads_back) (("search", refl), (("read", refl), tt)) refl refl
      refl refl opened_passes refl refl refl busy_suspends
