-- ===== src/Agent/Resume/Suspended.antt =====
-- A suspension that `newToolSuspension` of suspension.go made, resumed by another run: the checks
-- and the restored state of `resumePreparedWithEvaluator` of execution_loop.go.
use agentic.Prelude.{
  ◌≡◌, refl, String, Bool, true, false, ◌==◌, eq_refl, List, [], ◌∷◌, map, ok, All, >>=-eq-ok,
  is_empty, arith,
}
use agentic.Message.{ToolUse}
use agentic.Tools.{ToolDeferral}
use agentic.Transcript.{inspect_transcript}
use agentic.Agent.{LoopState, Suspension, EndStrategy, exhaustive, early}
use agentic.Agent.Suspend.{
  Payload, Sealing, payload_for, new_tool_suspension, decode_tool_suspension, transcript_of,
}
use agentic.Agent.Suspend.Sealed.{decode_tool_suspension-new_tool_suspension}
use agentic.Agent.Resume.{Resuming, same_tool_calls}
use agentic.Agent.Resume.Restart.{check_restored, check_suspension, restore, same_strategy}

-- Every call has an encoding.
abbrev pub Encodes : Resuming → List ToolUse → Type 0
Encodes r calls = All (λ call. (s : String) × (r.marshal call ≡ ok s)) calls

same_tool_calls_refl :
    (r : Resuming) (calls : List ToolUse) → Encodes r calls → same_tool_calls r calls calls ≡ true
unfolding same_tool_calls
same_tool_calls_refl r [] e = refl
same_tool_calls_refl r (call ∷ calls) ((s, e), others) =
    rw (e, eq_refl s, same_tool_calls_refl r calls others) refl

same_strategy_refl : (s : EndStrategy) → same_strategy s s ≡ true
same_strategy_refl exhaustive = refl
same_strategy_refl early = refl

-- The payload of a state passes the checks of a run of the same configuration.
check_restored-payload_for :
    (r : Resuming) (ls ls2 : LoopState) (suspension : Suspension) (id : String)
    (calls executable : List ToolUse) (deferral : ToolDeferral) (handler : Bool)
    → Encodes r calls
    → suspension.id ≡ id
    → suspension.kind ≡ deferral.kind
    → ls2.config_fingerprint ≡ ls.config_fingerprint
    → ls2.end_strategy ≡ ls.end_strategy
    → check_restored r ls2 suspension calls (payload_for ls id calls executable deferral handler)
      ≡ ok (payload_for ls id calls executable deferral handler)
unfolding check_restored payload_for
check_restored-payload_for r ls ls2 suspension id calls executable deferral handler encodes same_id
      same_kind print strategy =
    rw
      (
        same_id,
        same_kind,
        print,
        strategy,
        eq_refl id,
        eq_refl deferral.kind,
        eq_refl ls.config_fingerprint,
        same_strategy_refl ls.end_strategy,
        same_tool_calls_refl r calls encodes,
      )
      refl

-- The hash and the kind that a suspension carries.
new_tool_suspension-hash :
    (seal : Sealing) (ls : LoopState) (calls executable : List ToolUse) (deferral : ToolDeferral)
    (handler : Bool) {frontier : List ToolUse} {suspension : Suspension}
    → inspect_transcript ls.messages ≡ ok frontier
    → new_tool_suspension seal ls calls executable deferral handler ≡ ok suspension
    → suspension.frontier_hash ≡ seal.frontier_hash ls.messages frontier
unfolding new_tool_suspension
new_tool_suspension-hash seal ls calls executable deferral handler {frontier} {suspension} scan h =
    let id = seal.new_suspension_id ls in
    let (encoded, e, h') =
      >>=-eq-ok (seal.encode (payload_for ls id calls executable deferral handler)) _ h in
    let (found, f, made) = >>=-eq-ok (transcript_of (inspect_transcript ls.messages)) _ h' in
    let same : found ≡ frontier = cc (f, scan) in ground arith

-- A suspension made in a state whose transcript has its calls open, resumed in a run with the same
-- transcript, configuration and strategy: it passes the checks, and restores the counters, the
-- usage and the retries of the state it was made in, with the calls, the IDs of those to execute,
-- the deferral and whether a handler suspended. JSON decodes what it encoded of the payload and
-- encodes each call, and neither the new ID nor the hash is empty, nor are the calls and those to
-- execute.
pub check_suspension-new_tool_suspension :
    (r : Resuming) (seal : Sealing) (ls ls2 : LoopState) (calls executable : List ToolUse)
    (deferral : ToolDeferral) (handler : Bool) {suspension : Suspension}
    → ((s : String)
        → seal.encode (payload_for ls (seal.new_suspension_id ls) calls executable deferral handler)
          ≡ ok s
        → seal.decode s
          ≡ ok (payload_for ls (seal.new_suspension_id ls) calls executable deferral handler))
    → Encodes r calls
    → (seal.new_suspension_id ls == "") ≡ false
    → (seal.frontier_hash ls.messages calls == "") ≡ false
    → is_empty calls ≡ false
    → is_empty executable ≡ false
    → inspect_transcript ls.messages ≡ ok calls
    → ls2.messages ≡ ls.messages
    → ls2.config_fingerprint ≡ ls.config_fingerprint
    → ls2.end_strategy ≡ ls.end_strategy
    → new_tool_suspension seal ls calls executable deferral handler ≡ ok suspension
    → (payload : Payload) × (check_suspension r seal ls2 suspension calls ≡ ok payload)
      × (payload.calls ≡ calls)
      × (payload.executable_call_ids ≡ map (λ call. call.id) executable)
      × (payload.deferral ≡ deferral)
      × (payload.handler_suspension ≡ handler)
      × (restore ls2 payload ≡ record ls2 {
        total_usage = ls.total_usage;
        retry_counts = ls.retry_counts;
        total_retries = ls.total_retries;
        validation_retries = ls.validation_retries;
        iteration = ls.iteration;
        last_finish_reason = ls.last_finish_reason;
      })
unfolding check_suspension payload_for restore decode_tool_suspension
check_suspension-new_tool_suspension r seal ls ls2 calls executable deferral handler {suspension}
      json encodes named hashed some_calls some_ids scan messages print strategy h =
    let id = seal.new_suspension_id ls in
    let payload = payload_for ls id calls executable deferral handler in
    let (decoded, same_id, same_kind) =
      decode_tool_suspension-new_tool_suspension seal ls calls executable deferral handler json
        named some_calls some_ids h in
    let hash = new_tool_suspension-hash seal ls calls executable deferral handler scan h in
    let passes =
      check_restored-payload_for r ls ls2 suspension id calls executable deferral handler encodes
        same_id same_kind print strategy in
    (
      payload,
      rw
          (
            some_calls,
            same_id,
            named,
            hash,
            messages,
            hashed,
            eq_refl (seal.frontier_hash ls.messages calls),
            decoded,
          )
          passes,
      refl,
      refl,
      refl,
      refl,
      refl,
    )
