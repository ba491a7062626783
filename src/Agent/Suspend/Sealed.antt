-- ===== src/Agent/Suspend/Sealed.antt =====
-- `newToolSuspension` and `decodeToolSuspension` of suspension.go, one after the other.
use agentic.Prelude.{
  ◌≡◌, refl, ap, ◌∙◌, String, Bool, false, ◌==◌, List, [], ◌∷◌, map, ok, >>=-eq-ok, is_empty,
}
use agentic.Message.{ToolUse}
use agentic.Tools.{ToolDeferral}
use agentic.Transcript.{inspect_transcript}
use agentic.Agent.{LoopState, Suspension}
use agentic.Agent.Suspend.{
  Payload, Sealing, payload_for, new_tool_suspension, check_payload, decode_tool_suspension,
  transcript_of,
}

ids-is_empty : (calls : List ToolUse) → is_empty (map (λ call. call.id) calls) ≡ is_empty calls
ids-is_empty [] = refl
ids-is_empty (call ∷ calls) = refl

check_payload-payload_for :
    (ls : LoopState) (id : String) (calls executable : List ToolUse) (deferral : ToolDeferral)
    (handler : Bool)
    → (id == "") ≡ false
    → is_empty calls ≡ false
    → is_empty executable ≡ false
    → check_payload (payload_for ls id calls executable deferral handler)
      ≡ ok (payload_for ls id calls executable deferral handler)
unfolding check_payload payload_for
check_payload-payload_for ls id calls executable deferral handler named some_calls some_ids =
    rw (named, some_calls, ids-is_empty executable, some_ids) refl

decode_tool_suspension-check_payload :
    (seal : Sealing) (suspension : Suspension) (p : Payload)
    → seal.decode suspension.payload ≡ ok p
    → decode_tool_suspension seal suspension ≡ check_payload p
unfolding decode_tool_suspension
decode_tool_suspension-check_payload seal suspension p e = rw (e, decode_tool_suspension) refl

-- If JSON decodes what it encoded of the payload, the new ID is not empty, and there are calls and
-- executable calls, then a suspension that is made decodes to the payload of the state it was made
-- in, and carries its ID and the kind of the deferral.
pub decode_tool_suspension-new_tool_suspension :
    (seal : Sealing) (ls : LoopState) (calls executable : List ToolUse) (deferral : ToolDeferral)
    (handler : Bool) {suspension : Suspension}
    → ((s : String)
        → seal.encode (payload_for ls (seal.new_suspension_id ls) calls executable deferral handler)
          ≡ ok s
        → seal.decode s
          ≡ ok (payload_for ls (seal.new_suspension_id ls) calls executable deferral handler))
    → (seal.new_suspension_id ls == "") ≡ false
    → is_empty calls ≡ false
    → is_empty executable ≡ false
    → new_tool_suspension seal ls calls executable deferral handler ≡ ok suspension
    → (decode_tool_suspension seal suspension
        ≡ ok (payload_for ls (seal.new_suspension_id ls) calls executable deferral handler))
      × (suspension.id ≡ seal.new_suspension_id ls)
      × (suspension.kind ≡ deferral.kind)
unfolding new_tool_suspension
decode_tool_suspension-new_tool_suspension seal ls calls executable deferral handler {suspension}
      json named some_calls some_ids h =
    let id = seal.new_suspension_id ls in
    let (encoded, e, h') =
      >>=-eq-ok (seal.encode (payload_for ls id calls executable deferral handler)) _ h in
    let (frontier, f, made) = >>=-eq-ok (transcript_of (inspect_transcript ls.messages)) _ h' in
    let body : suspension.payload ≡ encoded = cc in
    (
      decode_tool_suspension-check_payload seal suspension _ (ap seal.decode body ∙ json encoded e)
          ∙ check_payload-payload_for ls id calls executable deferral handler named some_calls
              some_ids,
      cc,
      cc,
    )
