-- ===== src/Application/Communication/Answers.antt =====
-- What `CommunicationGateway.send` of application/communication.py lets through.
use text.Mathlib.Text.{starts_with}
use shema_business_platform.Prelude.{
  ◌≡◌, inl, inr, true, false, String, ok, str_eq_iff, is_blank, Result-cases, arith,
}
use shema_business_platform.Domain.CommercialAction.{
  CommercialAction, is_sendable, has_evidence, validate_for_external_send,
}
use shema_business_platform.Application.Communication.{
  CommunicationAdapter, CommunicationSendRequest, CommunicationSendResult, send_request,
  check_result, send,
}

request_made :
    (g : CommunicationAdapter) (a : CommercialAction) (body key : String)
    (q : CommunicationSendRequest)
    → send_request g a body key ≡ ok q
    → (is_sendable a.status ≡ true)
      × (has_evidence a.evidence_refs ≡ true)
      × (is_blank a.contact_ref ≡ false)
      × (a.channel ≡ g.channel)
      × (q ≡ record {
        action_id = a.action_id;
        channel = a.channel;
        contact_ref = a.contact_ref;
        body = body;
        idempotency_key = key;
      })
unfolding send_request validate_for_external_send
request_made g a body key q h = ground (arith, str_eq_iff a.channel g.channel)

answer_checked :
    (a : CommercialAction) (r r' : CommunicationSendResult)
    → check_result a r ≡ ok r'
    → (r' ≡ r)
      × (r'.action_id ≡ a.action_id)
      × (r'.channel ≡ a.channel)
      × (r'.accepted ≡ true)
      × (is_blank r'.external_message_id ≡ false)
      × (starts_with r'.external_message_id "pending:" ≡ false)
unfolding check_result
answer_checked a r r' h =
    ground (arith, str_eq_iff r.action_id a.action_id, str_eq_iff r.channel a.channel)

-- A send that succeeds was made for an action that is ready or reserved, with evidence and a
-- contact, on the adapter's channel; the adapter answered the request with the result that is
-- returned, which names the action and its channel, is accepted, and has an external id that is
-- neither blank nor marked as pending.
pub send_checked :
    (g : CommunicationAdapter) (a : CommercialAction) (body key : String)
    (r : CommunicationSendResult)
    → send g a body key ≡ ok r
    → (is_sendable a.status ≡ true)
      × (has_evidence a.evidence_refs ≡ true)
      × (is_blank a.contact_ref ≡ false)
      × (a.channel ≡ g.channel)
      × (g.send (record {
        action_id = a.action_id;
        channel = a.channel;
        contact_ref = a.contact_ref;
        body = body;
        idempotency_key = key;
      })
          ≡ ok r)
      × (r.action_id ≡ a.action_id)
      × (r.channel ≡ a.channel)
      × (r.accepted ≡ true)
      × (is_blank r.external_message_id ≡ false)
      × (starts_with r.external_message_id "pending:" ≡ false)
send_checked g a body key r h = elim (Result-cases (send_request g a body key)) [
  | inl (q, made) ↦ elim (Result-cases (g.send q)) [
    | inl (x, answered) ↦
        let (open_now, proof, contact, channel, request) = request_made g a body key q made in
        let (same, id, ch, taken, named, final) =
          answer_checked a x r (unfold send in ground arith) in
        (open_now, proof, contact, channel, cc, id, ch, taken, named, final)
    | inr (e, raised) ↦ absurd (unfold send in ground arith)
  ]
  | inr (e, refused) ↦ absurd (unfold send in ground arith)
]
