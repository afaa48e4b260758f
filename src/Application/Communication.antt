-- ===== src/Application/Communication.antt =====
-- application/communication.py: the boundary of external sends. The adapter is a parameter: what it
-- answers to a request, or the exception that it raises.
pub mod Answers
use text.Mathlib.Text.{starts_with}
use shema_business_platform.Prelude.{
  Bool, not, String, Error, value_error, quarantine_required, Result, ok, err, ◌>>=◌, ◌>>◌,
  raise_if, str_eq, is_blank,
}
use shema_business_platform.Domain.CommercialAction.{CommercialAction, validate_for_external_send}

pub record CommunicationSendRequest : Type 0 where
  pub action_id : String
  pub channel : String
  pub contact_ref : String
  pub body : String
  pub idempotency_key : String

pub record CommunicationSendResult : Type 0 where
  pub action_id : String
  pub channel : String
  pub external_message_id : String
  pub accepted : Bool

pub record CommunicationAdapter : Type 0 where
  pub channel : String
  pub send : CommunicationSendRequest → Result CommunicationSendResult

-- The request of `CommunicationGateway.send`, after its checks.
unfoldable pub send_request :
    CommunicationAdapter → CommercialAction → String → String → Result CommunicationSendRequest
unfolding validate_for_external_send
send_request g a body key = do
  raise_if (is_blank a.action_id) (value_error "action_id is required")
  raise_if (is_blank body) (value_error "body is required")
  raise_if (is_blank key) (value_error "idempotency_key is required")
  validate_for_external_send a
  raise_if (not (str_eq a.channel g.channel)) (value_error "request channel does not match adapter")
  ok (record {
    action_id = a.action_id;
    channel = a.channel;
    contact_ref = a.contact_ref;
    body = body;
    idempotency_key = key;
  })

-- The checks on the adapter's answer.
unfoldable pub check_result :
    CommercialAction → CommunicationSendResult → Result CommunicationSendResult
check_result a r = do
  raise_if (not (str_eq r.action_id a.action_id))
      (value_error "adapter returned mismatched action_id")
  raise_if (not (str_eq r.channel a.channel)) (value_error "adapter returned mismatched channel")
  raise_if (not r.accepted) (quarantine_required "external communication was not accepted")
  raise_if (is_blank r.external_message_id)
      (quarantine_required "external communication returned no external identifier")
  raise_if (starts_with r.external_message_id "pending:")
      (quarantine_required "external identifier uses reserved pending prefix")
  ok r

-- `CommunicationGateway.send`
unfoldable pub send :
    CommunicationAdapter → CommercialAction → String → String → Result CommunicationSendResult
unfolding send_request check_result
send g a body key = do
  request ← send_request g a body key
  result ← g.send request
  check_result a result
