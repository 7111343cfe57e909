-- ===== src/Control/Agent.antt =====
-- shared/control/src/service.rs: the channel between the service and the agent, and its validators.
use scufris.Base.{
  ℕ, ◌*◌, String, Bool, true, false, not, ◌||◌, Option, List, [], ◌∷◌, length, ltb, ◌==◌,
}
use scufris.Base.Result.{ok, ◌>>◌}
use scufris.Control.State.{AgentHolder}
use scufris.Control.Text.{bytes, any, max_identifier_length}
use scufris.Control.Message.{
  Checked, reject_if, check_text, check_id, for_each, max_text_bytes, max_details_bytes, WidgetCall,
  AttachmentDescriptor, Citation, attachment_descriptors, calls, citations,
}
use scufris.Control.Briefing.{check_wake}
use scufris.Control.Surface.{
  WidgetDefinition, JobRow, JobAction, widgets, job_rows, attachment_ids, check_some,
  max_detail_bytes,
}
use scufris.Control.Message.{ConversationEntry, max_conversation_page}

pub record AgentSession : Type 0 where
  pub id : String
  pub file : String
  pub cwd : String
  pub parent : Option String

-- What the agent answers with.
pub record Answer (Value : Type 0) : Type 0 where
  pub text : String
  pub proactive_id : Option String
  pub turn_id : Option String
  pub details : Option String
  pub widgets : Option (List (WidgetCall Value))
  pub attachments : List String
  pub receipts : List Citation

pub data AgentRequestBody (Value : Type 0) : Type 0 where
  hello : Option ℕ → Option AgentSession → AgentRequestBody Value
  session : AgentSession → AgentRequestBody Value
  turn : String → String → ℕ → AgentRequestBody Value
  activity : Bool → AgentRequestBody Value
  proactive_started proactive_settled : String → AgentRequestBody Value
  response : Answer Value → AgentRequestBody Value
  jobs : List JobRow → AgentRequestBody Value

pub data AgentResponseBody (Value : Type 0) : Type 0 where
  ready : AgentResponseBody Value
  message :
      String
      → String
      → List (WidgetDefinition Value)
      → List AttachmentDescriptor
      → AgentResponseBody Value
  wake : Option String → String → String → Option Value → AgentResponseBody Value
  abort offer_take : String → AgentResponseBody Value
  job_command : String → JobAction → AgentResponseBody Value
  turn_ack : String → ℕ → AgentResponseBody Value
  handoff : ℕ → AgentHolder → AgentResponseBody Value
  catch_up : ℕ → List ConversationEntry → AgentResponseBody Value
  rejected : Option String → String → String → AgentResponseBody Value

abbrev pub max_path_bytes : ℕ
max_path_bytes = 4 * 1024

abbrev pub max_turn_images : ℕ
max_turn_images = 8

abbrev starts_with : ℕ → List ℕ → Bool
starts_with b [] = false
starts_with b (c ∷ cs) = c == b

unfoldable pub check_path : String → String → Checked
unfolding bytes any
check_path value field = do
  check_text value max_path_bytes field false
  reject_if (not (starts_with b'/' (bytes value)) || any (λ b. b == b'\n') (bytes value)) field

unfoldable pub validate_agent_session : AgentSession → Checked
unfolding check_path check_some
validate_agent_session s = do
  check_text s.id max_identifier_length "session id" false
  check_path s.file "session file"
  check_path s.cwd "session cwd"
  check_some (λ parent. check_path parent "session parent") s.parent

check_entry : ConversationEntry → Checked
check_entry entry = do
  check_id entry.surface "conversation surface"
  check_text entry.text max_text_bytes "conversation text" false

unfoldable pub conversation_entries : List ConversationEntry → Checked
unfolding check_entry
conversation_entries entries = do
  reject_if (ltb max_conversation_page (length entries)) "conversation entries"
  for_each check_entry entries

module _ {Value : Type 0} (is_object : Value → Bool) (encoded_size : Value → ℕ) where
  unfoldable pub validate_agent_request : AgentRequestBody Value → Checked
  unfolding validate_agent_session check_some
  validate_agent_request (hello lease s) = check_some validate_agent_session s
  validate_agent_request (session s) = validate_agent_session s
  validate_agent_request (turn one body images) = do
    check_id one "turn id"
    check_text body max_text_bytes "turn text" false
    reject_if (ltb max_turn_images images) "turn images"
  validate_agent_request (activity working) = ok tt
  validate_agent_request (proactive_started id) = check_id id "proactive id"
  validate_agent_request (proactive_settled id) = check_id id "proactive id"
  validate_agent_request (response a) = do
    check_some (λ one. check_id one "proactive id") a.proactive_id
    check_some (λ one. check_id one "turn id") a.turn_id
    check_text a.text max_text_bytes "response text" false
    check_some (λ details. check_text details max_details_bytes "response details" false) a.details
    calls encoded_size a.widgets
    attachment_ids a.attachments
    citations a.receipts
  validate_agent_request (jobs rows) = job_rows rows

  unfoldable pub validate_agent_response : AgentResponseBody Value → Checked
  unfolding conversation_entries check_some
  validate_agent_response ready = ok tt
  validate_agent_response (message one body definitions attachments) = do
    check_id one "message id"
    check_text body max_text_bytes "message text" false
    widgets is_object encoded_size definitions
    attachment_descriptors attachments
  validate_agent_response (wake proactive_id custom_type body details) = do
    check_some (λ one. check_id one "proactive id") proactive_id
    check_wake is_object encoded_size custom_type body details
  validate_agent_response (abort one) = check_id one "abort id"
  validate_agent_response (job_command one action) = check_id one "job id"
  validate_agent_response (offer_take one) = check_id one "offer id"
  validate_agent_response (turn_ack one sequence) = check_id one "turn id"
  validate_agent_response (handoff generation next) = ok tt
  validate_agent_response (catch_up since entries) = conversation_entries entries
  validate_agent_response (rejected one code detail) = do
    check_some (λ id. check_id id "turn id") one
    check_id code "rejection code"
    check_text detail max_detail_bytes "rejection detail" true
