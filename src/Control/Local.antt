-- ===== src/Control/Local.antt =====
-- shared/control/src/service.rs: the control channel between the service and a local client, and its
-- validators.
use scufris.Base.{ℕ, String, Bool, true, Option, List}
use scufris.Base.Result.{ok, ◌>>◌}
use scufris.Control.State.{ScufrisState, AgentHolder}
use scufris.Control.Message.{Checked, check_text, check_id}
use scufris.Control.Briefing.{
  BriefingRow, BriefingWake, check_wake, validate_briefing_row, validate_briefing_wake,
}
use scufris.Control.Surface.{check_some, max_detail_bytes}
use scufris.Control.Agent.{check_path, conversation_entries}
use scufris.Control.Message.{ConversationEntry}

pub record LeaseHolder : Type 0 where
  pub pid : ℕ
  pub session_file : Option String
  pub cwd : String

pub data ControlRequestBody (Value : Type 0) : Type 0 where
  hello : ControlRequestBody Value
  state lease_ping lease_release : String → ControlRequestBody Value
  wake : String → String → String → Option Value → ControlRequestBody Value
  briefing : String → BriefingRow → Option (BriefingWake Value) → ControlRequestBody Value
  lease_acquire : String → LeaseHolder → Bool → ControlRequestBody Value
  conversation : String → ℕ → ControlRequestBody Value

-- What `scufris-ctl state` prints.
pub record StateReport : Type 0 where
  pub id : String
  pub state : ScufrisState
  pub detail : String
  pub holder : AgentHolder
  pub generation : Option ℕ
  pub session_dir : String
  pub lineage_file : Option String

pub record LeaseReply : Type 0 where
  pub id : String
  pub generation : ℕ
  pub session_dir : String
  pub lineage_file : Option String
  pub sequence : ℕ
  pub owner : String

pub data ControlResponseBody : Type 0 where
  ready : ControlResponseBody
  state : StateReport → ControlResponseBody
  wake_ack briefing_ack lease_released : String → ControlResponseBody
  lease : LeaseReply → ControlResponseBody
  lease_pong : String → ℕ → ControlResponseBody
  conversation_page : String → List ConversationEntry → Bool → ControlResponseBody
  rejected : String → String → String → ControlResponseBody

module _ {Value : Type 0} (is_object : Value → Bool) (encoded_size : Value → ℕ) where
  unfoldable pub validate_control_request : ControlRequestBody Value → Checked
  unfolding check_some check_path
  validate_control_request hello = ok tt
  validate_control_request (state one) = check_id one "state id"
  validate_control_request (wake one custom_type body details) = do
    check_id one "wake id"
    check_wake is_object encoded_size custom_type body details
  validate_control_request (briefing one row terminal) = do
    check_id one "briefing request id"
    validate_briefing_row row
    check_some (validate_briefing_wake is_object encoded_size) terminal
  validate_control_request (lease_acquire one holder abort_working) = do
    check_id one "lease request id"
    check_some (λ file. check_path file "holder session file") holder.session_file
    check_path holder.cwd "holder cwd"
  validate_control_request (lease_ping one) = check_id one "lease request id"
  validate_control_request (lease_release one) = check_id one "lease request id"
  validate_control_request (conversation one since) = check_id one "lease request id"

unfoldable pub validate_control_response : ControlResponseBody → Checked
unfolding check_some check_path conversation_entries
validate_control_response ready = ok tt
validate_control_response (state r) = do
  check_id r.id "state id"
  check_path r.session_dir "state session dir"
  check_some (λ file. check_path file "lineage file") r.lineage_file
  check_text r.detail max_detail_bytes "state detail" true
validate_control_response (wake_ack one) = check_id one "wake id"
validate_control_response (briefing_ack one) = check_id one "briefing request id"
validate_control_response (lease r) = do
  check_id r.id "lease request id"
  check_path r.session_dir "lease session dir"
  check_some (λ file. check_path file "lease lineage file") r.lineage_file
  check_id r.owner "lease owner"
validate_control_response (lease_pong one generation) = check_id one "lease request id"
validate_control_response (lease_released one) = check_id one "lease request id"
validate_control_response (conversation_page one entries more) = do
  check_id one "lease request id"
  conversation_entries entries
validate_control_response (rejected one code detail) = do
  check_id one "rejection id"
  check_id code "rejection code"
  check_text detail max_detail_bytes "rejection detail" true
