-- ===== src/Control/Surface.antt =====
-- shared/control/src/service.rs: the channel between the service and a surface, and its validators.
use text.Mathlib.Text.{◌==◌ as ◌=ˢ◌}
use scufris.Base.{
  ℕ, ◌*◌, String, Bool, true, false, not, ◌||◌, Option, none, some, List, [], length, ltb,
}
use scufris.Base.Result.{ok, ◌>>◌}
use scufris.Control.State.{ScufrisState, AgentHolder}
use scufris.Control.Message.{
  Checked, reject_if, check_text, check_id, for_each, for_each_after, any_of, max_text_bytes,
  max_attachments, max_widgets, ConversationMessage, validate_conversation_message,
}
use scufris.Control.Text.{max_identifier_length}
use scufris.Control.Briefing.{BriefingRow, briefing_rows}

pub record WidgetDefinition (Value : Type 0) : Type 0 where
  pub name : String
  pub description : String
  pub input_schema : Value

pub record SurfaceRegistration (Value : Type 0) : Type 0 where
  pub id : String
  pub name : String
  pub widgets : List (WidgetDefinition Value)

pub data JobRowState : Type 0 where
  working blocked done failed : JobRowState

pub record JobRow : Type 0 where
  pub id : String
  pub project : Option String
  pub state : JobRowState
  pub since : ℕ
  pub summary : String

pub data JobAction : Type 0 where
  cancel archive : JobAction

pub data SurfaceRequestBody (Value : Type 0) : Type 0 where
  hello : SurfaceRegistration Value → SurfaceRequestBody Value
  message : String → String → List String → SurfaceRequestBody Value
  abort briefing_dismiss offer_take : String → SurfaceRequestBody Value
  job_command : String → JobAction → SurfaceRequestBody Value

-- The fields of `Message` are those of the conversation message that it is made from.
pub data SurfaceResponseBody (Value : Type 0) : Type 0 where
  message : ConversationMessage Value → SurfaceResponseBody Value
  message_ack aborted offer_taken ready : String → SurfaceResponseBody Value
  state : ScufrisState → String → AgentHolder → SurfaceResponseBody Value
  jobs : List JobRow → SurfaceResponseBody Value
  briefings : List BriefingRow → SurfaceResponseBody Value
  rejected : Option String → String → String → String → SurfaceResponseBody Value

abbrev pub unprompted_surface : String
unprompted_surface = "unprompted"

abbrev pub terminal_surface : String
terminal_surface = "terminal"

abbrev pub max_surface_name_bytes : ℕ
max_surface_name_bytes = 256

abbrev pub max_detail_bytes : ℕ
max_detail_bytes = 4 * 1024

abbrev pub max_widget_description_bytes : ℕ
max_widget_description_bytes = 2 * 1024

abbrev pub max_widget_schema_bytes : ℕ
max_widget_schema_bytes = 16 * 1024

abbrev pub max_job_rows : ℕ
max_job_rows = 8

abbrev pub max_job_summary_bytes : ℕ
max_job_summary_bytes = 512

-- `if let Some(value) = .. { check(value)?; }`.
unfoldable pub check_some {ℓ} : {A : Type ℓ} → (A → Checked) → Option A → Checked
check_some check none = ok tt
check_some check (some value) = check value

check_job_row : List JobRow → JobRow → Checked
unfolding check_some
check_job_row before row = do
  check_id row.id "job id"
  reject_if (any_of (λ previous. previous.id =ˢ row.id) before) "jobs"
  check_some (λ project. check_text project max_identifier_length "job project" false) row.project
  check_text row.summary max_job_summary_bytes "job summary" true

unfoldable pub job_rows : List JobRow → Checked
unfolding check_job_row
job_rows value = do
  reject_if (ltb max_job_rows (length value)) "jobs"
  for_each_after check_job_row [] value

unfoldable pub attachment_ids : List String → Checked
attachment_ids value = do
  reject_if (ltb max_attachments (length value)) "attachments"
  for_each_after
      (λ before attachment_id. do
        check_id attachment_id "attachment id"
        reject_if (any_of (λ previous. previous =ˢ attachment_id) before) "attachments")
      [] value

module _ {Value : Type 0} (is_object : Value → Bool) (encoded_size : Value → ℕ) where
  check_widget : WidgetDefinition Value → Checked
  check_widget widget = do
    check_id widget.name "widget name"
    check_text widget.description max_widget_description_bytes "widget description" true
    reject_if
        (not (is_object widget.input_schema)
          || ltb max_widget_schema_bytes (encoded_size widget.input_schema))
        "widget schema"

  unfoldable pub widgets : List (WidgetDefinition Value) → Checked
  unfolding check_widget
  widgets definitions = do
    reject_if (ltb max_widgets (length definitions)) "widgets"
    for_each check_widget definitions

  unfoldable pub validate_registration : SurfaceRegistration Value → Checked
  unfolding widgets
  validate_registration surface = do
    check_id surface.id "surface id"
    reject_if (surface.id =ˢ unprompted_surface || surface.id =ˢ terminal_surface) "surface id"
    check_text surface.name max_surface_name_bytes "surface name" false
    widgets surface.widgets

  unfoldable pub validate_surface_request : SurfaceRequestBody Value → Checked
  unfolding validate_registration attachment_ids
  validate_surface_request (hello surface) = validate_registration surface
  validate_surface_request (message one body attachments) = do
    check_id one "message id"
    check_text body max_text_bytes "message text" false
    attachment_ids attachments
  validate_surface_request (abort one) = check_id one "abort id"
  validate_surface_request (job_command one action) = check_id one "job id"
  validate_surface_request (briefing_dismiss one) = check_id one "briefing id"
  validate_surface_request (offer_take one) = check_id one "offer id"

  unfoldable pub validate_surface_response : SurfaceResponseBody Value → Checked
  unfolding job_rows check_some
  validate_surface_response (message m) = validate_conversation_message encoded_size m
  validate_surface_response (message_ack one) = check_id one "response id"
  validate_surface_response (aborted one) = check_id one "response id"
  validate_surface_response (state s detail holder) =
      check_text detail max_detail_bytes "state detail" true
  validate_surface_response (jobs rows) = job_rows rows
  validate_surface_response (briefings rows) = briefing_rows rows
  validate_surface_response (offer_taken one) = check_id one "offer id"
  validate_surface_response (ready surface) = check_id surface "surface id"
  validate_surface_response (rejected one operation code detail) = do
    check_some (λ id. check_id id "rejection id") one
    check_id operation "operation"
    check_id code "rejection code"
    check_text detail max_detail_bytes "rejection detail" true
