-- ===== src/Control/Briefing.antt =====
-- shared/control/src/service.rs: a briefing row, its wake, and their validators.
use text.Mathlib.Text.{◌==◌ as ◌=ˢ◌}
use scufris.Base.{
  ℕ, ◌+◌, String, Bool, true, false, not, ◌&&◌, ◌||◌, Option, none, some, List, [], ◌∷◌, length,
  ltb, leb, ◌==◌, if◌then◌else◌,
}
use scufris.Base.Result.{◌>>◌}
use scufris.Control.Text.{bytes, codes, any}
use scufris.Control.Message.{
  for_each_after, any_of, Checked, check_id, check_text, reject_if, is_control, max_text_bytes,
  max_details_bytes,
}

pub data BriefingCollectionState : Type 0 where
  collecting collected failed : BriefingCollectionState

pub data BriefingDeliveryState : Type 0 where
  pending in_progress failed delivered : BriefingDeliveryState

pub record BriefingRow : Type 0 where
  pub id : String
  pub date : String
  pub profile : String
  pub collection : BriefingCollectionState
  pub delivery : BriefingDeliveryState
  pub since : ℕ
  pub completed : ℕ
  pub total : ℕ
  pub failed : ℕ
  pub summary : String

abbrev pub is_collecting : BriefingCollectionState → Bool
is_collecting collecting = true
is_collecting _ = false

abbrev pub is_collected : BriefingCollectionState → Bool
is_collected collected = true
is_collected _ = false

abbrev pub is_collection_failed : BriefingCollectionState → Bool
is_collection_failed failed = true
is_collection_failed _ = false

abbrev pub is_delivered : BriefingDeliveryState → Bool
is_delivered delivered = true
is_delivered _ = false

abbrev pub is_pending : BriefingDeliveryState → Bool
is_pending pending = true
is_pending _ = false

abbrev pub is_in_progress : BriefingDeliveryState → Bool
is_in_progress in_progress = true
is_in_progress _ = false

abbrev pub is_stopped : BriefingDeliveryState → Bool
is_stopped failed = true
is_stopped _ = false

unfoldable pub active : BriefingRow → Bool
active row =
    is_collecting row.collection || (is_pending row.delivery || is_in_progress row.delivery)

unfoldable pub partial : BriefingRow → Bool
partial row = is_collected row.collection && ltb 0 row.failed

unfoldable pub requires_attention : BriefingRow → Bool
unfolding partial
requires_attention row =
    is_stopped row.delivery
    || (is_delivered row.delivery && (is_collection_failed row.collection || partial row))

unfoldable pub dismissible : BriefingRow → Bool
dismissible row = not (is_collecting row.collection) && is_delivered row.delivery

pub record BriefingWake (Value : Type 0) : Type 0 where
  pub event_id : String
  pub custom_type : String
  pub text : String
  pub details : Option Value

abbrev pub max_briefing_rows : ℕ
max_briefing_rows = 64

abbrev pub max_briefing_summary_bytes : ℕ
max_briefing_summary_bytes = 256

-- The bytes of a date, from the index that the first one has.
is_date_from : ℕ → List ℕ → Bool
is_date_from index [] = true
is_date_from index (byte ∷ rest) =
    (if index == 4 || index == 7 then byte == b'-' else leb b'0' byte && leb byte b'9')
    && is_date_from (index + 1) rest

unfoldable pub validate_briefing_row : BriefingRow → Checked
unfolding is_date_from
validate_briefing_row row = do
  check_id row.id "briefing id"
  check_text row.date 10 "briefing date" false
  reject_if (not (length (bytes row.date) == 10) || not (is_date_from 0 (bytes row.date)))
      "briefing date"
  check_id row.profile "briefing profile"
  reject_if (ltb row.total row.completed || ltb row.completed row.failed) "briefing counts"
  check_text row.summary max_briefing_summary_bytes "briefing summary" true
  reject_if (any is_control (codes row.summary)) "briefing summary"

-- What `serde_json` says of a value: whether it is an object, and the size of its encoding.
module _ {Value : Type 0} (is_object : Value → Bool) (encoded_size : Value → ℕ) where
  refused_details : Option Value → Bool
  refused_details none = false
  refused_details (some details) =
      not (is_object details) || ltb max_details_bytes (encoded_size details)

  unfoldable pub check_wake : String → String → Option Value → Checked
  unfolding refused_details
  check_wake custom_type body details = do
    check_id custom_type "wake custom type"
    check_text body max_text_bytes "wake text" false
    reject_if (refused_details details) "wake details"

  unfoldable pub validate_briefing_wake : BriefingWake Value → Checked
  unfolding check_wake
  validate_briefing_wake value = do
    check_id value.event_id "briefing event id"
    check_wake value.custom_type value.text value.details

unfoldable pub briefing_rows : List BriefingRow → Checked
unfolding validate_briefing_row
briefing_rows value = do
  reject_if (ltb max_briefing_rows (length value)) "briefings"
  for_each_after
      (λ before row. do
        validate_briefing_row row
        reject_if (any_of (λ previous. previous.id =ˢ row.id) before) "briefings")
      [] value
