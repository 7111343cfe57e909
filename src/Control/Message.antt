-- ===== src/Control/Message.antt =====
-- shared/control/src/service.rs: a canonical conversation message and its validation. A JSON value
-- is `serde_json`'s: its type and the size of its encoding are parameters.
use text.Mathlib.Text.{◌==◌ as ◌=ˢ◌}
use scufris.Base.{
  ℕ, ◌*◌, String, Bool, true, false, not, ◌&&◌, ◌||◌, Option, none, some, List, [], ◌∷◌, ◌++◌,
  length, ltb, leb, ◌==◌,
}
use scufris.Base.Text.{trim, is_empty}
use scufris.Base.Result.{Result, ok, err, ◌>>◌}
use scufris.Control.Text.{
  bytes, codes, all, any, is_ascii_alphanumeric, is_identifier, is_refused_control,
}

pub data MessageError : Type 0 where
  empty too_large missing_terminator : MessageError
  invalid_json invalid_submission io : String → MessageError
  unsupported_version : ℕ → MessageError

abbrev pub Checked : Type 0
Checked = Result MessageError (Unit {0})

pub data ConversationRole : Type 0 where
  user assistant : ConversationRole

pub record WidgetCall (Value : Type 0) : Type 0 where
  pub id : String
  pub name : String
  pub arguments : Value

pub record AttachmentDescriptor : Type 0 where
  pub id : String
  pub name : String
  pub media_type : String
  pub size : ℕ

pub data ReceiptState : Type 0 where
  measured refuted claimed unknown : ReceiptState

pub record Receipt : Type 0 where
  pub label : String
  pub value : String
  pub state : ReceiptState

pub record Offer : Type 0 where
  pub id : String
  pub label : String
  pub taken : Bool

pub record Citation : Type 0 where
  pub job_id : String
  pub badges : List Receipt
  pub offers : List Offer

pub record ConversationMessage (Value : Type 0) : Type 0 where
  pub role : ConversationRole
  pub surface : String
  pub text : String
  pub details : Option String
  pub widgets : Option (List (WidgetCall Value))
  pub attachments : List AttachmentDescriptor
  pub receipts : List Citation

pub record ConversationEntry : Type 0 where
  pub sequence : ℕ
  pub role : ConversationRole
  pub surface : String
  pub text : String

abbrev pub max_conversation_page : ℕ
max_conversation_page = 64

abbrev pub max_text_bytes : ℕ
max_text_bytes = 8 * 1024

abbrev pub max_details_bytes : ℕ
max_details_bytes = 32 * 1024

abbrev pub max_widgets : ℕ
max_widgets = 32

abbrev pub max_widget_arguments_bytes : ℕ
max_widget_arguments_bytes = 16 * 1024

abbrev pub max_attachments : ℕ
max_attachments = 8

abbrev pub max_attachment_name_bytes : ℕ
max_attachment_name_bytes = 255

abbrev pub max_media_type_bytes : ℕ
max_media_type_bytes = 127

abbrev pub max_attachment_bytes : ℕ
max_attachment_bytes = 16 * 1024 * 1024

abbrev pub max_citations : ℕ
max_citations = 4

abbrev pub max_receipts : ℕ
max_receipts = 6

abbrev pub max_offers : ℕ
max_offers = 2

abbrev pub max_badge_bytes : ℕ
max_badge_bytes = 64

abbrev pub reject_if : Bool → String → Checked
reject_if true field = err (invalid_submission field)
reject_if false field = ok tt

unfoldable pub check_text : String → ℕ → String → Bool → Checked
check_text value max field allow_empty =
    reject_if
      ((not allow_empty && is_empty (trim value))
        || ltb max (length (bytes value))
        || any is_refused_control (bytes value))
      field

unfoldable pub check_id : String → String → Checked
check_id value field = reject_if (not (is_identifier value)) field

-- A `for` loop whose body may return early with an error.
unfoldable pub for_each {ℓ} : {A : Type ℓ} → (A → Checked) → List A → Checked
for_each body [] = ok tt
for_each body (x ∷ xs) = body x >> for_each body xs

-- The same, where the body also sees the elements before this one, nearest first.
unfoldable pub for_each_after {ℓ} :
    {A : Type ℓ} → (List A → A → Checked) → List A → List A → Checked
for_each_after body before [] = ok tt
for_each_after body before (x ∷ xs) = body before x >> for_each_after body (x ∷ before) xs

unfoldable pub any_of {ℓ} : {A : Type ℓ} → (A → Bool) → List A → Bool
any_of p [] = false
any_of p (x ∷ xs) = p x || any_of p xs

-- `str::split_once` at an ASCII byte.
unfoldable pub split_once : ℕ → List ℕ → Option (List ℕ × List ℕ)
split_once sep [] = none
split_once sep (b ∷ bs) = elim (b == sep) [
  | true ↦ some ([], bs)
  | false ↦ elim (split_once sep bs) [ none ↦ none | some (major, minor) ↦ some (b ∷ major, minor) ]
]

abbrev is_media_byte : ℕ → Bool
is_media_byte b =
    is_ascii_alphanumeric b
    || b == b'!'
    || b == b'#'
    || b == b'$'
    || b == b'&'
    || b == b'^'
    || b == b'_'
    || b == b'.'
    || b == b'+'
    || b == b'-'

abbrev none_left : List ℕ → Bool
none_left [] = true
none_left (b ∷ bs) = false

abbrev is_media_pair : Option (List ℕ × List ℕ) → Bool
is_media_pair none = false
is_media_pair (some (major, minor)) =
    not (none_left major)
    && not (none_left minor)
    && not (any (λ b. b == b'/') minor)
    && all is_media_byte (major ++ minor)

unfoldable pub is_media_type : String → Bool
is_media_type value =
    leb (length (bytes value)) max_media_type_bytes && is_media_pair (split_once b'/' (bytes value))

-- `char::is_control`: the Unicode category Cc.
abbrev pub is_control : ℕ → Bool
is_control c = ltb c 32 || (leb 127 c && leb c 159)

unfoldable pub validate_attachment_descriptor : AttachmentDescriptor → Checked
validate_attachment_descriptor value = do
  check_id value.id "attachment id"
  check_text value.name max_attachment_name_bytes "attachment name" false
  reject_if
      (any (λ b. b == b'/' || b == b'\\') (bytes value.name)
        || any is_control (codes value.name)
        || not (is_media_type value.media_type)
        || value.size == 0
        || ltb max_attachment_bytes value.size)
      "attachment"

unfoldable pub attachment_descriptors : List AttachmentDescriptor → Checked
attachment_descriptors value = do
  reject_if (ltb max_attachments (length value)) "attachments"
  for_each_after
      (λ before descriptor. do
        validate_attachment_descriptor descriptor
        reject_if (any_of (λ previous. previous.id =ˢ descriptor.id) before) "attachments")
      [] value

check_badge : Receipt → Checked
check_badge badge = do
  check_text badge.label max_badge_bytes "receipt label" false
  check_text badge.value max_badge_bytes "receipt value" false

check_offer : Offer → Checked
check_offer offer = do
  check_id offer.id "offer id"
  check_text offer.label max_badge_bytes "offer label" false

check_citation : List Citation → Citation → Checked
unfolding check_badge check_offer
check_citation before citation = do
  check_id citation.job_id "citation job id"
  reject_if (any_of (λ previous. previous.job_id =ˢ citation.job_id) before) "receipts"
  reject_if (ltb max_receipts (length citation.badges) || ltb max_offers (length citation.offers))
      "receipts"
  for_each check_badge citation.badges
  for_each check_offer citation.offers

abbrev pub all_offers : List Citation → List Offer
all_offers [] = []
all_offers (citation ∷ rest) = citation.offers ++ all_offers rest

unfoldable pub citations : List Citation → Checked
unfolding check_citation
citations value = do
  reject_if (ltb max_citations (length value)) "receipts"
  for_each_after check_citation [] value
  for_each_after
      (λ before offer. reject_if (any_of (λ previous. previous.id =ˢ offer.id) before) "offers") []
      (all_offers value)

module _ {Value : Type 0} (encoded_size : Value → ℕ) where
  check_call : WidgetCall Value → Checked
  check_call call = do
    check_id call.id "widget call id"
    check_id call.name "widget call name"
    reject_if (ltb max_widget_arguments_bytes (encoded_size call.arguments)) "widget arguments"

  unfoldable pub calls : Option (List (WidgetCall Value)) → Checked
  unfolding check_call
  calls none = ok tt
  calls (some value) = do
    reject_if (ltb max_widgets (length value)) "widget calls"
    for_each check_call value

  check_details : Option String → Checked
  check_details none = ok tt
  check_details (some details) = check_text details max_details_bytes "message details" false

  unfoldable pub validate_conversation_message : ConversationMessage Value → Checked
  unfolding check_details
  validate_conversation_message message = do
    check_id message.surface "surface id"
    check_text message.text max_text_bytes "message text" false
    check_details message.details
    calls message.widgets
    attachment_descriptors message.attachments
    citations message.receipts
