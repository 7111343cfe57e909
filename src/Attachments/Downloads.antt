-- ===== src/Attachments/Downloads.antt =====
-- The answers of `download` of host/service/src/attachment.rs, and the ranges they are of.
use scufris.Base.{
  ℕ, ◌+◌, ◌-◌, ◌≤◌, ◌<◌, String, Bool, false, Option, none, some, List, length, take, drop, ◌≡◌,
  ◌⊎◌,
}
use scufris.Base.Text.{◌⋅◌, decimal}
use scufris.Base.Result.{ok, err}
use scufris.Control.Message.{AttachmentDescriptor}
use scufris.Attachments.{corrupt}
use scufris.Attachments.Ranges.{Ranged}
use scufris.Attachments.Api.{content, unsatisfiable, Responded, range_value}

-- A range that is asked for lies in a content of that many bytes.
abbrev pub InBounds : ℕ → Ranged → Type 0
InBounds size (ok (some (start, end))) = (start ≤ end) × (end < size)
InBounds size _ = Unit

-- A partial content is the part of the bytes between the ends of the range that was asked for.
abbrev pub IsPart : Ranged → AttachmentDescriptor → List ℕ → Option String → List ℕ → Type 0
IsPart range d bytes value body =
    (start : ℕ) × (end : ℕ) × (range ≡ ok (some (start, end)))
    × (start ≤ end)
    × (end < d.size)
    × (body ≡ take (end + 1 - start) (drop start bytes))
    × (length body ≡ end + 1 - start)
    × (value ≡ some (range_value (start, end) d.size))

-- The header values that an answer needs are not all ones that the HTTP library takes.
abbrev pub IsRefused : (String → Bool) → Ranged → AttachmentDescriptor → Type 0
IsRefused header_value (ok none) d = header_value d.media_type ≡ false
IsRefused header_value (ok (some range)) d =
    (header_value d.media_type ≡ false) ⊎ (header_value (range_value range d.size) ≡ false)
IsRefused header_value (err u) d = header_value ("bytes */" ⋅ decimal d.size) ≡ false

abbrev pub IsDownload :
    (String → Bool) → Ranged → AttachmentDescriptor → List ℕ → Option Responded → Type 0
IsDownload header_value range d bytes none = ⊥
IsDownload header_value range d bytes (some (err e)) =
    (e ≡ corrupt) × IsRefused header_value range d
IsDownload header_value range d bytes (some (ok (unsatisfiable value e))) =
    (range ≡ err tt) × (e.status ≡ 416)
IsDownload header_value range d bytes
      (some (ok (content status media_type content_length value body))) =
    (media_type ≡ d.media_type)
    × (content_length ≡ length body)
    × (((status ≡ 200) × (range ≡ ok none) × (body ≡ bytes) × (value ≡ none))
        ⊎ ((status ≡ 206) × IsPart range d bytes value body))
