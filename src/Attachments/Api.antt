-- ===== src/Attachments/Api.antt =====
-- host/service/src/attachment.rs: the content API over the store, `upload`, `import_attachment`,
-- `download` and `head`, with what each of them answers. Which texts the HTTP library takes for the
-- value of a header is a parameter.
use scufris.Base.{
  ℕ, ◌+◌, ◌-◌, String, Bool, true, ◌&&◌, Option, none, some, List, [], length, take, drop, ltb, leb,
  if◌then◌else◌,
}
use scufris.Base.Text.{◌⋅◌, decimal}
use scufris.Base.Result.{Result, ok, err}
use scufris.Control.Message.{AttachmentDescriptor}
use scufris.Attachments.{
  Index, StoreError, invalid, not_found, too_large, incomplete, quota, corrupt, Folder, Store, Host,
  Answer,
}
use scufris.Attachments.Puts.{Putting, Source, put, import_path}
use scufris.Attachments.Reads.{read, stat}
use scufris.Attachments.Ranges.{Ranged, requested_range}

-- The status of an error, its stable code and its words.
pub record ErrorBody : Type 0 where
  pub status : ℕ
  pub code : String
  pub message : String

-- `ApiError::into_response`.
unfoldable pub error_body : StoreError → ErrorBody
error_body (invalid field) = record {
  status = 422;
  code = "invalid_attachment";
  message = "The attachment is invalid.";
}
error_body too_large = record {
  status = 413;
  code = "attachment_too_large";
  message = "The attachment is too large.";
}
error_body incomplete = record {
  status = 400;
  code = "attachment_incomplete";
  message = "The attachment did not finish uploading.";
}
error_body not_found = record {
  status = 404;
  code = "attachment_not_found";
  message = "The attachment is unavailable.";
}
error_body quota = record {
  status = 507;
  code = "attachment_quota";
  message = "Attachment storage is full.";
}
error_body _ = record {
  status = 500;
  code = "attachment_unavailable";
  message = "Attachment storage is unavailable.";
}

-- A response with content, or one that says which range there is.
pub data Response : Type 0 where
  content :
      (status : ℕ) (media_type : String) (content_length : ℕ) (content_range : Option String)
      (body : List ℕ)
      → Response
  unsatisfiable : (content_range : String) → ErrorBody → Response

abbrev pub Responded : Type 0
Responded = Result StoreError Response

abbrev pub range_value : ℕ × ℕ → ℕ → String
range_value (start, end) size = "bytes " ⋅ decimal start ⋅ "-" ⋅ decimal end ⋅ "/" ⋅ decimal size

pub data Upload : Type 0 where
  arrived : List ℕ → Upload
  over_limit broken_off : Upload

module _ (header_value : String → Bool) where
  abbrev pub fits_header : Option String → Bool
  fits_header none = true
  fits_header (some value) = header_value value

  unfoldable pub range_header : AttachmentDescriptor → Option (ℕ × ℕ) → Option String
  range_header d none = none
  range_header d (some range) = some (range_value range d.size)

  -- `response`: a value that is no header is answered as a corrupt store.
  unfoldable pub response : AttachmentDescriptor → ℕ → ℕ → Option (ℕ × ℕ) → List ℕ → Responded
  unfolding range_header
  response d status content_length range body =
      if header_value d.media_type && fits_header (range_header d range)
      then ok (content status d.media_type content_length (range_header d range) body)
      else err corrupt

  unfoldable pub range_not_satisfiable : ℕ → Responded
  range_not_satisfiable size =
      let value = "bytes */" ⋅ decimal size in
      if header_value value
      then ok (
          unsatisfiable value (record {
            status = 416;
            code = "invalid_range";
            message = "The requested attachment range is unavailable.";
          }))
      else err corrupt

  -- `bytes[start..=end]`, none where the slice panics.
  unfoldable pub slice : List ℕ → ℕ → ℕ → Option (List ℕ)
  slice bytes start end =
      if leb start (end + 1) && ltb end (length bytes)
      then some (take (end + 1 - start) (drop start bytes))
      else none

  unfoldable pub selected : AttachmentDescriptor → ℕ × ℕ → Option (List ℕ) → Option Responded
  unfolding response
  selected d range none = none
  selected d range (some bytes) = some (response d 206 (length bytes) (some range) bytes)

  unfoldable pub download_range : AttachmentDescriptor → List ℕ → Ranged → Option Responded
  unfolding range_not_satisfiable selected slice response
  download_range d bytes (err u) = some (range_not_satisfiable d.size)
  download_range d bytes (ok none) = some (response d 200 d.size none bytes)
  download_range d bytes (ok (some (start, end))) = selected d (start, end) (slice bytes start end)

  unfoldable pub download_read :
      List (Option String) → Result StoreError (AttachmentDescriptor × List ℕ) → Option Responded
  unfolding requested_range download_range
  download_read ranges (err e) = some (err e)
  download_read ranges (ok (d, bytes)) = download_range d bytes (requested_range ranges d.size)

  -- `download`, none where it panics.
  unfoldable pub download : Host → String → List (Option String) → Index → Folder → Option Responded
  unfolding read download_read
  download host id ranges index objects = download_read ranges (read host id index objects)

  head_of : Result StoreError AttachmentDescriptor → Responded
  unfolding response
  head_of (err e) = err e
  head_of (ok d) = response d 200 d.size none []

  unfoldable pub head : Host → String → Index → Folder → Responded
  unfolding stat head_of
  head host id index objects = head_of (stat host id index objects)

put_arrived : Host → Putting → String → Option String → List ℕ → Store → Answer AttachmentDescriptor
unfolding put
put_arrived host m name none bytes s = (err (invalid "media type"), s)
put_arrived host m name (some media_type) bytes s = put host m name media_type bytes s

-- `upload`, of a query that was read or not, the content type and the body.
unfoldable pub upload :
    Host → Putting → Option String → Option String → Upload → Store → Answer AttachmentDescriptor
unfolding put_arrived
upload host m none media_type body s = (err (invalid "upload query"), s)
upload host m (some name) media_type over_limit s = (err too_large, s)
upload host m (some name) media_type broken_off s = (err incomplete, s)
upload host m (some name) media_type (arrived bytes) s = put_arrived host m name media_type bytes s

-- `import_attachment`, of a request that was read or not.
unfoldable pub import_attachment :
    Host → Putting → Option (Source × String) → Store → Answer AttachmentDescriptor
unfolding import_path
import_attachment host m none s = (err (invalid "import request"), s)
import_attachment host m (some (source, media_type)) s = import_path host m source media_type s
