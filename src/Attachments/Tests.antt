-- ===== src/Attachments/Tests.antt =====
-- Runs of the store of host/service/src/attachment.rs, and its theorems at concrete inputs.
use text.Mathlib.Text.{◌==◌ as ◌=ˢ◌}
use scufris.Base.{
  ℕ, Bool, true, false, not, ◌&&◌, none, some, List, [], ◌∷◌, ◌==◌, ◌≡◌, refl, arith, eq_iff,
  if◌then◌else◌,
}
use scufris.Base.Text.{trim}
use scufris.Base.Files.{file}
use scufris.Base.Result.{ok, err}
use scufris.Control.Text.{bytes, codes, is_identifier, all, any}
use scufris.Control.Message.{
  AttachmentDescriptor, validate_attachment_descriptor, is_media_type, check_id, check_text,
  split_once,
}
use scufris.Briefings.{contains}
use scufris.Attachments.{
  quota, Record, Store, Host, Folder, find_record, full, is_expired, unlink, node_at, place,
  insert_record, remove_record, write_record,
}
use scufris.Attachments.Puts.{
  Putting, with_room, put, put_reader, prepare, put_prepared, admit, write_bounded, rename_object,
  finish,
}
use scufris.Attachments.Reads.{
  loaded, load_entries, load_entry, load_shown, load_trusted, read_record, is_hidden, sweep, swept,
  resolve, find_all, refer_all, refer, resolve_found, resolved,
}
use scufris.Attachments.Indexed.{IsIndex}
use scufris.Attachments.Outcomes.{ReadsBack}
use scufris.Attachments.Lives.{Call, puts, resolves, run, step, Documented}
use scufris.Attachments.Listed.{IsListing, has_name}
use scufris.Attachments.Served.{Serves, run-IsIndex, run-Serves}
use scufris.Attachments.Resolved.{IsResolved, resolve-IsResolved}
use scufris.Attachments.Returned.{IsPut, put-IsPut}
use scufris.Attachments.Refused.{IsSpace, put-IsSpace}
use scufris.Attachments.Succeeds.{Works, put-Succeeds}

abbrev photo : AttachmentDescriptor
photo = record { id = "att_a"; name = "photo.png"; media_type = "image/png"; size = 3 }

abbrev note : AttachmentDescriptor
note = record { id = "att_b"; name = "note.txt"; media_type = "text/plain"; size = 2 }

abbrev photo_record : Record
photo_record = record { descriptor = photo; created_at = 50; referenced = false }

abbrev referenced_photo : Record
referenced_photo = record { descriptor = photo; created_at = 50; referenced = true }

abbrev note_record : Record
note_record = record { descriptor = note; created_at = 100; referenced = false }

same_flag : Bool → Bool → Bool
same_flag true b = b
same_flag false b = not b

same_record : Record → Record → Bool
unfolding same_flag
same_record a b =
    a.descriptor.id =ˢ b.descriptor.id
    && a.descriptor.name =ˢ b.descriptor.name
    && a.descriptor.media_type =ˢ b.descriptor.media_type
    && a.descriptor.size == b.descriptor.size
    && a.created_at == b.created_at
    && same_flag a.referenced b.referenced

same_flag_sound : (a b : Bool) → same_flag a b ≡ true → a ≡ b
unfolding same_flag
same_flag_sound true true h = refl
same_flag_sound true false h = cc
same_flag_sound false true h = cc
same_flag_sound false false h = refl

same_record_sound : (a b : Record) → same_record a b ≡ true → a ≡ b
unfolding same_record
same_record_sound a b h = ground (
  arith,
  eq_iff a.descriptor.id b.descriptor.id,
  eq_iff a.descriptor.name b.descriptor.name,
  eq_iff a.descriptor.media_type b.descriptor.media_type,
  same_flag_sound a.referenced b.referenced,
)

-- A JSON library for three records, each of them one byte.
encode : Record → List ℕ
encode r = if r.referenced then 8 ∷ [] else if r.descriptor.id =ˢ "att_a" then 7 ∷ [] else 9 ∷ []

decode : List ℕ → Record
decode (b ∷ []) = if b == 8 then referenced_photo else if b == 7 then photo_record else note_record
decode _ = photo_record

abbrev two_hosts : Host
two_hosts = record {
  to_vec = λ r. if same_record (decode (encode r)) r then some (encode r) else none;
  from_slice = λ encoded. some (decode encoded);
  writes = λ id. true;
  keeps_object = λ id. false;
  keeps_record = λ name. false;
  io_reason = "denied";
  json_reason = "unreadable";
}

two_hosts-ReadsBack : ReadsBack two_hosts.from_slice two_hosts
two_hosts-ReadsBack r encoded e = ground (arith, same_record_sound (decode (encode r)) r)

abbrev one_record : Folder
one_record = ("att_a.json", file (7 ∷ [])) ∷ (".att_c.json.tmp", file (1 ∷ [])) ∷ []

abbrev one_object : Folder
one_object = ("att_a", file (1 ∷ 2 ∷ 3 ∷ [])) ∷ ("att_z", file (1 ∷ [])) ∷ []

abbrev putting : Putting
putting = record {
  now = some 100;
  new_id = some "att_b";
  creates = true;
  copies = true;
  renames = true;
}

abbrev day : List (Host × Call)
day =
    (two_hosts, puts putting "note.txt" "text/plain" (4 ∷ 5 ∷ []))
    ∷ (two_hosts, resolves ("att_a" ∷ []) true)
    ∷ []

one_record-IsListing : IsListing one_record
unfolding has_name
one_record-IsListing = (refl, (refl, tt))

abbrev started : Store
started = loaded two_hosts 60 one_record one_object

abbrev as_started : Store
as_started = record {
  index = record { records = photo_record ∷ []; bytes = 3 };
  objects = ("att_a", file (1 ∷ 2 ∷ 3 ∷ [])) ∷ [];
  metadata = ("att_a.json", file (7 ∷ [])) ∷ [];
}

started_lem : started ≡ as_started
unfolding loaded load_entries load_entry load_shown load_trusted read_record is_hidden sweep swept
    validate_attachment_descriptor check_id check_text is_identifier is_media_type split_once all
    any bytes codes trim decode full is_expired find_record unlink node_at contains insert_record
    remove_record
started_lem = refl

abbrev ended : Store
ended = run day as_started

day-Documented : Documented two_hosts.from_slice day started
unfolding find_record loaded load_entries load_entry load_shown load_trusted read_record is_hidden
    sweep swept validate_attachment_descriptor check_id check_text is_identifier is_media_type
    split_once all any bytes codes trim decode full is_expired unlink node_at contains insert_record
    remove_record
day-Documented = (two_hosts-ReadsBack, refl, (two_hosts-ReadsBack, tt, tt))

run-IsIndex_example : IsIndex (run day started).index
run-IsIndex_example =
    run-IsIndex two_hosts 60 one_record one_object day one_record-IsListing day-Documented

photo_referenced : find_record "att_a" (run day started).index.records ≡ some referenced_photo
unfolding run step put put_reader prepare put_prepared admit write_bounded rename_object finish
    write_record with_room resolve find_all resolve_found resolved refer_all refer same_record
    encode loaded load_entries load_entry load_shown load_trusted read_record is_hidden sweep swept
    validate_attachment_descriptor check_id check_text is_identifier is_media_type split_once all
    any bytes codes trim decode full is_expired unlink node_at place contains insert_record
    remove_record find_record
photo_referenced = refl

run-Serves_example : Serves two_hosts (run day started) "att_a" referenced_photo
run-Serves_example =
    run-Serves two_hosts 60 one_record one_object day "att_a" referenced_photo one_record-IsListing
      day-Documented photo_referenced

resolve-IsResolved_example :
    IsResolved
      ("att_a" ∷ "att_q" ∷ [])
      true
      started
      (resolve two_hosts ("att_a" ∷ "att_q" ∷ []) true started)
resolve-IsResolved_example = resolve-IsResolved two_hosts ("att_a" ∷ "att_q" ∷ []) true started

put-IsPut_example :
    IsPut two_hosts
      (4 ∷ 5 ∷ [])
      started
      (put two_hosts putting "note.txt" "text/plain" (4 ∷ 5 ∷ []) started)
put-IsPut_example = put-IsPut two_hosts putting "note.txt" "text/plain" (4 ∷ 5 ∷ []) started

-- A store whose bytes are used up by a record that is within its retention.
abbrev used_up : Store
used_up = record {
  index = record { records = photo_record ∷ []; bytes = 268435456 };
  objects = ("att_a", file (1 ∷ 2 ∷ 3 ∷ [])) ∷ [];
  metadata = ("att_a.json", file (7 ∷ [])) ∷ [];
}

used_up-refuses :
    put two_hosts putting "note.txt" "text/plain" (4 ∷ 5 ∷ []) used_up ≡ (err quota, used_up)
unfolding put check_id is_identifier check_text trim any codes is_media_type split_once
used_up-refuses = refl

put-IsSpace_example :
    IsSpace (some 100) 2 (put two_hosts putting "note.txt" "text/plain" (4 ∷ 5 ∷ []) used_up)
put-IsSpace_example = put-IsSpace two_hosts putting "note.txt" "text/plain" (4 ∷ 5 ∷ []) used_up

note_valid : validate_attachment_descriptor note ≡ ok tt
unfolding validate_attachment_descriptor check_id check_text is_identifier is_media_type split_once
    all any bytes codes trim
note_valid = refl

note-Works : Works two_hosts putting 100 note
unfolding same_record encode decode
note-Works = (refl, refl, refl, refl, refl, refl, (9 ∷ [], refl))

room_for_note : full 2 (with_room two_hosts 2 100 as_started).index ≡ false
unfolding with_room full
room_for_note = refl

put-Succeeds_example :
    (put two_hosts putting "note.txt" "text/plain" (4 ∷ 5 ∷ []) as_started).0 ≡ ok note
put-Succeeds_example =
    put-Succeeds two_hosts putting 100 note (4 ∷ 5 ∷ []) as_started note-Works note_valid refl
      (omega arith) (omega arith) room_for_note
