-- ===== src/Conversation/Tests.antt =====
-- Runs of the replay of host/service/src/conversation.rs, and its theorems at concrete inputs.
use mathlib.Core.Logic.{ite, if_pos, if_neg}
use native.Mathlib.Decide.{ℕ_discrete}
use scufris.Base.{
  ℕ, String, true, false, Option, none, some, List, [], ◌∷◌, ◌++◌, map, All, ◌≡◌, refl, arith, ◌==◌,
  if◌then◌else◌,
}
use scufris.Base.Result.{ok}
use scufris.Control.Message.{ConversationMessage, user}
use scufris.Control.Message.{
  validate_conversation_message, check_id, check_text, calls, attachment_descriptors,
  for_each_after, citations,
}
use scufris.Control.Text.{is_identifier, any}
use scufris.Base.Text.{trim, String-discrete}
use scufris.Conversation.{
  StoredEntry, ConversationHistory, push, resequence, messages, contains_delivery, take_in_entries,
  page_entry, u64_max,
}
use scufris.Base.Files.{file, absent, nowhere, before_rename, after_rename}
use scufris.Conversation.Store.{
  Json, StoredConversation, Disk, record_delivery, take_offer, persist,
}
use scufris.Conversation.Load.{empty_history, open_history}
use scufris.Conversation.Ring.{IsRing, latest}
use scufris.Conversation.Pages.{after, read_pages, read_pages-after}
use scufris.Conversation.Delivery.{OnceDelivered, record_delivery_once}
use scufris.Conversation.Offers.{OnceTaken, take_offer_once}
use scufris.Conversation.Restart.{ReadsBack, IsAccepted, open_history-persist}
use scufris.Conversation.Runs.{
  Call, Entry, records, delivers, takes, run, step, recordings, said, run-IsRing, messages-run,
}

-- Messages whose widgets carry numbers for JSON values.
abbrev says : String → ConversationMessage ℕ
says words = record {
  role = user;
  surface = "desk";
  text = words;
  details = none;
  widgets = none;
  attachments = [];
  receipts = [];
}

abbrev offering : ConversationMessage ℕ
offering = record (says "done") {
  receipts =
      record {
        job_id = "job-1";
        badges = [];
        offers = record { id = "offer-1"; label = "again"; taken = false } ∷ [];
      }
      ∷ [];
}

Entry-discrete : Discrete (StoredEntry ℕ)
Entry-discrete = hlevel (String-discrete, ℕ_discrete)

Stored-discrete : Discrete (StoredConversation ℕ)
Stored-discrete = hlevel (String-discrete, ℕ_discrete)

abbrev one_entry : StoredEntry ℕ
one_entry = record { sequence = 1; delivery_id = none; message = says "hello" }

abbrev one_state : StoredConversation ℕ
one_state = record { version = 1; entries = one_entry ∷ [] }

abbrev parse_one : List ℕ → Option (StoredConversation ℕ)
parse_one [] = none
parse_one (b ∷ bs) = if b == 7 then some one_state else none

-- A JSON library that writes and reads back one state, as the byte 7.
abbrev one_json : Json ℕ
one_json = record {
  Tree = StoredConversation ℕ;
  to_vec = λ s. ite (Stored-discrete s one_state) (some (7 ∷ [])) none;
  from_slice = parse_one;
  version_of = λ t. some t.version;
  from_value = λ t. some t;
  encoded_size = λ v. v;
  value_eq = Entry-discrete;
}

written-one_json :
    (s : StoredConversation ℕ) (encoded : List ℕ)
    → one_json.to_vec s ≡ some encoded
    → (s ≡ one_state) × (encoded ≡ 7 ∷ [])
written-one_json s encoded e = elim (Stored-discrete s one_state) [
  | yes same ↦ (
    same,
    cc (e, if_pos {C = Option (List ℕ)} (Stored-discrete s one_state) same (some (7 ∷ [])) none),
  )
  | no other ↦ absurd (
      cc (e, if_neg {C = Option (List ℕ)} (Stored-discrete s one_state) other (some (7 ∷ [])) none))
]

one_json-ReadsBack : ReadsBack one_json
one_json-ReadsBack state encoded e =
    let (same, seven) = written-one_json state encoded e in
    (one_state, rw seven refl, rw same refl, rw same refl)

-- A full ring of words, and one whose next sequence is the greatest.
abbrev two_entries : ConversationHistory ℕ
two_entries = record {
  entries = one_entry ∷ record one_entry { sequence = 2; message = says "again" } ∷ [];
  next_sequence = u64_max;
}

two_entries-IsRing : IsRing two_entries
two_entries-IsRing = record {
  bounded = omega arith;
  rising = (omega arith, (omega arith, omega arith));
  fits = omega arith;
}

one_history : ConversationHistory ℕ
one_history = record { entries = one_entry ∷ []; next_sequence = 2 }

abbrev no_disk : Disk
no_disk = record { snapshot = absent; incompatible = absent; corrupt = absent }

abbrev offered : ConversationHistory ℕ
offered = record {
  entries = record { sequence = 1; delivery_id = some "d"; message = offering } ∷ [];
  next_sequence = 2;
}

-- At the end of the numbers the ring is numbered afresh.
push_afresh : (push two_entries (says "more") none).1 ≡ 3
unfolding push resequence
push_afresh = refl

read_pages-after_example : read_pages 3 two_entries 0 ≡ map page_entry (after 0 two_entries.entries)
read_pages-after_example = read_pages-after 3 two_entries 0 two_entries-IsRing (omega arith)

-- A JSON library that has an encoding of every state.
abbrev any_json : Json ℕ
any_json = record one_json { to_vec = λ s. some (7 ∷ []) }

-- The delivery is recorded as new.
delivered_new : (record_delivery any_json nowhere offered "e" (says "x") no_disk).0 ≡ ok true
unfolding record_delivery contains_delivery push
delivered_new = refl

record_delivery_once_example :
    OnceDelivered any_json "e" offered no_disk
      (record_delivery any_json nowhere offered "e" (says "x") no_disk)
record_delivery_once_example = record_delivery_once any_json nowhere offered "e" (says "x") no_disk

-- The offer is taken.
offer_taken_now : (take_offer any_json nowhere offered "offer-1" no_disk).0 ≡ ok true
unfolding take_offer take_in_entries
offer_taken_now = refl

take_offer_once_example :
    OnceTaken any_json "offer-1" offered no_disk
      (take_offer any_json nowhere offered "offer-1" no_disk)
take_offer_once_example = take_offer_once any_json nowhere offered "offer-1" no_disk

abbrev one_disk : Disk
one_disk = record no_disk { snapshot = file (7 ∷ b'\n' ∷ []) }

one_state_written : one_json.to_vec one_state ≡ some (7 ∷ [])
one_state_written =
    if_pos {C = Option (List ℕ)} (Stored-discrete one_state one_state) refl (some (7 ∷ [])) none

one_stored : persist one_json nowhere one_history no_disk ≡ (ok tt, one_disk)
unfolding persist one_history
one_stored = rw one_state_written refl

one-IsAccepted : All (IsAccepted one_json) one_history.entries
unfolding one_history validate_conversation_message check_id is_identifier check_text trim any calls
    attachment_descriptors for_each_after citations
one-IsAccepted = (refl, tt)

one_history-IsRing : IsRing one_history
unfolding one_history
one_history-IsRing = record {
  bounded = omega arith;
  rising = (omega arith, omega arith);
  fits = omega arith;
}

open_history-persist_example :
    let (h', disk') = open_history one_json true nowhere true one_disk in
    (h'.entries ≡ one_history.entries) × IsRing h' × (disk' ≡ one_disk)
open_history-persist_example =
    open_history-persist one_json nowhere nowhere true one_history no_disk one_disk
      one_json-ReadsBack one_history-IsRing one-IsAccepted one_stored

abbrev busy : List (Call ℕ)
busy =
    records before_rename (says "a")
    ∷ delivers nowhere "d" offering
    ∷ delivers after_rename "d" (says "b")
    ∷ takes nowhere "offer-1"
    ∷ []

run-IsRing_example : IsRing (run one_json (empty_history, no_disk) busy).0
run-IsRing_example = run-IsRing one_json no_disk busy

-- Words, a delivery and the same delivery again, onto a replay that a start read back.
abbrev entries : List (Entry ℕ)
entries =
    (nowhere, none, says "a") ∷ (nowhere, some "e", says "b") ∷ (nowhere, some "e", says "c") ∷ []

-- The delivery counts once.
entries_said : said any_json (one_history, no_disk) entries ≡ says "a" ∷ says "b" ∷ []
unfolding said step one_history push contains_delivery
entries_said = refl

messages-run_example :
    messages (run any_json (one_history, no_disk) (recordings entries)).0.entries
    ≡ latest (messages one_history.entries ++ said any_json (one_history, no_disk) entries)
messages-run_example = messages-run any_json one_history no_disk entries one_history-IsRing
