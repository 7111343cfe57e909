-- ===== src/Conversation.antt =====
-- host/service/src/conversation.rs: the bounded canonical replay in memory. The queue is a list,
-- its front first; a sequence is a `u64`. A JSON value inside a message is a parameter.
pub mod Store
pub mod Load
pub mod Ring
pub mod Pages
pub mod Remembered
pub mod Delivery
pub mod Offers
pub mod Restart
pub mod Runs
mod Tests
use text.Mathlib.Text.{◌==◌ as ◌=ˢ◌}
use scufris.Base.{
  ℕ, zero, suc, ◌+◌, ◌-◌, ◌^◌, String, Bool, true, false, Option, none, some, List, [], ◌∷◌, ◌++◌,
  length, map, ltb, leb, ◌==◌, if◌then◌else◌,
}
pub use scufris.Control.Message.{ConversationEntry, max_conversation_page}
use scufris.Control.Message.{
  ConversationEntry, max_conversation_page, ConversationRole, ConversationMessage, Citation, Offer,
}

abbrev pub conversation_entries : ℕ
conversation_entries = 200

abbrev pub u64_max : ℕ
u64_max = 2 ^ 64 - 1

pub record StoredEntry (Value : Type 0) : Type 0 where
  pub sequence : ℕ
  pub delivery_id : Option String
  pub message : ConversationMessage Value

pub record ConversationHistory (Value : Type 0) : Type 0 where
  pub entries : List (StoredEntry Value)
  pub next_sequence : ℕ

-- `entries.iter().find(..)` by the identity of a delivery.
abbrev pub is_delivery : String → Option String → Bool
is_delivery id none = false
is_delivery id (some delivery_id) = delivery_id =ˢ id

abbrev pub is_some {ℓ} : {A : Type ℓ} → Option A → Bool
is_some none = false
is_some (some a) = true

module _ {Value : Type 0} where
  unfoldable pub messages : List (StoredEntry Value) → List (ConversationMessage Value)
  messages [] = []
  messages (entry ∷ rest) = entry.message ∷ messages rest

  last_sequence : ℕ → List (StoredEntry Value) → ℕ
  last_sequence found [] = found
  last_sequence found (entry ∷ rest) = last_sequence entry.sequence rest

  -- `entries.back().map_or(0, ..)`.
  unfoldable pub latest_sequence : ConversationHistory Value → ℕ
  unfolding last_sequence
  latest_sequence h = last_sequence 0 h.entries

  abbrev pub page_entry : StoredEntry Value → ConversationEntry
  page_entry entry = record {
    sequence = entry.sequence;
    role = entry.message.role;
    surface = entry.message.surface;
    text = entry.message.text;
  }

  -- The loop of `entries_since`, with the length that the page has reached.
  fill_page : ℕ → ℕ → List (StoredEntry Value) → List ConversationEntry × Bool
  fill_page since taken [] = ([], false)
  fill_page since taken (entry ∷ rest) = elim (ltb since entry.sequence) [
    | false ↦ fill_page since taken rest
    | true ↦ elim (taken == max_conversation_page) [
      | true ↦ ([], true)
      | false ↦
          let (page, more) = fill_page since (taken + 1) rest in (page_entry entry ∷ page, more)
    ]
  ]

  unfoldable pub entries_since : ConversationHistory Value → ℕ → List ConversationEntry × Bool
  unfolding fill_page
  entries_since h since = fill_page since 0 h.entries

  find_delivery : String → List (StoredEntry Value) → Option (ConversationMessage Value)
  find_delivery id [] = none
  find_delivery id (entry ∷ rest) =
      if is_delivery id entry.delivery_id then some entry.message else find_delivery id rest

  unfoldable pub delivery_message :
      ConversationHistory Value → String → Option (ConversationMessage Value)
  unfolding find_delivery
  delivery_message h id = find_delivery id h.entries

  unfoldable pub contains_delivery : ConversationHistory Value → String → Bool
  unfolding delivery_message
  contains_delivery h id = is_some (delivery_message h id)

  pub renumber : ℕ → List (StoredEntry Value) → List (StoredEntry Value)
  renumber index [] = []
  renumber index (entry ∷ rest) = record entry { sequence = index + 1 } ∷ renumber (index + 1) rest

  unfoldable pub resequence : ConversationHistory Value → ConversationHistory Value
  unfolding renumber
  resequence h = record { entries = renumber 0 h.entries; next_sequence = length h.entries + 1 }

  abbrev pub pop_front : List (StoredEntry Value) → List (StoredEntry Value)
  pop_front [] = []
  pop_front (entry ∷ rest) = rest

  -- The history that `push` numbers the new entry in.
  abbrev pub numbered : ConversationHistory Value → ConversationHistory Value
  numbered h = if h.next_sequence == u64_max then resequence h else h

  -- The room that `push` makes in a full ring.
  abbrev pub with_room : List (StoredEntry Value) → List (StoredEntry Value)
  with_room entries = if length entries == conversation_entries then pop_front entries else entries

  unfoldable pub push :
      ConversationHistory Value
      → ConversationMessage Value
      → Option String
      → ConversationHistory Value × ℕ
  push h message delivery_id =
      let n = numbered h in
      let entry : StoredEntry Value = record {
        sequence = n.next_sequence;
        delivery_id = delivery_id;
        message = message;
      } in
      (
        record { entries = with_room n.entries ++ entry ∷ []; next_sequence = n.next_sequence + 1 },
        n.next_sequence,
      )

  max_sequence : ℕ → List (StoredEntry Value) → ℕ
  max_sequence maximum [] = maximum
  max_sequence maximum (entry ∷ rest) =
      max_sequence (if ltb maximum entry.sequence then entry.sequence else maximum) rest

  unfoldable pub set_next_sequence : ConversationHistory Value → ConversationHistory Value
  unfolding max_sequence
  set_next_sequence h =
      let maximum = max_sequence 0 h.entries in
      if maximum == u64_max then resequence h else record h { next_sequence = maximum + 1 }

-- What a search for one offer found: none of that name, one already taken, or one that it took.
pub data Found : Type 0 where
  missing closed opened : Found

-- `.find(|offer| offer.id == id)` over the offers of the replay, and the mark on what it finds.
take_in_offers : String → List Offer → List Offer × Found
take_in_offers id [] = ([], missing)
take_in_offers id (offer ∷ rest) =
    let (rest', found) = take_in_offers id rest in
    if offer.id =ˢ id
    then (if offer.taken
        then (offer ∷ rest, closed)
        else (record offer { taken = true } ∷ rest, opened))
    else (offer ∷ rest', found)

abbrev first_found {ℓ} : {A : Type ℓ} → A → List A → A × Found → List A × Found → List A × Found
first_found x xs (x', missing) (xs', found) = (x ∷ xs', found)
first_found x xs (x', found) _ = (x' ∷ xs, found)

take_in_citation : String → Citation → Citation × Found
unfolding take_in_offers
take_in_citation id citation =
    let (offers, found) = take_in_offers id citation.offers in
    (record citation { offers = offers }, found)

take_in_citations : String → List Citation → List Citation × Found
unfolding take_in_citation
take_in_citations id [] = ([], missing)
take_in_citations id (citation ∷ rest) =
    first_found citation rest (take_in_citation id citation) (take_in_citations id rest)

module _ {Value : Type 0} where
  take_in_entry : String → StoredEntry Value → StoredEntry Value × Found
  unfolding take_in_citations
  take_in_entry id entry =
      let (receipts, found) = take_in_citations id entry.message.receipts in
      (record entry { message = record entry.message { receipts = receipts } }, found)

  unfoldable pub take_in_entries :
      String → List (StoredEntry Value) → List (StoredEntry Value) × Found
  unfolding take_in_entry
  take_in_entries id [] = ([], missing)
  take_in_entries id (entry ∷ rest) =
      first_found entry rest (take_in_entry id entry) (take_in_entries id rest)
