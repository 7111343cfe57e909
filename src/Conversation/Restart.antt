-- ===== src/Conversation/Restart.antt =====
-- What a restart reads back of what host/service/src/conversation.rs stored.
use scufris.Base.{
  ℕ, zero, suc, ◌+◌, ◌≤◌, ◌<◌, Bool, true, false, Option, none, some, List, [], ◌∷◌, ◌++◌, length,
  All, All-append, append_assoc, append-nil, ◌==◌, ltb, ◌≡◌, refl, arith, ap, ◌∙◌,
}
use scufris.Base.Result.{ok}
use scufris.Control.Message.{validate_conversation_message}
use scufris.Conversation.{
  StoredEntry, ConversationHistory, conversation_entries, u64_max, set_next_sequence, max_sequence,
}
use scufris.Base.Files.{Fault, file}
use scufris.Conversation.Store.{
  Json, StoredConversation, format_version, max_file_bytes, Disk, persist, write_bounded,
}
use scufris.Conversation.Load.{open_history, deduplicate, trim_front, find_sequence, decode}
use scufris.Conversation.Ring.{Rising, IsRing}

-- Documented behaviour of `serde_json`: what `to_vec` wrote, and a line feed after it, reads back
-- as the state that was written, with its version as a numeric field.
abbrev pub ReadsBack : {Value : Type 0} → Json Value → Type 0
ReadsBack {Value} json =
    (state : StoredConversation Value) (encoded : List ℕ)
    → json.to_vec state ≡ some encoded
    → (tree : json.Tree) × (json.from_slice (encoded ++ b'\n' ∷ []) ≡ some tree)
      × (json.version_of tree ≡ some state.version)
      × (json.from_value tree ≡ some state)

module _ {Value : Type 0} (json : Json Value) where
  abbrev pub IsAccepted : StoredEntry Value → Type 0
  IsAccepted entry = validate_conversation_message json.encoded_size entry.message ≡ ok tt

  find_sequence_above :
      (low : ℕ) (sequence : ℕ) (xs : List (StoredEntry Value))
      → All (λ x. x.sequence ≤ low) xs
      → low < sequence
      → find_sequence json sequence xs ≡ none
  unfolding find_sequence
  find_sequence_above low sequence [] h lt = refl
  find_sequence_above low sequence (x ∷ xs) (le, h) lt =
      ground (arith, find_sequence_above low sequence xs h lt)

  All-below :
      (low low' : ℕ) (xs : List (StoredEntry Value))
      → low ≤ low'
      → All (λ x. x.sequence ≤ low) xs
      → All (λ x. x.sequence ≤ low') xs
  All-below low low' [] le h = tt
  All-below low low' (x ∷ xs) le (hx, h) = (omega arith, All-below low low' xs le h)

  deduplicate-Rising :
      (low high : ℕ) (kept xs : List (StoredEntry Value)) (normalized : Bool)
      → All (λ x. x.sequence ≤ low) kept
      → Rising low high xs
      → All IsAccepted xs
      → deduplicate json kept normalized xs ≡ ok (kept ++ xs, normalized)
  unfolding deduplicate
  deduplicate-Rising low high kept [] normalized below r a = rw append-nil
  deduplicate-Rising low high kept (x ∷ xs) normalized below (lt, r) (ax, a) =
      rw (ax, find_sequence_above low x.sequence kept below lt, deduplicate)
        (deduplicate-Rising x.sequence high (kept ++ x ∷ []) xs normalized
            (All-append _ kept (x ∷ []) (All-below low x.sequence kept (omega arith) below)
              (omega arith))
            r a
          ∙ ap (λ l. ok (l, normalized)) (append_assoc kept (x ∷ []) xs))

  max_sequence-Rising :
      (low high : ℕ) (xs : List (StoredEntry Value))
      → Rising low high xs
      → (max_sequence low xs < high) × Rising low (max_sequence low xs + 1) xs
  unfolding max_sequence
  max_sequence-Rising low high [] r = (r, omega arith)
  max_sequence-Rising low high (x ∷ xs) (lt, r) =
      let (below, rest) = max_sequence-Rising x.sequence high xs r in
      let later : ltb low x.sequence ≡ true = ground arith in
      rw (later, max_sequence) (below, (lt, rest))

  write_bounded-file :
      (fault : Fault) (state : Option (List ℕ)) (disk disk' : Disk)
      → write_bounded json fault state disk ≡ (ok tt, disk')
      → (encoded : List ℕ) × (state ≡ some encoded)
        × (length (encoded ++ b'\n' ∷ []) ≤ max_file_bytes)
        × (disk'.snapshot ≡ file (encoded ++ b'\n' ∷ []))
  unfolding write_bounded
  write_bounded-file fault none disk disk' e = absurd (cc)
  write_bounded-file fault (some encoded) disk disk' e = (encoded, refl, ground arith, ground arith)

  trim_front_room :
      (rounds : ℕ) (xs : List (StoredEntry Value)) (normalized : Bool)
      → length xs ≤ conversation_entries
      → trim_front json rounds (xs, normalized) ≡ (xs, normalized)
  unfolding trim_front
  trim_front_room zero xs normalized h = refl
  trim_front_room (suc rounds) xs normalized h = ground arith

  decode-RoundTrip :
      (h : ConversationHistory Value) (encoded : List ℕ)
      → ReadsBack json
      → IsRing h
      → All IsAccepted h.entries
      → json.to_vec (record { version = format_version; entries = h.entries }) ≡ some encoded
      → decode json (encoded ++ b'\n' ∷ []) ≡ ok (h.entries, false)
  unfolding decode
  decode-RoundTrip h encoded back v a e =
      let (tree, parsed, version, state) = back _ encoded e in
      rw (
        parsed,
        version,
        state,
        deduplicate-Rising 0 h.next_sequence [] h.entries false tt v.rising a,
        trim_front_room (length h.entries) h.entries false v.bounded,
      )

  set_next_sequence-IsRing :
      (h : ConversationHistory Value) (n : ℕ)
      → IsRing h
      → let h' = set_next_sequence (record { entries = h.entries; next_sequence = n }) in
        (h'.entries ≡ h.entries) × IsRing h'
  unfolding set_next_sequence
  set_next_sequence-IsRing h n v =
      let (below, rising) = max_sequence-Rising 0 h.next_sequence h.entries v.rising in
      let room : (max_sequence 0 h.entries == u64_max) ≡ false = ground (arith, v.fits) in
      rw room (refl, record { bounded = v.bounded; rising = rising; fits = omega (arith, v.fits) })

  -- A restart after a snapshot that was stored reads back every entry, in order and under its
  -- sequence, into a replay that keeps the invariant, and leaves the disk as it was; provided that
  -- the JSON library reads back what it wrote, and that each message is one the service accepts.
  pub open_history-persist :
      (fault again : Fault) (moves : Bool) (h : ConversationHistory Value) (disk disk' : Disk)
      → ReadsBack json
      → IsRing h
      → All IsAccepted h.entries
      → persist json fault h disk ≡ (ok tt, disk')
      → let (h', disk'') = open_history json true again moves disk' in
        (h'.entries ≡ h.entries) × IsRing h' × (disk'' ≡ disk')
  unfolding open_history persist
  open_history-persist fault again moves h disk disk' back v a stored =
      let (encoded, written, small, at) = write_bounded-file fault _ disk disk' stored in
      let fits : ltb max_file_bytes (length (encoded ++ b'\n' ∷ [])) ≡ false = ground arith in
      let (same, ring) = set_next_sequence-IsRing h 1 v in
      rw (at, open_history, fits, decode-RoundTrip h encoded back v a written) (same, ring, refl)
