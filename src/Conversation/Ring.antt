-- ===== src/Conversation/Ring.antt =====
-- The invariant of the replay of host/service/src/conversation.rs: its bound, and its sequences.
use scufris.Base.{
  ℕ, suc, ◌+◌, ◌-◌, ◌≤◌, ◌<◌, String, Option, List, [], ◌∷◌, ◌++◌, length, length-append, drop,
  ◌==◌, ◌≡◌, refl, arith, Bool-cases, inl, inr, ap,
}
use scufris.Control.Message.{ConversationMessage}
use scufris.Conversation.{
  StoredEntry, ConversationHistory, conversation_entries, u64_max, push, resequence, messages,
  numbered, with_room, pop_front, renumber,
}

module _ {Value : Type 0} where
  -- The sequences rise, strictly between the two bounds.
  abbrev pub Rising : ℕ → ℕ → List (StoredEntry Value) → Type 0
  Rising low high [] = low < high
  Rising low high (entry ∷ rest) = (low < entry.sequence) × Rising entry.sequence high rest

  pub record IsRing (h : ConversationHistory Value) : Type 0 where
    pub bounded : length h.entries ≤ conversation_entries
    pub rising : Rising 0 h.next_sequence h.entries
    pub fits : h.next_sequence ≤ u64_max

  Rising-lower :
      (low low' high : ℕ) (xs : List (StoredEntry Value))
      → low' ≤ low
      → Rising low high xs
      → Rising low' high xs
  Rising-lower low low' high [] le r = omega arith
  Rising-lower low low' high (x ∷ xs) le (above, r) = (omega arith, r)

  Rising-snoc :
      (low high : ℕ) (xs : List (StoredEntry Value)) (x : StoredEntry Value)
      → x.sequence ≡ high
      → Rising low high xs
      → Rising low (high + 1) (xs ++ x ∷ [])
  Rising-snoc low high [] x e r = omega arith
  Rising-snoc low high (y ∷ xs) x e (above, r) = (above, Rising-snoc y.sequence high xs x e r)

  Rising-pop_front :
      (high : ℕ) (xs : List (StoredEntry Value)) → Rising 0 high xs → Rising 0 high (pop_front xs)
  Rising-pop_front high [] r = r
  Rising-pop_front high (x ∷ xs) (above, r) = Rising-lower x.sequence 0 high xs (omega arith) r

  Rising-with_room :
      (high : ℕ) (xs : List (StoredEntry Value)) → Rising 0 high xs → Rising 0 high (with_room xs)
  Rising-with_room high xs r = elim (Bool-cases (length xs == conversation_entries)) [
    | inl full ↦ rw full (Rising-pop_front high xs r)
    | inr room ↦ rw room r
  ]

  Rising-renumber :
      (index high : ℕ) (xs : List (StoredEntry Value))
      → high ≡ index + length xs + 1
      → Rising index high (renumber index xs)
  unfolding renumber
  Rising-renumber index high [] e = omega arith
  Rising-renumber index high (x ∷ xs) e =
      (omega arith, Rising-renumber (index + 1) high xs (omega arith))

  pub length-renumber :
      (index : ℕ) (xs : List (StoredEntry Value)) → length (renumber index xs) ≡ length xs
  unfolding renumber
  length-renumber index [] = refl
  length-renumber index (x ∷ xs) = ap suc (length-renumber (index + 1) xs)

  length-with_room :
      (xs : List (StoredEntry Value))
      → length xs ≤ conversation_entries
      → length (with_room xs) + 1 ≤ conversation_entries
  length-with_room [] h = omega arith
  length-with_room (x ∷ xs) h = ground arith

  resequence-IsRing : (h : ConversationHistory Value) → IsRing h → IsRing (resequence h)
  unfolding resequence
  resequence-IsRing h v = record {
    bounded = omega (arith, length-renumber 0 h.entries, v.bounded);
    rising = Rising-renumber 0 (length h.entries + 1) h.entries (omega arith);
    fits = omega (arith, v.bounded);
  }

  numbered_below :
      (h : ConversationHistory Value)
      → IsRing h
      → IsRing (numbered h) × ((numbered h).next_sequence < u64_max)
  unfolding resequence
  numbered_below h v = elim (Bool-cases (h.next_sequence == u64_max)) [
    | inl top ↦ rw top (resequence-IsRing h v, omega (arith, v.bounded))
    | inr below ↦ rw below (v, ground (arith, v.fits))
  ]

  -- Recording keeps the replay within its 200 entries, its sequences strictly rising, above 0 and
  -- below the next one, and the next one within a `u64`, where they were so before.
  pub push-IsRing :
      (h : ConversationHistory Value) (m : ConversationMessage Value) (id : Option String)
      → IsRing h
      → IsRing (push h m id).0
  unfolding push
  push-IsRing h m id v =
      let (n, below) = numbered_below h v in
      record {
        bounded = omega (
          arith,
          length-append {0} (with_room (numbered h).entries) _,
          length-with_room (numbered h).entries n.bounded,
        );
        rising =
            Rising-snoc 0 (numbered h).next_sequence (with_room (numbered h).entries) _ refl
              (Rising-with_room _ (numbered h).entries n.rising);
        fits = omega arith;
      }

  -- The newest messages, at most as many as the replay holds.
  abbrev pub latest : List (ConversationMessage Value) → List (ConversationMessage Value)
  latest ms = drop (length ms - conversation_entries) ms

  messages-append :
      (xs ys : List (StoredEntry Value)) → messages (xs ++ ys) ≡ messages xs ++ messages ys
  unfolding messages
  messages-append [] ys = refl
  messages-append (x ∷ xs) ys = ap (◌∷◌ x.message) (messages-append xs ys)

  pub length-messages : (xs : List (StoredEntry Value)) → length (messages xs) ≡ length xs
  unfolding messages
  length-messages [] = refl
  length-messages (x ∷ xs) = ap suc (length-messages xs)

  messages-renumber :
      (index : ℕ) (xs : List (StoredEntry Value)) → messages (renumber index xs) ≡ messages xs
  unfolding messages renumber
  messages-renumber index [] = refl
  messages-renumber index (x ∷ xs) = ap (◌∷◌ x.message) (messages-renumber (index + 1) xs)

  messages-numbered :
      (h : ConversationHistory Value) → messages (numbered h).entries ≡ messages h.entries
  unfolding resequence
  messages-numbered h = elim (Bool-cases (h.next_sequence == u64_max)) [
    | inl top ↦ rw top (messages-renumber 0 h.entries)
    | inr below ↦ rw below refl
  ]

  messages-with_room :
      (xs : List (StoredEntry Value)) (m : ConversationMessage Value)
      → length xs ≤ conversation_entries
      → messages (with_room xs) ++ m ∷ [] ≡ latest (messages xs ++ m ∷ [])
  unfolding messages
  messages-with_room [] m h = refl
  messages-with_room (x ∷ xs) m h = elim (Bool-cases (length (x ∷ xs) == conversation_entries)) [
    | inl full ↦
        let excess : length (messages (x ∷ xs) ++ m ∷ []) - conversation_entries ≡ 1 =
          ground (arith, length-append (messages xs) (m ∷ []), length-messages xs) in
        rw (full, excess) refl
    | inr room ↦
        let excess : length (messages (x ∷ xs) ++ m ∷ []) - conversation_entries ≡ 0 =
          ground (arith, length-append (messages xs) (m ∷ []), length-messages xs) in
        rw (room, excess) refl
  ]

  -- Recording a message keeps the newest 200 of all that were there and it, in order, also when
  -- the sequences had to be numbered afresh; the replay keeps its invariant before it.
  pub messages-push :
      (h : ConversationHistory Value) (m : ConversationMessage Value) (id : Option String)
      → IsRing h
      → messages (push h m id).0.entries ≡ latest (messages h.entries ++ m ∷ [])
  unfolding push messages
  messages-push h m id v = rw (
    messages-append (with_room (numbered h).entries) _,
    messages-with_room (numbered h).entries m (numbered_below h v).0.bounded,
    messages-numbered h,
  )
