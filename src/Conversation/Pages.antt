-- ===== src/Conversation/Pages.antt =====
-- The pages of the replay of host/service/src/conversation.rs, as a catching-up reader sees them.
use scufris.Base.{
  ℕ, zero, suc, ◌+◌, ◌-◌, ◌≤◌, ◌<◌, List, [], ◌∷◌, ◌++◌, length, take, drop, map, map-append,
  take-append-drop, length-drop, ltb, if◌then◌else◌, ◌≡◌, refl, arith, Bool-cases, inl, inr, sym,
  ap, ◌∙◌,
}
use scufris.Conversation.{
  StoredEntry, ConversationHistory, ConversationEntry, max_conversation_page, entries_since,
  page_entry, fill_page, last_sequence,
}
use scufris.Conversation.Ring.{Rising, IsRing}

-- The sequence that a reader has reached after a page.
last_of : ℕ → List ConversationEntry → ℕ
last_of since [] = since
last_of since (entry ∷ rest) = last_of entry.sequence rest

module _ {Value : Type 0} where
  -- The entries after a sequence.
  abbrev pub after : ℕ → List (StoredEntry Value) → List (StoredEntry Value)
  after since [] = []
  after since (entry ∷ rest) =
      if ltb since entry.sequence then entry ∷ after since rest else after since rest

  fill_page-after :
      (since taken room : ℕ) (xs : List (StoredEntry Value))
      → taken + room ≡ max_conversation_page
      → fill_page since taken xs
        ≡ (map page_entry (take room (after since xs)), ltb room (length (after since xs)))
  unfolding fill_page
  fill_page-after since taken zero [] e = ground arith
  fill_page-after since taken (suc room) [] e = ground arith
  fill_page-after since taken zero (x ∷ xs) e =
      ground (arith, fill_page-after since taken zero xs e)
  fill_page-after since taken (suc room) (x ∷ xs) e = ground (
    arith,
    fill_page-after since taken (suc room) xs e,
    fill_page-after since (taken + 1) room xs (omega arith),
  )

  -- A page is the first 64 of the entries after the sequence asked for, in order, and `more` says
  -- exactly whether there are others.
  pub entries_since-after :
      (h : ConversationHistory Value) (since : ℕ)
      → entries_since h since ≡ (
        map page_entry (take max_conversation_page (after since h.entries)),
        ltb max_conversation_page (length (after since h.entries)),
      )
  unfolding entries_since
  entries_since-after h since = fill_page-after since 0 max_conversation_page h.entries refl

  abbrev Above : ℕ → List (StoredEntry Value) → Type 0
  Above low [] = Unit
  Above low (x ∷ xs) = (low < x.sequence) × Above x.sequence xs

  Rising-Above : (low high : ℕ) (xs : List (StoredEntry Value)) → Rising low high xs → Above low xs
  Rising-Above low high [] r = tt
  Rising-Above low high (x ∷ xs) (lt, r) = (lt, Rising-Above x.sequence high xs r)

  after_all : (s low : ℕ) (xs : List (StoredEntry Value)) → s ≤ low → Above low xs → after s xs ≡ xs
  after_all s low [] le r = refl
  after_all s low (x ∷ xs) le (lt, r) = ground (arith, after_all s x.sequence xs (omega arith) r)

  Above-after :
      (since low : ℕ) (xs : List (StoredEntry Value)) → Above low xs → Above since (after since xs)
  Above-after since low [] r = tt
  Above-after since low (x ∷ xs) (lt, r) = elim (Bool-cases (ltb since x.sequence)) [
    | inl later ↦ rw (later, after_all since x.sequence xs (ground arith) r) (ground arith, r)
    | inr earlier ↦ rw earlier (Above-after since x.sequence xs r)
  ]

  after-after :
      (since s : ℕ) (xs : List (StoredEntry Value))
      → since ≤ s
      → after s (after since xs) ≡ after s xs
  after-after since s [] le = refl
  after-after since s (x ∷ xs) le = ground (arith, after-after since s xs le)

  last_sequence-take :
      (low k : ℕ) (xs : List (StoredEntry Value))
      → Above low xs
      → (low ≤ last_sequence low (take k xs))
        × (after (last_sequence low (take k xs)) xs ≡ drop k xs)
  unfolding last_sequence
  last_sequence-take low zero xs r = (omega arith, after_all low low xs (omega arith) r)
  last_sequence-take low (suc k) [] r = (omega arith, refl)
  last_sequence-take low (suc k) (x ∷ xs) (lt, r) =
      let (ge, rest) = last_sequence-take x.sequence k xs r in (omega arith, ground arith)

  last_of-map :
      (since : ℕ) (xs : List (StoredEntry Value))
      → last_of since (map page_entry xs) ≡ last_sequence since xs
  unfolding last_of last_sequence
  last_of-map since [] = refl
  last_of-map since (x ∷ xs) = last_of-map x.sequence xs

  -- A reader that asks again from the last sequence it was given for as long as it is told that
  -- more follow, `fuel` times at most.
  unfoldable pub read_pages : ℕ → ConversationHistory Value → ℕ → List ConversationEntry
  unfolding last_of
  read_pages zero h since = []
  read_pages (suc fuel) h since =
      let (page, more) = entries_since h since in
      let rest = read_pages fuel h (last_of since page) in if more then page ++ rest else page

  take_all : (k : ℕ) (xs : List (StoredEntry Value)) → length xs ≤ k → take k xs ≡ xs
  take_all zero [] h = refl
  take_all zero (x ∷ xs) h = absurd (omega arith)
  take_all (suc k) [] h = refl
  take_all (suc k) (x ∷ xs) h = ap (◌∷◌ x) (take_all k xs (omega arith))

  -- Such a reader of a replay that keeps its invariant gets every entry after its sequence exactly
  -- once and in order, if its rounds are more than those entries.
  pub read_pages-after :
      (fuel : ℕ) (h : ConversationHistory Value) (since : ℕ)
      → IsRing h
      → length (after since h.entries) < fuel
      → read_pages fuel h since ≡ map page_entry (after since h.entries)
  unfolding read_pages
  read_pages-after zero h since v enough = absurd (omega arith)
  read_pages-after (suc fuel) h since v enough =
      rw (entries_since-after h since) (elim (Bool-cases (ltb max_conversation_page (length ys))) [
        | inl more ↦
            let many : max_conversation_page < length ys = ground arith in
            rw (
              more,
              last_of-map since (take max_conversation_page ys),
              read_pages-after fuel h reached v (rw left (omega (arith, left_length, many))),
              left,
              ← map-append,
              take-append-drop max_conversation_page ys,
            )
        | inr last ↦ rw (last, take_all max_conversation_page ys (ground arith))
      ])
    where
      ys : List (StoredEntry Value)
      ys = after since h.entries

      reached : ℕ
      reached = last_sequence since (take max_conversation_page ys)

      step : (since ≤ reached) × (after reached ys ≡ drop max_conversation_page ys)
      step =
          last_sequence-take since max_conversation_page ys
            (Above-after since 0 h.entries (Rising-Above 0 h.next_sequence h.entries v.rising))

      left : after reached h.entries ≡ drop max_conversation_page ys
      left = sym (after-after since reached h.entries step.0) ∙ step.1

      left_length : length (drop max_conversation_page ys) ≡ length ys - max_conversation_page
      left_length = length-drop max_conversation_page ys
