-- ===== src/Conversation/Runs.antt =====
-- Whole lives of the replay of host/service/src/conversation.rs: any sequence of recorded
-- messages, deliveries and taken offers, whatever the file system does to each write.
use scufris.Base.{
  ℕ, zero, suc, ◌+◌, ◌-◌, ◌≤◌, ◌<◌, String, Bool, false, Option, none, some, if◌then◌else◌, List,
  [], ◌∷◌, ◌++◌, length, length-append, length-drop, drop, append_assoc, append-nil, ◌≡◌, refl,
  arith, Bool-cases, inl, inr, sym, ap, ◌∙◌,
}
use native.Mathlib.Nat.{zero-add, suc-add}
use scufris.Base.Result.{ok, err}
use scufris.Control.Message.{ConversationMessage}
use scufris.Conversation.{
  StoredEntry, ConversationHistory, conversation_entries, push, messages, take_in_entries,
  take_in_entry, first_found, Found, missing, closed, opened, contains_delivery,
}
use scufris.Base.Files.{Fault}
use scufris.Conversation.Store.{
  Json, Disk, Written, record_message, record_delivery, take_offer, persist, keep_if_stored,
  take_found, Stored,
}
use scufris.Conversation.Load.{empty_history}
use scufris.Conversation.Ring.{Rising, IsRing, push-IsRing, messages-push, latest, length-messages}

drop-nil {ℓ} : {A : Type ℓ} (k : ℕ) → drop {A = A} k [] ≡ []
drop-nil zero = refl
drop-nil (suc k) = refl

drop-drop {ℓ} : {A : Type ℓ} (j k : ℕ) (xs : List A) → drop j (drop k xs) ≡ drop (k + j) xs
drop-drop j zero xs = rw (zero-add)
drop-drop j (suc k) [] = drop-nil j ∙ sym (drop-nil (suc k + j))
drop-drop j (suc k) (x ∷ xs) = rw suc-add (drop-drop j k xs)

drop-append_left {ℓ} :
    {A : Type ℓ} (k : ℕ) (xs ys : List A) → k ≤ length xs → drop k (xs ++ ys) ≡ drop k xs ++ ys
drop-append_left zero xs ys h = refl
drop-append_left (suc k) [] ys h = absurd (omega arith)
drop-append_left (suc k) (x ∷ xs) ys h = drop-append_left k xs ys (omega arith)

module _ {Value : Type 0} where
  -- Keeping the newest, step by step, keeps the newest of all.
  latest-append :
      (ms more : List (ConversationMessage Value))
      → latest (latest ms ++ more) ≡ latest (ms ++ more)
  latest-append ms more =
      let k = length ms - conversation_entries in
      let whole = length-append ms more in
      let part : length (drop k ms ++ more) ≡ (length ms - k) + length more =
        omega (arith, length-append (drop k ms) more, length-drop k ms) in
      let sum : k + (length (drop k ms ++ more) - conversation_entries)
          ≡ length (ms ++ more) - conversation_entries =
        omega (arith, whole, part) in
      ap (drop (length (drop k ms ++ more) - conversation_entries))
        (sym (drop-append_left k ms more (omega arith)))
      ∙ drop-drop (length (drop k ms ++ more) - conversation_entries) k (ms ++ more)
      ∙ ap (λ n. drop n (ms ++ more)) sum

  -- A replay that keeps its invariant holds no more than the newest.
  latest_ring :
      (h : ConversationHistory Value) → IsRing h → messages h.entries ≡ latest (messages h.entries)
  latest_ring h v =
      let none_over : length (messages h.entries) - conversation_entries ≡ 0 =
        omega (arith, length-messages h.entries, v.bounded) in
      rw none_over refl

  first_found-shape :
      (low high : ℕ) (e : StoredEntry Value) (es : List (StoredEntry Value))
      (x : StoredEntry Value × Found) (xs : List (StoredEntry Value) × Found)
      → low < e.sequence
      → x.0.sequence ≡ e.sequence
      → Rising e.sequence high es
      → Rising e.sequence high xs.0
      → length xs.0 ≡ length es
      → Rising low high (first_found e es x xs).0
        × (length (first_found e es x xs).0 ≡ suc (length es))
  first_found-shape low high e es (x, missing) (xs, g) lt same r r' len = ((lt, r'), ap suc len)
  first_found-shape low high e es (x, closed) (xs, g) lt same r r' len =
      ((rw same lt, rw same r), refl)
  first_found-shape low high e es (x, opened) (xs, g) lt same r r' len =
      ((rw same lt, rw same r), refl)

  take_in_entries-shape :
      (id : String) (low high : ℕ) (es : List (StoredEntry Value))
      → Rising low high es
      → Rising low high (take_in_entries id es).0 × (length (take_in_entries id es).0 ≡ length es)
  unfolding take_in_entries
  take_in_entries-shape id low high [] r = (r, refl)
  take_in_entries-shape id low high (e ∷ es) (lt, r) =
      let (rest, same) = take_in_entries-shape id e.sequence high es r in
      first_found-shape low high e es (take_in_entry id e) (take_in_entries id es) lt refl r rest
        same

-- One call of the service on the replay, with what the write meets.
pub data Call (Value : Type 0) : Type 0 where
  records : Fault → ConversationMessage Value → Call Value
  delivers : Fault → String → ConversationMessage Value → Call Value
  takes : Fault → String → Call Value

-- A message to record, as a delivery where it has an identity, with what the write meets.
abbrev pub Entry : Type 0 → Type 0
Entry Value = Fault × Option String × ConversationMessage Value

module _ {Value : Type 0} where
  abbrev pub recording : Entry Value → Call Value
  recording (fault, none, m) = records fault m
  recording (fault, some id, m) = delivers fault id m

  abbrev pub recordings : List (Entry Value) → List (Call Value)
  recordings [] = []
  recordings (e ∷ es) = recording e ∷ recordings es

module _ {Value : Type 0} (json : Json Value) where
  abbrev State : Type 0
  State = ConversationHistory Value × Disk

  unfoldable pub step : State → Call Value → State
  unfolding record_message record_delivery take_offer
  step (h, disk) (records fault m) =
      let (r, h', disk') = record_message json fault h m disk in (h', disk')
  step (h, disk) (delivers fault id m) =
      let (r, h', disk') = record_delivery json fault h id m disk in (h', disk')
  step (h, disk) (takes fault id) =
      let (r, h', disk') = take_offer json fault h id disk in (h', disk')

  unfoldable pub run : State → List (Call Value) → State
  unfolding step
  run s [] = s
  run s (c ∷ cs) = run (step s c) cs

  keep_if_stored-IsRing :
      (old new : ConversationHistory Value) (w : Written json)
      → IsRing old
      → IsRing new
      → IsRing (keep_if_stored json old new w).1
  keep_if_stored-IsRing old new (ok u, disk) v v' = v'
  keep_if_stored-IsRing old new (err e, disk) v v' = v

  record_delivery-IsRing :
      (fault : Fault) (h : ConversationHistory Value) (id : String) (m : ConversationMessage Value)
      (disk : Disk)
      → IsRing h
      → IsRing (record_delivery json fault h id m disk).1
  unfolding record_delivery
  record_delivery-IsRing fault h id m disk v = elim (Bool-cases (contains_delivery h id)) [
    | inl there ↦ rw there v
    | inr fresh ↦ rw fresh (
        keep_if_stored-IsRing h (push h m (some id)).0
          (persist json fault (push h m (some id)).0 disk) v (push-IsRing h m (some id) v))
  ]

  take_found-IsRing :
      (fault : Fault) (h : ConversationHistory Value) (es : List (StoredEntry Value)) (f : Found)
      (disk : Disk)
      → IsRing h
      → IsRing (record h { entries = es })
      → IsRing (take_found json fault h es f disk).1
  unfolding take_found
  take_found-IsRing fault h es opened disk v v' = v'
  take_found-IsRing fault h es _ disk v v' = v

  step-IsRing : (s : State) (c : Call Value) → IsRing s.0 → IsRing (step s c).0
  unfolding step
  step-IsRing (h, disk) (records fault m) v = push-IsRing h m none v
  step-IsRing (h, disk) (delivers fault id m) v = record_delivery-IsRing fault h id m disk v
  step-IsRing (h, disk) (takes fault id) v =
      let (rising, same) = take_in_entries-shape id 0 h.next_sequence h.entries v.rising in
      take_found-IsRing fault h (take_in_entries id h.entries).0 (take_in_entries id h.entries).1
        disk v (record { bounded = omega (arith, same, v.bounded); rising = rising; fits = v.fits })

  run-keeps : (s : State) (cs : List (Call Value)) → IsRing s.0 → IsRing (run s cs).0
  unfolding run
  run-keeps s [] v = v
  run-keeps s (c ∷ cs) v = run-keeps (step s c) cs (step-IsRing s c v)

  empty_history-IsRing : IsRing (empty_history {Value = Value})
  empty_history-IsRing = record { bounded = omega arith; rising = omega arith; fits = omega arith }

  -- Through any calls from an empty replay, whatever the file system does to each write, the
  -- replay holds at most 200 entries, its sequences rise strictly, above 0 and below the next one,
  -- and the next one fits a `u64`.
  pub run-IsRing : (disk : Disk) (cs : List (Call Value)) → IsRing (run (empty_history, disk) cs).0
  run-IsRing disk cs = run-keeps (empty_history, disk) cs empty_history-IsRing

  -- Whether a delivery was reported as new.
  abbrev pub is_new : Stored json Bool → Bool
  is_new (ok fresh, h, disk) = fresh
  is_new (err e, h, disk) = false

  -- The message of one recording, where it is recorded: a delivery where it is reported as new.
  unfoldable pub spoken : State → Entry Value → List (ConversationMessage Value)
  unfolding record_delivery
  spoken (h, disk) (fault, none, m) = m ∷ []
  spoken (h, disk) (fault, some id, m) =
      if is_new (record_delivery json fault h id m disk) then m ∷ [] else []

  unfoldable pub said : State → List (Entry Value) → List (ConversationMessage Value)
  unfolding spoken step
  said s [] = []
  said s (e ∷ es) = spoken s e ++ said (step s (recording e)) es

  keep_if_stored-latest :
      (h : ConversationHistory Value) (id : String) (m : ConversationMessage Value)
      (w : Written json)
      → IsRing h
      → let r = keep_if_stored json h (push h m (some id)).0 w in
        messages r.1.entries ≡ latest (messages h.entries ++ (if is_new r then m ∷ [] else []))
  keep_if_stored-latest h id m (ok u, disk) v = messages-push h m (some id) v
  keep_if_stored-latest h id m (err e, disk) v = rw append-nil (latest_ring h v)

  step-latest :
      (s : State) (e : Entry Value)
      → IsRing s.0
      → messages (step s (recording e)).0.entries ≡ latest (messages s.0.entries ++ spoken s e)
  unfolding step spoken record_delivery
  step-latest (h, disk) (fault, none, m) v = messages-push h m none v
  step-latest (h, disk) (fault, some id, m) v = elim (Bool-cases (contains_delivery h id)) [
    | inl there ↦ rw (there, append-nil) (latest_ring h v)
    | inr fresh ↦
        rw fresh (keep_if_stored-latest h id m (persist json fault (push h m (some id)).0 disk) v)
  ]

  run-latest :
      (s : State) (all : List (ConversationMessage Value)) (es : List (Entry Value))
      → IsRing s.0
      → messages s.0.entries ≡ latest all
      → messages (run s (recordings es)).0.entries ≡ latest (all ++ said s es)
  unfolding run said
  run-latest s all [] v e = rw append-nil e
  run-latest s all (x ∷ es) v e =
      run-latest (step s (recording x)) (all ++ spoken s x) es (step-IsRing s (recording x) v)
        (step-latest s x v ∙ ap (λ l. latest (l ++ spoken s x)) e ∙ latest-append all (spoken s x))
      ∙ ap latest (append_assoc all (spoken s x) (said (step s (recording x)) es))

  -- Through any recordings and deliveries, from a replay that keeps its invariant, such as an empty
  -- one or one that a start reads back, and whatever the file system does to each write, the replay
  -- holds the newest 200 of what it held and then of what was recorded, in order; of the deliveries,
  -- those that were reported as new.
  pub messages-run :
      (h : ConversationHistory Value) (disk : Disk) (es : List (Entry Value))
      → IsRing h
      → messages (run (h, disk) (recordings es)).0.entries
        ≡ latest (messages h.entries ++ said (h, disk) es)
  messages-run h disk es v = run-latest (h, disk) (messages h.entries) es v (latest_ring h v)
