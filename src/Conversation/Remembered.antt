-- ===== src/Conversation/Remembered.antt =====
-- How long a delivery of host/service/src/conversation.rs stays in the replay.
use scufris.Base.{
  ℕ, suc, ◌+◌, ◌≤◌, ◌<◌, String, true, Option, none, some, List, [], ◌∷◌, ◌++◌, length, ◌==◌, ◌≡◌,
  ◌⊎◌, inl, inr, refl, ap, arith, Bool-cases, length-append, eq_refl,
}
use scufris.Base.Result.{ok, err}
use scufris.Base.Files.{Fault}
use scufris.Control.Message.{ConversationMessage}
use scufris.Conversation.{
  StoredEntry, ConversationHistory, conversation_entries, push, resequence, renumber, numbered,
  with_room, u64_max, is_delivery, find_delivery, is_some, contains_delivery, take_in_entries,
  take_in_entry, first_found, Found, missing, closed, opened,
}
use scufris.Conversation.Store.{
  Json, Disk, Written, record_message, record_delivery, take_offer, persist, keep_if_stored,
  take_found,
}
use scufris.Conversation.Ring.{length-renumber}
use scufris.Conversation.Runs.{Call, records, delivers, takes, step, run}

module _ {Value : Type 0} (id : String) where
  -- An entry of the delivery is there, with no more entries after it than so many.
  abbrev pub Within : ℕ → List (StoredEntry Value) → Type 0
  Within k [] = ⊥
  Within k (e ∷ es) = ((is_delivery id e.delivery_id ≡ true) × (length es ≤ k)) ⊎ Within k es

  Within-suc : (k : ℕ) (es : List (StoredEntry Value)) → Within k es → Within (k + 1) es
  Within-suc k [] h = h
  Within-suc k (e ∷ es) (inl (here, few)) = inl (here, omega (arith, few))
  Within-suc k (e ∷ es) (inr there) = inr (Within-suc k es there)

  Within-snoc :
      (k : ℕ) (es : List (StoredEntry Value)) (x : StoredEntry Value)
      → Within k es
      → Within (k + 1) (es ++ x ∷ [])
  Within-snoc k [] x h = absurd h
  Within-snoc k (e ∷ es) x (inl (here, few)) =
      inl (here, omega (arith, few, length-append es (x ∷ [])))
  Within-snoc k (e ∷ es) x (inr there) = inr (Within-snoc k es x there)

  Within-here :
      (es : List (StoredEntry Value)) (x : StoredEntry Value)
      → is_delivery id x.delivery_id ≡ true
      → Within 0 (es ++ x ∷ [])
  Within-here [] x h = inl (h, omega arith)
  Within-here (e ∷ es) x h = inr (Within-here es x h)

  -- An entry that makes room is not the one of the delivery.
  Within-behind :
      (k : ℕ) (e : StoredEntry Value) (es : List (StoredEntry Value))
      → k < length es
      → Within k (e ∷ es)
      → Within k es
  Within-behind k e es far (inl (here, few)) = absurd (omega (arith, far, few))
  Within-behind k e es far (inr there) = there

  Within-with_room :
      (k : ℕ) (es : List (StoredEntry Value))
      → k + 1 < conversation_entries
      → Within k es
      → Within k (with_room es)
  Within-with_room k [] small h = absurd h
  Within-with_room k (e ∷ es) small h =
      elim (Bool-cases (length (e ∷ es) == conversation_entries)) [
        | inl full ↦ rw full (Within-behind k e es (ground (arith, small, full)) h)
        | inr room ↦ rw room h
      ]

  Within-renumber :
      (k index : ℕ) (es : List (StoredEntry Value)) → Within k es → Within k (renumber index es)
  unfolding renumber
  Within-renumber k index [] h = h
  Within-renumber k index (e ∷ es) (inl (here, few)) =
      inl (here, omega (arith, few, length-renumber (index + 1) es))
  Within-renumber k index (e ∷ es) (inr there) = inr (Within-renumber k (index + 1) es there)

  Within-numbered :
      (k : ℕ) (h : ConversationHistory Value) → Within k h.entries → Within k (numbered h).entries
  unfolding resequence
  Within-numbered k h w = elim (Bool-cases (h.next_sequence == u64_max)) [
    | inl top ↦ rw top (Within-renumber k 0 h.entries w)
    | inr below ↦ rw below w
  ]

  Within-push :
      (k : ℕ) (h : ConversationHistory Value) (m : ConversationMessage Value)
      (other : Option String)
      → k + 1 < conversation_entries
      → Within k h.entries
      → Within (k + 1) (push h m other).0.entries
  unfolding push
  Within-push k h m other small w =
      let n = numbered h in
      Within-snoc k (with_room n.entries) _
        (Within-with_room k n.entries small (Within-numbered k h w))

  pub Within-push_self :
      (h : ConversationHistory Value) (m : ConversationMessage Value)
      → Within 0 (push h m (some id)).0.entries
  unfolding push
  Within-push_self h m = Within-here (with_room (numbered h).entries) _ (eq_refl id)

  -- Taking an offer leaves every entry the delivery that it is.
  Within-first :
      (k : ℕ) (e : StoredEntry Value) (es : List (StoredEntry Value))
      (x : StoredEntry Value × Found) (xs : List (StoredEntry Value) × Found)
      → x.0.delivery_id ≡ e.delivery_id
      → length xs.0 ≡ length es
      → (Within k es → Within k xs.0)
      → Within k (e ∷ es)
      → Within k (first_found e es x xs).0
  Within-first k e es (x, missing) (xs, g) same len rest (inl (here, few)) = inl (here, rw len few)
  Within-first k e es (x, missing) (xs, g) same len rest (inr there) = inr (rest there)
  Within-first k e es (x, closed) (xs, g) same len rest (inl (here, few)) = inl (rw same here, few)
  Within-first k e es (x, closed) (xs, g) same len rest (inr there) = inr there
  Within-first k e es (x, opened) (xs, g) same len rest (inl (here, few)) = inl (rw same here, few)
  Within-first k e es (x, opened) (xs, g) same len rest (inr there) = inr there

  length-first :
      (e : StoredEntry Value) (es : List (StoredEntry Value)) (x : StoredEntry Value × Found)
      (xs : List (StoredEntry Value) × Found)
      → length xs.0 ≡ length es
      → length (first_found e es x xs).0 ≡ suc (length es)
  length-first e es (x, missing) (xs, g) len = ap suc len
  length-first e es (x, closed) (xs, g) len = refl
  length-first e es (x, opened) (xs, g) len = refl

  Within-take_in_entries :
      (k : ℕ) (offer : String) (es : List (StoredEntry Value))
      → (Within k es → Within k (take_in_entries offer es).0)
        × (length (take_in_entries offer es).0 ≡ length es)
  unfolding take_in_entries
  Within-take_in_entries k offer [] = ((λ h. h), refl)
  Within-take_in_entries k offer (e ∷ es) =
      let (rest, len) = Within-take_in_entries k offer es in
      let x = take_in_entry offer e in
      let xs = take_in_entries offer es in
      (Within-first k e es x xs refl len rest, length-first e es x xs len)

  Within-found :
      (k : ℕ) (es : List (StoredEntry Value)) → Within k es → is_some (find_delivery id es) ≡ true
  unfolding find_delivery
  Within-found k [] h = absurd h
  Within-found k (e ∷ es) (inl (here, few)) = rw here refl
  Within-found k (e ∷ es) (inr there) = ground (arith, Within-found k es there)

  pub Within-contains_delivery :
      (k : ℕ) (h : ConversationHistory Value) → Within k h.entries → contains_delivery h id ≡ true
  unfolding contains_delivery
  Within-contains_delivery k h w = Within-found k h.entries w

module _ {Value : Type 0} (json : Json Value) (id : String) where
  Within-kept :
      (k : ℕ) (old new : ConversationHistory Value) (w : Written json)
      → Within id k old.entries
      → Within id k new.entries
      → Within id k (keep_if_stored json old new w).1.entries
  Within-kept k old new (ok u, disk) before after = after
  Within-kept k old new (err e, disk) before after = before

  Within-taken :
      (k : ℕ) (fault : Fault) (h : ConversationHistory Value) (es : List (StoredEntry Value))
      (f : Found) (disk : Disk)
      → Within id k h.entries
      → Within id k es
      → Within id k (take_found json fault h es f disk).1.entries
  unfolding take_found
  Within-taken k fault h es opened disk before after = after
  Within-taken k fault h es _ disk before after = before

  Within-step :
      (k : ℕ) (h : ConversationHistory Value) (disk : Disk) (c : Call Value)
      → k + 1 < conversation_entries
      → Within id k h.entries
      → Within id (k + 1) (step json (h, disk) c).0.entries
  unfolding step record_message record_delivery take_offer
  Within-step k h disk (records fault m) small w = Within-push id k h m none small w
  Within-step k h disk (delivers fault other m) small w =
      let h' = (push h m (some other)).0 in
      let more = Within-suc id k h.entries w in
      elim (Bool-cases (contains_delivery h other)) [
        | inl there ↦ rw there more
        | inr fresh ↦ rw fresh (
            Within-kept (k + 1) h h' (persist json fault h' disk) more
              (Within-push id k h m (some other) small w))
      ]
  Within-step k h disk (takes fault offer) small w =
      let (es, f) = take_in_entries offer h.entries in
      let more = Within-suc id k h.entries w in
      Within-taken (k + 1) fault h es f disk more
        ((Within-take_in_entries id (k + 1) offer h.entries).0 more)

  pub Within-run :
      (k : ℕ) (h : ConversationHistory Value) (disk : Disk) (cs : List (Call Value))
      → k + length cs < conversation_entries
      → Within id k h.entries
      → Within id (k + length cs) (run json (h, disk) cs).0.entries
  unfolding run
  Within-run k h disk [] small w = let same : k + 0 ≡ k = omega arith in rw same w
  Within-run k h disk (c ∷ cs) small w =
      let (h', disk') = step json (h, disk) c in
      let sum : k + suc (length cs) ≡ (k + 1) + length cs = omega arith in
      let next = Within-step k h disk c (omega (arith, small)) w in
      rw sum (Within-run (k + 1) h' disk' cs (omega (arith, small)) next)
