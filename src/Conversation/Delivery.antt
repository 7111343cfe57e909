-- ===== src/Conversation/Delivery.antt =====
-- Exactly-once delivery and offers in host/service/src/conversation.rs.
use scufris.Base.{
  ℕ, String, Bool, true, false, some, List, [], ◌∷◌, ◌++◌, ◌+◌, ◌<◌, length, ◌≡◌, refl, arith,
  Bool-cases, inl, inr, eq_refl,
}
use scufris.Base.Result.{ok, err}
use scufris.Control.Message.{ConversationMessage}
use scufris.Conversation.{
  StoredEntry, ConversationHistory, push, contains_delivery, is_some, find_delivery, with_room,
  numbered, conversation_entries,
}
use scufris.Base.Files.{Fault}
use scufris.Conversation.Store.{
  Json, Disk, record_delivery, Stored, Written, keep_if_stored, persist,
}
use scufris.Conversation.Runs.{Call, run}
use scufris.Conversation.Remembered.{Within-push_self, Within-contains_delivery, Within-run}

module _ {Value : Type 0} where
  find_delivery-snoc :
      (id : String) (m : ConversationMessage Value) (n : ℕ) (xs : List (StoredEntry Value))
      → is_some (
          find_delivery id (xs ++ record { sequence = n; delivery_id = some id; message = m } ∷ []))
        ≡ true
  unfolding find_delivery
  find_delivery-snoc id m n [] = rw eq_refl
  find_delivery-snoc id m n (x ∷ xs) = ground (arith, find_delivery-snoc id m n xs)

  contains_delivery-push :
      (h : ConversationHistory Value) (id : String) (m : ConversationMessage Value)
      → contains_delivery (push h m (some id)).0 id ≡ true
  unfolding contains_delivery push
  contains_delivery-push h id m = find_delivery-snoc id m _ (with_room (numbered h).entries)

module _ {Value : Type 0} (json : Json Value) where
  -- Through any later calls, fewer than 200, an attempt under the identity changes nothing.
  abbrev pub IsRemembered : String → ConversationHistory Value → Disk → Type 0
  IsRemembered id h disk =
      (cs : List (Call Value))
      → length cs < conversation_entries
      → (fault : Fault) (again : ConversationMessage Value)
      → let (h', disk') = run json (h, disk) cs in
        record_delivery json fault h' id again disk' ≡ (ok false, h', disk')

  abbrev pub OnceDelivered : String → ConversationHistory Value → Disk → Stored json Bool → Type 0
  OnceDelivered id h disk (ok fresh, h', disk') =
      (contains_delivery h' id ≡ true)
      × (fresh ≡ false → (contains_delivery h id ≡ true) × (h' ≡ h) × (disk' ≡ disk))
      × ((fault : Fault) (again : ConversationMessage Value)
          → record_delivery json fault h' id again disk' ≡ (ok false, h', disk'))
      × (fresh ≡ true → IsRemembered id h' disk')
  OnceDelivered id h disk (err e, h', disk') = h' ≡ h

  record_delivery_again :
      (fault : Fault) (h : ConversationHistory Value) (id : String) (m : ConversationMessage Value)
      (disk : Disk)
      → contains_delivery h id ≡ true
      → record_delivery json fault h id m disk ≡ (ok false, h, disk)
  unfolding record_delivery
  record_delivery_again fault h id m disk e = rw e

  push-IsRemembered :
      (h : ConversationHistory Value) (id : String) (m : ConversationMessage Value) (disk : Disk)
      → IsRemembered id (push h m (some id)).0 disk
  push-IsRemembered h id m disk cs few fault again =
      let h' = (push h m (some id)).0 in
      let (h'', disk'') = run json (h', disk) cs in
      let within = Within-run json id 0 h' disk cs (omega (arith, few)) (Within-push_self id h m) in
      record_delivery_again fault h'' id again disk''
        (Within-contains_delivery id (0 + length cs) h'' within)

  keep_if_stored-OnceDelivered :
      (h : ConversationHistory Value) (id : String) (m : ConversationMessage Value) (disk : Disk)
      (w : Written json)
      → OnceDelivered id h disk (keep_if_stored json h (push h m (some id)).0 w)
  keep_if_stored-OnceDelivered h id m disk (ok u, disk') = (
    contains_delivery-push h id m,
    (λ e. cc),
    (λ fault again.
        record_delivery_again fault (push h m (some id)).0 id again disk'
          (contains_delivery-push h id m)),
    λ e. push-IsRemembered h id m disk',
  )
  keep_if_stored-OnceDelivered h id m disk (err e, disk') = refl

  -- A delivery that is recorded is in the replay, and an attempt under its identity changes neither
  -- the replay nor the disk, whatever its message is, after any later recordings, deliveries and
  -- offers that were fewer than 200. Where nothing new was recorded it was there already, and an
  -- attempt that follows directly changes nothing either. A delivery that could not be stored leaves
  -- the replay as it was.
  pub record_delivery_once :
      (fault : Fault) (h : ConversationHistory Value) (id : String) (m : ConversationMessage Value)
      (disk : Disk)
      → OnceDelivered id h disk (record_delivery json fault h id m disk)
  unfolding record_delivery
  record_delivery_once fault h id m disk = elim (Bool-cases (contains_delivery h id)) [
    | inl there ↦ rw there (
      there,
      (λ e. (there, refl, refl)),
      (λ again other. record_delivery_again again h id other disk there),
      λ e. cc,
    )
    | inr fresh ↦
        rw fresh (
          keep_if_stored-OnceDelivered h id m disk (persist json fault (push h m (some id)).0 disk))
  ]
