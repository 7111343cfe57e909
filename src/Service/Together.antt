-- ===== src/Service/Together.antt =====
-- The service of host/service/src/service.rs with the attachment store of
-- host/service/src/attachment.rs behind it, which keeps what a submission refers to.
use scufris.Base.{
  ℕ, String, Bool, true, false, not, Option, none, some, List, ◌≡◌, refl, arith, All, if◌then◌else◌,
}
use scufris.Base.Result.{ok, err}
use scufris.Control.Message.{AttachmentDescriptor, ConversationMessage, user}
use scufris.Conversation.{push}
use scufris.Attachments.{Store, Host, Answer}
use scufris.Attachments.Reads.{resolve}
use scufris.Attachments.Resolved.{IsReferenced, Describes, IsResolved, resolve-IsResolved}
use scufris.Service.{RegisteredSurface, Inner, Env, is_there}
use scufris.Service.Surfaces.{surface_message, speaking_surface}
use scufris.Service.Recorded.{Same}
use scufris.Service.Submitted.{IsSubmitted, accepted, surface_message-IsSubmitted}

-- What the service makes of the store's answer.
abbrev pub found_in : Answer (List AttachmentDescriptor) → Option (List AttachmentDescriptor)
found_in (ok ds, store) = some ds
found_in (err e, store) = none

resolved-All :
    (store : Store) (ids : List String) (a : Answer (List AttachmentDescriptor))
    (ds : List AttachmentDescriptor)
    → IsResolved ids true store a
    → found_in a ≡ some ds
    → Describes store ids ds × All (IsReferenced a.1) ids
resolved-All store ids (ok found, t) ds (d, kept, _) e =
    let same : found ≡ ds = ground arith in (rw (← same) d, kept refl)
resolved-All store ids (err x, t) ds r e = absurd (ground arith)

module _ {Value : Type 0} (host : Host) where
  -- The service as it runs over a store in some state.
  abbrev pub over : Env Value → Store → Env Value
  over env store = record env { resolve = λ ids. found_in (resolve host ids true store) }

  -- Whether a submission comes as far as to resolve its attachments.
  abbrev pub asks_store : Inner Value → Option (String × RegisteredSurface Value) → Bool
  asks_store s none = false
  asks_store s (some held) = not (is_there s.active_proactive)

  -- A submission, and the store after it.
  unfoldable pub submission :
      Env Value → Store → Inner Value → ℕ → String → String → List String → Inner Value × Store
  unfolding surface_message resolve speaking_surface
  submission env store s connection id text ids = (
    surface_message (over env store) s connection id text ids,
    if asks_store s (speaking_surface s connection) then (resolve host ids true store).1 else store,
  )

  -- The words are recorded with the descriptors that the store has under the identifiers, in order,
  -- and the store keeps every one of them as referenced.
  abbrev pub IsRecordedWith :
      Inner Value → Store → String → List String → Inner Value → Store → Type 0
  IsRecordedWith s store text ids s' store' =
      (m : ConversationMessage Value) × (s'.conversation ≡ (push s.conversation m none).0)
      × (m.role ≡ user)
      × (m.text ≡ text)
      × Describes store ids m.attachments
      × All (IsReferenced store') ids

  abbrev pub IsKept :
      Bool → Inner Value → Store → String → List String → Inner Value × Store → Type 0
  IsKept true s store text ids (s', store') = IsRecordedWith s store text ids s' store'
  IsKept false s store text ids (s', store') = Same s s'

  accepted-asks :
      (env : Env Value) (s : Inner Value) (id text : String) (ids : List String)
      (o : Option (String × RegisteredSurface Value))
      → accepted env s id text ids o ≡ true
      → asks_store s o ≡ true
  unfolding accepted
  accepted-asks env s id text ids none e = absurd (cc)
  accepted-asks env s id text ids (some (surface, held)) e = ground (arith, e)

  IsKept-by :
      (env : Env Value) (store : Store) (s : Inner Value) (id text : String) (ids : List String)
      (o : Option (String × RegisteredSurface Value)) (s' : Inner Value) (takes : Bool)
      → accepted (over env store) s id text ids o ≡ takes
      → IsSubmitted (over env store) takes s id text ids s'
      → IsKept takes s store text ids
          (s', if asks_store s o then (resolve host ids true store).1 else store)
  IsKept-by env store s id text ids o s' false e k = k
  IsKept-by env store s id text ids o s' true e (m, c, r, w, found, t) =
      let (d, kept) =
        resolved-All store ids (resolve host ids true store) m.attachments
          (resolve-IsResolved host ids true store) found in
      (m, c, r, w, d, rw (accepted-asks (over env store) s id text ids o e) kept)

  -- A submission that is accepted is recorded with the descriptors that the attachment store has
  -- under its identifiers, in order, and leaves every one of them referenced in the store; one that
  -- is not accepted leaves the replay and the open turn as they were.
  pub submission-IsKept :
      (env : Env Value) (store : Store) (s : Inner Value) (connection : ℕ) (id text : String)
      (ids : List String)
      → IsKept
          (accepted (over env store) s id text ids (speaking_surface s connection))
          s
          store
          text
          ids
          (submission env store s connection id text ids)
  unfolding submission
  submission-IsKept env store s connection id text ids =
      IsKept-by env store s id text ids (speaking_surface s connection)
        (surface_message (over env store) s connection id text ids)
        (accepted (over env store) s id text ids (speaking_surface s connection)) refl
        (surface_message-IsSubmitted (over env store) s connection id text ids)
