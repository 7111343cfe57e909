-- ===== src/PendingStore/Load.antt =====
-- What a start reads back of what surfaces/desktop/src/pending.rs wrote.
use scufris.Base.{
  ℕ, ◌+◌, ◌*◌, ◌≤◌, String, Bool, true, false, none, some, List, length, ◌≡◌, ◌⊎◌, inl, inr, refl,
  arith, ◌∙◌, Bool-cases, Option-cases, ltb, not, ◌&&◌, ◌||◌,
}
use scufris.Base.Files.{Node, file, Fault, before_rename, after_rename, nowhere}
use scufris.Base.Result.{ok, err}
use scufris.Control.Text.{
  bytes, is_identifier, is_submission_text, max_identifier_length, max_submission_text_bytes,
}
use scufris.Companion.{Pending}
use scufris.PendingStore.{
  Record, RecordJson, Written, replace, load, accept, write, save, kept, marker, tombstone,
  Discarded, marked, discard_pending, clear_pending, max_pending_bytes,
}

-- Documented behaviour of `serde_json`: a record that was written reads back as itself.
abbrev pub ReadsBack : RecordJson → Type 0
ReadsBack json =
    (r : Record) (encoded : List ℕ)
    → json.to_vec r ≡ some encoded
    → json.from_slice encoded ≡ some r

-- Documented behaviour of `serde_json`: a byte of a string takes at most the six bytes of an
-- escape, and the names, the braces and the other fields of a record fit 128 bytes.
abbrev pub EscapesBounded : RecordJson → Type 0
EscapesBounded json =
    (r : Record) (encoded : List ℕ)
    → json.to_vec r ≡ some encoded
    → length encoded ≤ 6 * (length (bytes r.id) + length (bytes r.text)) + 128

-- What `save` takes.
abbrev pub is_storable : Pending → Bool
is_storable p = is_identifier p.id && is_submission_text p.text

is_identifier-length :
    (s : String) → is_identifier s ≡ true → length (bytes s) ≤ max_identifier_length
unfolding is_identifier
is_identifier-length s h = ground arith

is_submission_text-length :
    (s : String) → is_submission_text s ≡ true → length (bytes s) ≤ max_submission_text_bytes
unfolding is_submission_text
is_submission_text-length s h = ground arith

module _ (json : RecordJson) (reason : String) where
  -- A transcript that `load` hands back is one that `save` does not refuse.
  pub load-storable :
      (node : Node) (p : Pending) → load json reason node ≡ ok (some p) → is_storable p ≡ true
  unfolding load
  load-storable node p h = ground arith

  abbrev Fits : Record → Type 0
  Fits r = (is_identifier r.id ≡ true) × (length (bytes r.text) ≤ max_submission_text_bytes)

  -- A write ends with the record that was there or with the new one, and with the new one where it
  -- reports success.
  abbrev Wrote : Node → Record → Written json reason → Type 0
  Wrote node r (ok u, node') = load json reason node' ≡ accept json reason (some r)
  Wrote node r (err e, node') =
      (load json reason node' ≡ load json reason node)
      ⊎ (load json reason node' ≡ accept json reason (some r))

  load-file :
      (r : Record) (encoded : List ℕ)
      → ReadsBack json
      → EscapesBounded json
      → Fits r
      → json.to_vec r ≡ some encoded
      → load json reason (file encoded) ≡ accept json reason (some r)
  unfolding load
  load-file r encoded back small (i, t) e =
      let short : ltb max_pending_bytes (length encoded) ≡ false =
        ground (arith, small r encoded e, is_identifier-length r.id i) in
      rw (short, back r encoded e) refl

  replace-Wrote :
      (fault : Fault) (r : Record) (encoded : List ℕ) (node : Node)
      → load json reason (file encoded) ≡ accept json reason (some r)
      → Wrote node r (replace json reason fault encoded node)
  unfolding replace
  replace-Wrote before_rename r encoded node e = inl refl
  replace-Wrote after_rename r encoded node e = inr e
  replace-Wrote nowhere r encoded node e = e

  write-Wrote :
      (fault : Fault) (r : Record) (node : Node)
      → ReadsBack json
      → EscapesBounded json
      → Fits r
      → Wrote node r (write json reason fault r node)
  unfolding write
  write-Wrote fault r node back small f = elim (Option-cases (json.to_vec r)) [
    | inl none_ ↦ rw none_ (inl refl)
    | inr (encoded, e) ↦
        rw e (replace-Wrote fault r encoded node (load-file r encoded back small f e))
  ]

  -- What the store holds after a save, whatever the file system does: what it held before, or
  -- exactly the transcript that was saved; and the latter where the save reports success.
  abbrev pub Saved : Node → Pending → Written json reason → Type 0
  Saved node p (ok u, node') = load json reason node' ≡ ok (some p)
  Saved node p (err e, node') =
      (load json reason node' ≡ load json reason node) ⊎ (load json reason node' ≡ ok (some p))

  Wrote-Saved :
      (node : Node) (p : Pending) (w : Written json reason)
      → accept json reason (some (kept json reason p)) ≡ ok (some p)
      → Wrote node (kept json reason p) w
      → Saved node p w
  Wrote-Saved node p (ok u, node') e h = h ∙ e
  Wrote-Saved node p (err x, node') e (inl h) = inl h
  Wrote-Saved node p (err x, node') e (inr h) = inr (h ∙ e)

  accept-kept :
      (p : Pending)
      → is_storable p ≡ true
      → accept json reason (some (kept json reason p)) ≡ ok (some p)
  unfolding accept
  accept-kept p h = ground arith

  -- After a save, whatever it meets, a start finds what the store held before or exactly the
  -- transcript that was saved, never a part of it, and it finds the latter where the save reports
  -- success; if the JSON library reads back what it wrote and takes six bytes at most for one.
  pub save-Saved :
      (fault : Fault) (p : Pending) (node : Node)
      → ReadsBack json
      → EscapesBounded json
      → Saved node p (save json reason fault p node)
  unfolding save
  save-Saved fault p node back small = elim (Bool-cases (is_storable p)) [
    | inl good ↦
        let i : is_identifier p.id ≡ true = ground arith in
        let t : is_submission_text p.text ≡ true = ground arith in
        rw (i, t)
          (Wrote-Saved node p (write json reason fault (kept json reason p) node)
            (accept-kept p good)
            (write-Wrote fault (kept json reason p) node back small
              (i, is_submission_text-length p.text t)))
    | inr bad ↦
        let refused : (not (is_identifier p.id) || not (is_submission_text p.text)) ≡ true =
          ground arith in
        rw refused (inl refl)
  ]

  -- What the store holds after a discard: nothing where it reports success, and what it held
  -- before or nothing where it reports that the words are still there.
  abbrev pub Gone : Node → Discarded json reason → Type 0
  Gone node (ok u, node') = load json reason node' ≡ ok none
  Gone node (err e, node') =
      (load json reason node' ≡ load json reason node) ⊎ (load json reason node' ≡ ok none)

  accept-marker :
      (id : String)
      → is_identifier id ≡ true
      → accept json reason (some (marker json reason id)) ≡ ok none
  unfolding accept
  accept-marker id h = ground arith

  Wrote-Gone :
      (node : Node) (id : String) (w : Written json reason)
      → accept json reason (some (marker json reason id)) ≡ ok none
      → Wrote node (marker json reason id) w
      → Gone node (marked json reason w)
  unfolding marked
  Wrote-Gone node id (ok u, node') e h = h ∙ e
  Wrote-Gone node id (err x, node') e (inl h) = inl h
  Wrote-Gone node id (err x, node') e (inr h) = inr (h ∙ e)

  -- After a discard, under an identifier, a start finds nothing where it reports success, also where
  -- only the marker could be written, and what it found before or nothing where it reports that the
  -- words are still on disk; if the JSON library reads back what it wrote and takes six bytes at
  -- most for one.
  pub discard_pending-Gone :
      (removes : Bool) (fault : Fault) (id : String) (node : Node)
      → ReadsBack json
      → EscapesBounded json
      → is_identifier id ≡ true
      → Gone node (discard_pending json reason removes fault id node)
  unfolding discard_pending load
  discard_pending-Gone true fault id node back small i = refl
  discard_pending-Gone false fault id node back small i =
      Wrote-Gone node id (tombstone json reason fault id node) (accept-marker id i) (
        unfold tombstone in
        write-Wrote fault (marker json reason id) node back small (i, empty_fits))
    where
      empty_fits : length (bytes "") ≤ max_submission_text_bytes
      empty_fits = unfold bytes in omega arith

  pub load-clear_pending :
      (first second : Bool) (node : Node)
      → (load json reason (clear_pending json reason first second node) ≡ load json reason node)
        ⊎ (load json reason (clear_pending json reason first second node) ≡ ok none)
  unfolding clear_pending load
  load-clear_pending true second node = inr refl
  load-clear_pending false true node = inr refl
  load-clear_pending false false node = inl refl
