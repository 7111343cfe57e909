-- ===== src/Attachments/Resolved.antt =====
-- What `resolve` of host/service/src/attachment.rs answers.
use text.Mathlib.Text.{◌==◌ as ◌=ˢ◌}
use text.Mathlib.TextPositions.{eq_refl}
use scufris.Base.{
  ◌≢◌, String, Bool, true, false, Option, none, some, List, [], ◌∷◌, map, ◌≡◌, ◌⊎◌, inl, inr, refl,
  arith, Option-cases, Bool-cases, All,
}
use scufris.Base.Result.{ok, err}
use scufris.Control.Message.{AttachmentDescriptor}
use scufris.Attachments.{Record, Store, Host, StoreError, not_found, Answer, find_record}
use scufris.Attachments.Reads.{
  find_all, refer, refer_all, then_refer, descriptors, resolve, resolve_found, resolved,
}
use scufris.Attachments.Folders.{find-insert, find-id}
use scufris.Attachments.Referred.{marked, refer-cases, find_all-cons, then_refer-keeps}

-- The record under an identifier is a referenced one, which is kept thirty days.
abbrev pub IsReferenced : Store → String → Type 0
IsReferenced s id = (r : Record) × (find_record id s.index.records ≡ some r) × (r.referenced ≡ true)

refer-IsReferenced :
    (host : Host) (r : Record) (id : String) (s : Store)
    → IsReferenced s id
    → IsReferenced (refer host r s).1 id
refer-IsReferenced host r id s (q, e, m) = elim (refer-cases host r s) [
  | inl (x, other, failed) ↦ rw failed (q, e, m)
  | inr (inl (already, same)) ↦ rw same (q, e, m)
  | inr (inr (encoded, f, stored)) ↦ elim (Bool-cases (r.descriptor.id =ˢ id)) [
    | inl here ↦
        rw stored (marked r, ground (arith, find-insert id (marked r) s.index.records), refl)
    | inr there ↦ rw stored (q, ground (arith, find-insert id (marked r) s.index.records), m)
  ]
]

-- A record that is referenced already is so in the index.
abbrev Marks : Store → Record → Type 0
Marks s r = r.referenced ≡ true → IsReferenced s r.descriptor.id

refer-Marks :
    (host : Host) (r : Record) (ps : List Record) (s : Store)
    → All (Marks s) ps
    → All (Marks (refer host r s).1) ps
refer-Marks host r [] s h = tt
refer-Marks host r (p ∷ ps) s (h, hs) =
    (λ e. refer-IsReferenced host r p.descriptor.id s (h e), refer-Marks host r ps s hs)

refer-IsReferenced_self :
    (host : Host) (r : Record) (s t : Store)
    → Marks s r
    → refer host r s ≡ (ok tt, t)
    → IsReferenced t r.descriptor.id
refer-IsReferenced_self host r s t h e = elim (refer-cases host r s) [
  | inl (x, other, failed) ↦ absurd (ground arith)
  | inr (inl (already, same)) ↦ let to : s ≡ t = ground arith in rw (← to) (h already)
  | inr (inr (encoded, f, stored)) ↦
      let id = r.descriptor.id in
      let at : find_record id t.index.records ≡ some (marked r) =
        ground (arith, find-insert id (marked r) s.index.records, eq_refl id) in
      (marked r, at, refl)
]

refer_all-IsReferenced :
    (host : Host) (rs : List Record) (id : String) (s : Store)
    → IsReferenced s id
    → IsReferenced (refer_all host rs s).1 id
unfolding refer_all
refer_all-IsReferenced host [] id s h = h
refer_all-IsReferenced host (r ∷ rs) id s h =
    let a = refer host r s in
    let h' = refer-IsReferenced host r id s h in
    then_refer-keeps (λ t. IsReferenced t id) a (refer_all host rs) h'
      (refer_all-IsReferenced host rs id a.1 h')

ids_of : List Record → List String
ids_of = map (λ r. r.descriptor.id)

-- What a pass over the records leaves when it reports success.
Done : List Record → Answer (Unit {0}) → Type 0
Done rs (err e, t) = Unit
Done rs (ok u, t) = All (IsReferenced t) (ids_of rs)

then_refer-Done :
    (host : Host) (r : Record) (rs : List Record) (s : Store) (a : Answer (Unit {0}))
    → refer host r s ≡ a
    → Marks s r
    → Done rs (refer_all host rs a.1)
    → Done (r ∷ rs) (then_refer a (refer_all host rs))
unfolding Done ids_of
then_refer-Done host r rs s (err e, t) h m d = tt
then_refer-Done host r rs s (ok u, t) h m d =
    Done-cons (refer_all host rs t) d
      (refer_all-IsReferenced host rs r.descriptor.id t (refer-IsReferenced_self host r s t m h))
  where
    Done-cons :
        (a : Answer (Unit {0})) → Done rs a → IsReferenced a.1 r.descriptor.id → Done (r ∷ rs) a
    Done-cons (err e, t) d k = tt
    Done-cons (ok u, t) d k = (k, d)

refer_all-Done :
    (host : Host) (rs : List Record) (s : Store) → All (Marks s) rs → Done rs (refer_all host rs s)
unfolding Done ids_of refer_all
refer_all-Done host [] s h = tt
refer_all-Done host (r ∷ rs) s (h, hs) =
    then_refer-Done host r rs s (refer host r s) refl h
      (refer_all-Done host rs (refer host r s).1 (refer-Marks host r rs s hs))

-- The descriptors are those of the identifiers, in order.
abbrev pub Describes : Store → List String → List AttachmentDescriptor → Type 0
Describes s [] [] = Unit
Describes s (id ∷ ids) (d ∷ ds) =
    ((r : Record) × (find_record id s.index.records ≡ some r) × (r.descriptor ≡ d))
    × Describes s ids ds
Describes s _ _ = ⊥

-- One of the identifiers is not in the index.
abbrev pub Lacks : Store → List String → Type 0
Lacks s [] = ⊥
Lacks s (id ∷ ids) = (find_record id s.index.records ≡ none) ⊎ Lacks s ids

abbrev pub IsResolved : List String → Bool → Store → Answer (List AttachmentDescriptor) → Type 0
IsResolved ids referenced s (ok ds, t) =
    Describes s ids ds
    × (referenced ≡ true → All (IsReferenced t) ids)
    × (referenced ≡ false → t ≡ s)
IsResolved ids referenced s (err e, t) =
    ((e ≡ not_found) × Lacks s ids × (t ≡ s))
    ⊎ ((referenced ≡ true) × (e ≢ not_found) × ¬ Lacks s ids)

find_all-Lacks : (ids : List String) (s : Store) → find_all ids s.index.records ≡ none → Lacks s ids
unfolding find_all
find_all-Lacks [] s e = cc
find_all-Lacks (id ∷ ids) s e = elim (Option-cases (find_record id s.index.records)) [
  | inl missing ↦ inl missing
  | inr (r, f) ↦ elim (Option-cases (find_all ids s.index.records)) [
    | inl missing ↦ inr (find_all-Lacks ids s missing)
    | inr (tail, g) ↦ absurd (ground arith)
  ]
]

-- What was found is described, under the identifiers asked for, and is in the index as it is.
find_all_lem :
    (ids : List String) (s : Store) (rs : List Record)
    → find_all ids s.index.records ≡ some rs
    → Describes s ids (descriptors rs) × (ids_of rs ≡ ids) × All (Marks s) rs
unfolding find_all ids_of
find_all_lem [] s rs e = let same : [] ≡ rs = ground arith in rw (← same) (tt, refl, tt)
find_all_lem (id ∷ ids) s rs e =
    let (r, tail, f, g, same) = find_all-cons id ids s.index.records rs e in
    let name = find-id id s.index.records r f in
    let (d, n, m) = find_all_lem ids s tail g in
    rw (← same) (((r, f, refl), d), ground (arith, n, name), ((λ marks. (r, rw name f, marks)), m))

-- No round is told that a record is missing.
refer-fails :
    (host : Host) (r : Record) (s t : Store) (e : StoreError)
    → refer host r s ≡ (err e, t)
    → e ≢ not_found
refer-fails host r s t e h = elim (refer-cases host r s) [
  | inl (x, other, failed) ↦ let same : x ≡ e = ground arith in rw (← same) other
  | inr (inl (already, same)) ↦ absurd (ground arith)
  | inr (inr (encoded, f, stored)) ↦ absurd (ground arith)
]

refer_all-fails :
    (host : Host) (rs : List Record) (s t : Store) (e : StoreError)
    → refer_all host rs s ≡ (err e, t)
    → e ≢ not_found
unfolding refer_all
refer_all-fails host [] s t e h = absurd (ground arith)
refer_all-fails host (r ∷ rs) s t e h =
    first (refer host r s) refl (λ s. refer_all-fails host rs s t e) h
  where
    first :
        (a : Answer (Unit {0}))
        → refer host r s ≡ a
        → ((s : Store) → refer_all host rs s ≡ (err e, t) → e ≢ not_found)
        → then_refer a (refer_all host rs) ≡ (err e, t)
        → e ≢ not_found
    first (err x, s') f next h =
        let same : x ≡ e = ground arith in rw (← same) (refer-fails host r s s' x f)
    first (ok u, s') f next h = next s' h

described-ne-Lacks :
    (ids : List String) (s : Store) (ds : List AttachmentDescriptor)
    → Describes s ids ds
    → ¬ Lacks s ids
described-ne-Lacks [] s ds d = λ lack. lack
described-ne-Lacks (id ∷ ids) s [] d = absurd d
described-ne-Lacks (id ∷ ids) s (x ∷ ds) ((r, e, same), d) = λ lack. elim lack [
  | inl missing ↦ ground arith
  | inr later ↦ described-ne-Lacks ids s ds d later
]

resolved-IsResolved :
    (host : Host) (ids : List String) (rs : List Record) (s : Store) (a : Answer (Unit {0}))
    → refer_all host rs s ≡ a
    → Describes s ids (descriptors rs)
    → ids_of rs ≡ ids
    → Done rs a
    → IsResolved ids true s (resolved rs a)
unfolding resolved Done
resolved-IsResolved host ids rs s (err e, t) h d n done =
    inr (refl, refer_all-fails host rs s t e h, described-ne-Lacks ids s (descriptors rs) d)
resolved-IsResolved host ids rs s (ok u, t) h d n done = (d, (λ _. rw (← n) done), λ q. cc)

resolve_found-IsResolved :
    (host : Host) (ids : List String) (referenced : Bool) (o : Option (List Record)) (s : Store)
    → find_all ids s.index.records ≡ o
    → IsResolved ids referenced s (resolve_found host referenced o s)
unfolding resolve_found
resolve_found-IsResolved host ids referenced none s e = inl (refl, find_all-Lacks ids s e, refl)
resolve_found-IsResolved host ids false (some rs) s e =
    let (d, n, m) = find_all_lem ids s rs e in (d, (λ q. cc), λ q. refl)
resolve_found-IsResolved host ids true (some rs) s e =
    let (d, n, m) = find_all_lem ids s rs e in
    resolved-IsResolved host ids rs s (refer_all host rs s) refl d n (refer_all-Done host rs s m)

-- Resolving attachments answers their descriptors, in the order they were asked for, and leaves each
-- of them referenced where that was asked, and the store as it was where it was not. It says that
-- one is not found exactly where one is missing, and then changes nothing; any other failure is
-- one of marking them.
pub resolve-IsResolved :
    (host : Host) (ids : List String) (referenced : Bool) (s : Store)
    → IsResolved ids referenced s (resolve host ids referenced s)
unfolding resolve
resolve-IsResolved host ids referenced s =
    resolve_found-IsResolved host ids referenced (find_all ids s.index.records) s refl
