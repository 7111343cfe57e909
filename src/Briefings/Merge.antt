-- ===== src/Briefings/Merge.antt =====
-- The merge of a generation's update in host/service/src/briefings.rs goes only forward.
use scufris.Base.{
  ℕ, ◌≤◌, Bool, true, false, ◌||◌, ◌≡◌, refl, arith, Bool-cases, inl, inr, if◌then◌else◌,
}
use scufris.Control.Briefing.{
  BriefingCollectionState, BriefingRow, delivered, is_collecting, is_delivered,
}
use scufris.Briefings.Upsert.{merged, forwarded, same_collection, max, min}

-- The counts that a valid row has.
abbrev pub Counts : BriefingRow → Type 0
Counts row = (row.failed ≤ row.completed) × (row.completed ≤ row.total)

-- What no update takes back.
pub record Forward (before after : BriefingRow) : Type 0 where
  pub counts : Counts after
  pub completed : before.completed ≤ after.completed
  pub total : before.total ≤ after.total
  pub failed : before.failed ≤ after.failed
  pub terminal : is_collecting before.collection ≡ false → after.collection ≡ before.collection
  pub delivered : is_delivered before.delivery ≡ true → is_delivered after.delivery ≡ true

min-right : (a b : ℕ) → min a b ≤ b
min-right a b = ground arith

below-min : (a b c : ℕ) → c ≤ a → c ≤ b → c ≤ min a b
below-min a b c h k = ground arith

max-left : (a b : ℕ) → a ≤ max a b
max-left a b = ground arith

forwarded-Counts :
    (current incoming : BriefingRow)
    → Counts current
    → Counts (forwarded current incoming)
      × (current.completed ≤ (forwarded current incoming).completed)
      × (current.total ≤ (forwarded current incoming).total)
      × (current.failed ≤ (forwarded current incoming).failed)
unfolding forwarded
forwarded-Counts current incoming (f, c) =
    let t = max current.total incoming.total in
    let m = max current.completed incoming.completed in
    let total : current.total ≤ t = max-left current.total incoming.total in
    let wider : current.completed ≤ m = max-left current.completed incoming.completed in
    let completed : current.completed ≤ min m t =
      below-min m t current.completed wider (omega arith) in
    let failed : current.failed ≤ max current.failed incoming.failed =
      max-left current.failed incoming.failed in
    (
      (min-right (max current.failed incoming.failed) (min m t), min-right m t),
      completed,
      total,
      below-min (max current.failed incoming.failed) (min m t) current.failed failed (omega arith),
    )

Forward-deliver :
    (b : Bool) (current row : BriefingRow)
    → Forward current row
    → Forward current (if b then record row { delivery = delivered } else row)
Forward-deliver true current row v = record {
  counts = v.counts;
  completed = v.completed;
  total = v.total;
  failed = v.failed;
  terminal = v.terminal;
  delivered = λ h. refl;
}
Forward-deliver false current row v = v

Forward-refl : (current : BriefingRow) → Counts current → Forward current current
Forward-refl current v = record {
  counts = v;
  completed = omega arith;
  total = omega arith;
  failed = omega arith;
  terminal = λ h. refl;
  delivered = λ h. h;
}

same_collection_lem :
    (a b : BriefingCollectionState)
    → (is_collecting a || same_collection a b) ≡ true
    → is_collecting a ≡ false
    → b ≡ a
same_collection_lem a b h k = ground arith

forwarded-Forward :
    (current incoming : BriefingRow)
    → Counts current
    → (is_collecting current.collection || same_collection current.collection incoming.collection)
      ≡ true
    → Forward current (forwarded current incoming)
forwarded-Forward current incoming v g =
    let (counts, completed, total, failed) = forwarded-Counts current incoming v in
    record {
      counts = counts;
      completed = completed;
      total = total;
      failed = failed;
      terminal =
          λ h. unfold forwarded in same_collection_lem current.collection incoming.collection g h;
      delivered = λ h. unfold forwarded in h;
    }

-- An update merged into a row with valid counts leaves valid counts, none of them smaller than
-- before; a collection that had ended keeps how it ended, and a delivered row
-- stays delivered.
pub merged-Forward :
    (current incoming : BriefingRow) → Counts current → Forward current (merged current incoming)
unfolding merged
merged-Forward current incoming v =
    Forward-deliver _ current (if g then forwarded current incoming else current)
      (elim (Bool-cases g) [
        | inl yes_ ↦ rw yes_ (forwarded-Forward current incoming v yes_)
        | inr no_ ↦ rw no_ (Forward-refl current v)
      ])
  where
    g : Bool
    g = is_collecting current.collection || same_collection current.collection incoming.collection
