-- ===== src/Service/Watch.antt =====
-- host/service/src/service.rs: the thread that watches a lease, and that it comes to an end.
use scufris.Base.{
  ℕ, zero, suc, ◌+◌, ◌-◌, ◌*◌, ◌≤◌, Bool, true, false, Option, none, some, ◌≡◌, inl, inr, refl,
  arith, Bool-cases, ltb, ◌==◌, if◌then◌else◌,
}
use scufris.Service.{Lease, Inner, Env, lease_ping_interval, lease_deadline, done}
use scufris.Service.Leases.{
  hand_off, has_lease, end_held, end_lease, restart_unless_stopping, sweep_held, sweep_lease,
}
use scufris.Service.Kept.{kept-then}
use scufris.Service.Fence.Admitted.{hand_off-kept, restart-kept}
use scufris.Control.State.{managed}

same : (n : ℕ) → (n == n) ≡ true
same n = ground arith

module _ {Value : Type 0} where
  -- `thread::sleep` of the interval.
  abbrev pub sleeps : Inner Value → Inner Value
  sleeps s = record s { world = record s.world { now = s.world.now + lease_ping_interval } }

  abbrev early : Inner Value → Lease → Bool
  early s held = ltb (s.world.now + lease_ping_interval - held.last_ping) lease_deadline

  is_late :
      (s : Inner Value) (held : Lease)
      → held.last_ping + lease_deadline ≤ s.world.now + 1 * lease_ping_interval
      → early s held ≡ false
  is_late s held h = ground arith

  abbrev pub Ended : Bool × Inner Value → Type 0
  Ended (ended, s) = (ended ≡ true) × (s.lease ≡ none)

module _ {Value : Type 0} (env : Env Value) where
  -- The loop, with the number of checks that it is given. What comes back is whether it has ended.
  unfoldable pub watch_lease : ℕ → Inner Value → ℕ → Bool × Inner Value
  unfolding sweep_lease
  watch_lease zero s generation = (false, s)
  watch_lease (suc checks) s generation =
      let (ended, swept) = sweep_lease env (sleeps s) generation in
      let rest = watch_lease checks swept.0 generation in if ended then (true, swept.0) else rest

  end_held-none :
      (s : Inner Value) (o : Option Lease) → s.lease ≡ o → (end_held env s o).0.lease ≡ none
  unfolding end_held
  end_held-none s none e = e
  end_held-none s (some held) e =
      let free : Inner Value = record s { lease = none } in
      let left = hand_off env (has_lease held.generation s.agent) free held.generation managed in
      (kept-then free left (restart_unless_stopping env left).0
        (hand_off-kept env (has_lease held.generation s.agent) free held.generation managed)
        (restart-kept env left)).0

  -- A check of the lease that is watched, by what the clock says.
  sweep_lease-own :
      (s : Inner Value) (held : Lease)
      → s.lease ≡ some held
      → sweep_lease env s held.generation ≡ (
          if ltb (s.world.now - held.last_ping) lease_deadline
          then (false, (s, done))
          else (true, end_lease env s))
  unfolding sweep_lease sweep_held
  sweep_lease-own s held e = rw (e, same held.generation) refl

  swept-none :
      (s : Inner Value) (held : Lease) → s.lease ≡ some held → (end_lease env s).0.lease ≡ none
  unfolding end_lease
  swept-none s held e = end_held-none s s.lease refl

  watch-ends :
      (checks : ℕ) (s : Inner Value) (held : Lease)
      → s.lease ≡ some held
      → held.last_ping + lease_deadline ≤ s.world.now + suc checks * lease_ping_interval
      → Ended (watch_lease (suc checks) s held.generation)
  unfolding watch_lease
  watch-ends zero s held e h =
      rw (sweep_lease-own (sleeps s) held e, is_late s held h) (refl, swept-none (sleeps s) held e)
  watch-ends (suc checks) s held e h = elim (Bool-cases (early s held)) [
    | inr late ↦ rw (sweep_lease-own (sleeps s) held e, late) (refl, swept-none (sleeps s) held e)
    | inl soon ↦
        rw (sweep_lease-own (sleeps s) held e, soon)
          (watch-ends checks (sleeps s) held e (omega (arith, h)))
  ]

  -- A watch that nobody disturbs comes to its end at its third check at the latest, a holder that
  -- stays silent having lost the lease, where the last ping was not in the future.
  pub watch_lease-ends :
      (s : Inner Value) (held : Lease)
      → s.lease ≡ some held
      → held.last_ping ≤ s.world.now
      → Ended (watch_lease 3 s held.generation)
  watch_lease-ends s held e h = watch-ends 2 s held e (omega (arith, h))
