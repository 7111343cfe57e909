-- ===== src/Service/Granted.antt =====
-- host/service/src/service.rs: that a request for the lease is answered, and what a grant says.
use scufris.Base.{
  ℕ, zero, suc, ◌+◌, ◌*◌, ◌<◌, String, Bool, true, false, not, ◌&&◌, ◌||◌, Option, none, some, List,
  ltb, if◌then◌else◌, ◌≡◌, refl, arith, Bool-cases, inl, inr, ◌==◌,
}
use scufris.Control.State.{terminal}
use scufris.Control.Local.{LeaseHolder, ControlResponseBody, lease}
use scufris.Service.{Lease, Inner, Env, Next, is_working, is_there, is_failed}
use scufris.Service.Leases.{
  Asked, answered, settles, control_lease_acquire, lease_settled, grant, with_lease, lease_reply,
  ask_held, ask_idle, granted_verb,
}
use scufris.Service.Machine.{Section, run}
use scufris.Service.Fence.Admitted.{hand_off-kept}
use scufris.Service.Waiting.{
  abort_settle, abort_step, wait_for_settle, acquire_settled, acquire_rest, acquire_lease,
}

-- An answer that grants a lease names the one that its connection holds.
abbrev pub Names : {Value : Type 0} → Inner Value → ℕ → ControlResponseBody → Type 0
Names s connection (lease r) =
    (held : Lease) × (s.lease ≡ some held)
    × (held.connection ≡ connection)
    × (held.generation ≡ r.generation)
Names s connection _ = Unit

module _ {Value : Type 0} (env : Env Value) where
  -- The state at the look that follows so many sleeps.
  unfoldable pub after : (ℕ → List (Section Value)) → ℕ → ℕ → Inner Value → Inner Value
  unfolding run
  after during zero waited s = s
  after during (suc looks) waited s =
      after during looks (waited + abort_step) (run env s (during waited))

  -- What the wait reports of the look that it ended with, the last one that it may take being `n`.
  abbrev pub Reports : ℕ → ℕ → Inner Value → Bool → Type 0
  Reports n looks s true = (looks < n) × (is_working s.lifecycle ≡ false)
  Reports n looks s false = looks ≡ n

  abbrev pub IsWaited :
      (ℕ → List (Section Value)) → ℕ → ℕ → Inner Value → Option (Bool × Inner Value) → Type 0
  IsWaited during n waited s r =
      (looks : ℕ) × (settled : Bool) × (r ≡ some (settled, after during looks waited s))
      × ((i : ℕ) → i < looks → is_working (after during i waited s).lifecycle ≡ true)
      × Reports n looks (after during looks waited s) settled

  -- A turn that was open at a look was so at every look from then on, if at every later one.
  and_before :
      (during : ℕ → List (Section Value)) (looks waited : ℕ) (s : Inner Value)
      → is_working s.lifecycle ≡ true
      → ((i : ℕ)
          → i < looks
          → is_working (after during i (waited + abort_step) (run env s (during waited))).lifecycle
            ≡ true)
      → (i : ℕ) → i < suc looks
      → is_working (after during i waited s).lifecycle ≡ true
  unfolding after
  and_before during looks waited s working w zero h = working
  and_before during looks waited s working w (suc i) h = w i (omega (arith, h))

  later_Reports :
      (n looks : ℕ) (s : Inner Value) (settled : Bool)
      → Reports n looks s settled
      → Reports (suc n) (suc looks) s settled
  later_Reports n looks s true (h, e) = (omega (arith, h), e)
  later_Reports n looks s false e = omega (arith, e)

  waits-look :
      (during : ℕ → List (Section Value)) (n fuel waited : ℕ) (s : Inner Value) (working : Bool)
      → is_working s.lifecycle ≡ working
      → ltb waited abort_settle ≡ true
      → IsWaited during n
          (waited + abort_step)
          (run env s (during waited))
          (wait_for_settle env during fuel (waited + abort_step) (run env s (during waited)))
      → IsWaited during (suc n) waited s (wait_for_settle env during (suc fuel) waited s)
  unfolding after wait_for_settle
  waits-look during n fuel waited s false e within rest =
      rw (within, e) (zero, true, refl, (λ i k. absurd (omega arith)), (omega arith, e))
  waits-look during n fuel waited s true e within (looks, settled, r, w, p) =
      rw (within, e)
        (
          suc looks,
          settled,
          r,
          and_before during looks waited s e w,
          later_Reports n looks
              (after during looks (waited + abort_step) (run env s (during waited))) settled p,
        )

  waits :
      (during : ℕ → List (Section Value)) (n fuel waited : ℕ) (s : Inner Value)
      → waited + n * 50 ≡ abort_settle
      → n < fuel
      → IsWaited during n waited s (wait_for_settle env during fuel waited s)
  unfolding after wait_for_settle
  waits during n zero waited s e h = absurd (omega arith)
  waits during zero (suc fuel) waited s e h =
      let over : ltb waited abort_settle ≡ false = ground arith in
      rw over (zero, false, refl, (λ i k. absurd (omega arith)), refl)
  waits during (suc n) (suc fuel) waited s e h =
      let next = run env s (during waited) in
      waits-look during n fuel waited s (is_working s.lifecycle) refl (ground arith)
        (waits during n fuel (waited + abort_step) next (omega (arith, e)) (omega (arith, h)))

  -- The wait comes to its end after at most 200 sleeps: at the first look at which the turn is not
  -- open, which it reports as settled, or else after the last of them; on any fuel above 200.
  pub wait_for_settle-IsWaited :
      (during : ℕ → List (Section Value)) (fuel : ℕ) (s : Inner Value)
      → 200 < fuel
      → IsWaited during 200 0 s (wait_for_settle env during fuel 0 s)
  wait_for_settle-IsWaited during fuel s h = waits during 200 fuel 0 s (omega arith) h

  grant-Names :
      (s : Inner Value) (connection : ℕ) (id : String) (who : LeaseHolder)
      → let s' = grant env s connection who in
        Names s' connection (lease_reply env s' id (s.lease_generation + 1))
  unfolding grant lease_reply
  grant-Names s connection id who =
      let given = with_lease s connection who in
      let left = hand_off-kept env (is_there s.agent) given (s.lease_generation + 1) terminal in
      (_, left.0, refl, refl)

  abbrev NamesAsked : ℕ → Asked × (Inner Value × Next) → Type 0
  NamesAsked connection (answered reply, (s, next)) = Names s connection reply
  NamesAsked connection (settles, (s, next)) = Unit

  asked-if :
      (connection : ℕ) (b : Bool) (x y : Asked × (Inner Value × Next))
      → (b ≡ true → NamesAsked connection x)
      → NamesAsked connection y
      → NamesAsked connection (if b then x else y)
  asked-if connection true x y hx hy = hx refl
  asked-if connection false x y hx hy = hy

  ask_idle-Names :
      (s : Inner Value) (connection : ℕ) (id : String) (who : LeaseHolder) (abort_working : Bool)
      → NamesAsked connection (ask_idle env s connection id who abort_working)
  unfolding ask_idle granted_verb
  ask_idle-Names s connection id who abort_working =
      asked-if connection (is_failed s.lifecycle) _ _ (λ e. tt)
        (asked-if connection (is_working s.lifecycle && not abort_working) _ _ (λ e. tt)
          (asked-if connection (is_working s.lifecycle) _ _ (λ e. tt)
            (grant-Names s connection id who)))

  ask_held-Names :
      (s : Inner Value) (connection : ℕ) (id : String) (who : LeaseHolder) (abort_working : Bool)
      (o : Option Lease)
      → s.lease ≡ o
      → NamesAsked connection (ask_held env s connection id who abort_working o)
  unfolding ask_held lease_reply
  ask_held-Names s connection id who abort_working none e =
      ask_idle-Names s connection id who abort_working
  ask_held-Names s connection id who abort_working (some held) e =
      asked-if connection (held.connection == connection) _ _
        (λ same. (held, e, ground arith, refl)) tt

  control_lease_acquire-Names :
      (s : Inner Value) (connection : ℕ) (id : String) (who : LeaseHolder) (abort_working : Bool)
      → NamesAsked connection (control_lease_acquire env s connection id who abort_working)
  unfolding control_lease_acquire
  control_lease_acquire-Names s connection id who abort_working =
      asked-if connection (not env.terminal_lease) _ _ (λ e. tt)
        (asked-if connection s.stopping _ _ (λ e. tt)
          (ask_held-Names s connection id who abort_working s.lease refl))

  lease_settled-Names :
      (s : Inner Value) (connection : ℕ) (id : String) (who : LeaseHolder)
      → let (reply, (s', next)) = lease_settled env s connection id who in Names s' connection reply
  unfolding lease_settled
  lease_settled-Names s connection id who = elim (Bool-cases (s.stopping || is_there s.lease)) [
    | inl taken ↦ rw taken tt
    | inr free ↦ rw free (grant-Names s connection id who)
  ]

  -- What comes of a request: an answer, which names the lease that was granted if it is a grant.
  abbrev pub IsAcquired : ℕ → Option (ControlResponseBody × Inner Value) → Type 0
  IsAcquired connection none = ⊥
  IsAcquired connection (some (reply, s)) = Names s connection reply

  acquire_rest-IsAcquired :
      (during : ℕ → List (Section Value)) (between : List (Section Value)) (fuel : ℕ)
      (connection : ℕ) (id : String) (who : LeaseHolder) (asked : Asked × (Inner Value × Next))
      → 200 < fuel
      → NamesAsked connection asked
      → IsAcquired connection (acquire_rest env during between fuel connection id who asked)
  unfolding acquire_rest acquire_settled
  acquire_rest-IsAcquired during between fuel connection id who (answered reply, (s, next)) h n = n
  acquire_rest-IsAcquired during between fuel connection id who (settles, (s, next)) h n =
      let (looks, settled, r, w, p) = wait_for_settle-IsWaited during fuel s h in
      rw r (lease_settled-Names (run env (after during looks 0 s) between) connection id who)

  -- A request for the lease is answered, whatever other threads do while it waits for the open turn
  -- and before it takes the lock again, and an answer that grants a lease names the generation of the
  -- one that its connection then holds; on any fuel above 200.
  pub acquire_lease-IsAcquired :
      (during : ℕ → List (Section Value)) (between : List (Section Value)) (fuel : ℕ)
      (s : Inner Value) (connection : ℕ) (id : String) (who : LeaseHolder) (abort_working : Bool)
      → 200 < fuel
      → IsAcquired connection
          (acquire_lease env during between fuel s connection id who abort_working)
  unfolding acquire_lease
  acquire_lease-IsAcquired during between fuel s connection id who abort_working h =
      acquire_rest-IsAcquired during between fuel connection id who
        (control_lease_acquire env s connection id who abort_working) h
        (control_lease_acquire-Names s connection id who abort_working)
