-- ===== src/Service/Waiting.antt =====
-- host/service/src/service.rs: `wait_for_settle`, and with it the whole of `control_lease_acquire`,
-- from the request to its answer, with what other threads do while it does not hold the lock.
use scufris.Base.{
  ℕ, zero, suc, ◌+◌, ◌*◌, String, Bool, true, false, Option, none, some, List, ltb, if◌then◌else◌,
}
use scufris.Control.Local.{LeaseHolder, ControlResponseBody}
use scufris.Service.{Inner, Env, Next, is_working}
use scufris.Service.Leases.{Asked, answered, settles, control_lease_acquire, lease_settled}
use scufris.Service.Machine.{Section, run}

abbrev pub abort_settle : ℕ
abort_settle = 10 * 1000

abbrev pub abort_step : ℕ
abort_step = 50

module _ {Value : Type 0} (env : Env Value) where
  -- The loop, on fuel, from the time that it has waited already. `during` is what other threads do
  -- in the sleep that it takes at each such time.
  unfoldable pub wait_for_settle :
      (ℕ → List (Section Value)) → ℕ → ℕ → Inner Value → Option (Bool × Inner Value)
  unfolding run
  wait_for_settle during zero waited s = none
  wait_for_settle during (suc fuel) waited s =
      let rest = wait_for_settle during fuel (waited + abort_step) (run env s (during waited)) in
      if ltb waited abort_settle
      then (if is_working s.lifecycle then rest else some (true, s))
      else some (false, s)

  -- The second lock, after what other threads do before it is taken.
  unfoldable pub acquire_settled :
      List (Section Value)
      → ℕ
      → String
      → LeaseHolder
      → Option (Bool × Inner Value)
      → Option (ControlResponseBody × Inner Value)
  unfolding lease_settled run
  acquire_settled between connection id who none = none
  acquire_settled between connection id who (some (settled, s)) =
      let (reply, (s', next)) = lease_settled env (run env s between) connection id who in
      some (reply, s')

  unfoldable pub acquire_rest :
      (ℕ → List (Section Value))
      → List (Section Value)
      → ℕ
      → ℕ
      → String
      → LeaseHolder
      → Asked × (Inner Value × Next)
      → Option (ControlResponseBody × Inner Value)
  unfolding wait_for_settle acquire_settled
  acquire_rest during between fuel connection id who (answered reply, (s, next)) = some (reply, s)
  acquire_rest during between fuel connection id who (settles, (s, next)) =
      acquire_settled between connection id who (wait_for_settle during fuel 0 s)

  -- A request for the lease and its answer.
  unfoldable pub acquire_lease :
      (ℕ → List (Section Value))
      → List (Section Value)
      → ℕ
      → Inner Value
      → ℕ
      → String
      → LeaseHolder
      → Bool
      → Option (ControlResponseBody × Inner Value)
  unfolding acquire_rest control_lease_acquire
  acquire_lease during between fuel s connection id who abort_working =
      acquire_rest during between fuel connection id who
        (control_lease_acquire env s connection id who abort_working)
