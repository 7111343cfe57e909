-- ===== src/Service/Fence/Released.antt =====
-- host/service/src/service.rs: the fence through the verbs of the lease, and its end.
use scufris.Base.{
  ℕ, String, Bool, true, false, not, ◌&&◌, ◌||◌, Option, none, some, ◌≡◌, refl, ◌==◌,
}
use scufris.Control.State.{managed}
use scufris.Control.Agent.{abort}
use scufris.Control.Local.{LeaseHolder}
use scufris.Service.{Lease, Inner, Env, is_there, is_failed, is_working, close_turn}
use scufris.Service.Outbox.{send_agent}
use scufris.Service.Leases.{
  has_lease, held_by, hand_off, granted_verb, ask_idle, ask_held, control_lease_acquire,
  lease_settled, restart_unless_stopping, end_held, end_lease, control_lease_release,
  control_disconnected, sweep_held, sweep_lease,
}
use scufris.Service.Kept.{send_agent-kept}
use scufris.Service.Fence.{
  Matches, IsFenced, not_its, kept-IsFenced, cleared-IsFenced, IsFenced-fst, IsFenced-verb,
}
use scufris.Service.Fence.Admitted.{hand_off-kept, hand_off-none, grant-IsFenced, restart-kept}

module _ {Value : Type 0} (env : Env Value) where
  released-by :
      (b : Bool) (s : Inner Value) (generation : ℕ)
      → (b ≡ false → Matches s.stopping s.agent none)
      → IsFenced (hand_off env b (record s { lease = none }) generation managed)
  unfolding hand_off
  released-by false s generation h = (h refl, tt)
  released-by true s generation h =
      let free : Inner Value = record s { lease = none } in
      cleared-IsFenced free (hand_off env true free generation managed)
        (hand_off-kept env true free generation managed) (hand_off-none env free generation managed)
        tt

  end_held-IsFenced :
      (s : Inner Value) (o : Option Lease)
      → Matches s.stopping s.agent o
      → IsFenced s
      → IsFenced (end_held env s o).0
  unfolding end_held
  end_held-IsFenced s none m f = f
  end_held-IsFenced s (some held) m f =
      let left =
        hand_off env (has_lease held.generation s.agent) (record s { lease = none }) held.generation
          managed in
      kept-IsFenced left (restart_unless_stopping env left).0 (restart-kept env left) (
        released-by (has_lease held.generation s.agent) s held.generation
          (not_its s.stopping s.agent held m))

  end_lease-IsFenced : (s : Inner Value) → IsFenced s → IsFenced (end_lease env s).0
  unfolding end_lease
  end_lease-IsFenced s (m, i) = end_held-IsFenced s s.lease m (m, i)

  pub release-IsFenced :
      (s : Inner Value) (connection : ℕ) (id : String)
      → IsFenced s
      → IsFenced (control_lease_release env s connection id).1.0
  unfolding control_lease_release
  release-IsFenced s connection id f =
      IsFenced-verb (held_by connection s.lease) _ _ (end_lease-IsFenced s f) f

  pub disconnect-IsFenced :
      (s : Inner Value) (connection : ℕ)
      → IsFenced s
      → IsFenced (control_disconnected env s connection).0
  unfolding control_disconnected
  disconnect-IsFenced s connection f =
      IsFenced-fst (held_by connection s.lease) _ _ (end_lease-IsFenced s f) f

  sweep_held-IsFenced :
      (s : Inner Value) (generation : ℕ) (o : Option Lease)
      → IsFenced s
      → IsFenced (sweep_held env s generation o).1.0
  unfolding sweep_held
  sweep_held-IsFenced s generation none f = f
  sweep_held-IsFenced s generation (some held) f =
      IsFenced-verb (not (held.generation == generation)) _ _ f
        (IsFenced-verb _ _ _ f (end_lease-IsFenced s f))

  pub sweep_lease-IsFenced :
      (s : Inner Value) (generation : ℕ) → IsFenced s → IsFenced (sweep_lease env s generation).1.0
  unfolding sweep_lease
  sweep_lease-IsFenced s generation f = sweep_held-IsFenced s generation s.lease f

  pub settled-IsFenced :
      (s : Inner Value) (connection : ℕ) (id : String) (who : LeaseHolder)
      → IsFenced s
      → IsFenced (lease_settled env s connection id who).1.0
  unfolding lease_settled
  settled-IsFenced s connection id who f =
      IsFenced-verb (s.stopping || is_there s.lease) _ _ f (grant-IsFenced env s connection who)

  ask_idle-IsFenced :
      (s : Inner Value) (connection : ℕ) (id : String) (who : LeaseHolder) (abort_working : Bool)
      → IsFenced s
      → IsFenced (ask_idle env s connection id who abort_working).1.0
  unfolding ask_idle granted_verb close_turn
  ask_idle-IsFenced s connection id who abort_working f =
      IsFenced-verb (is_failed s.lifecycle) _ _ f (
        IsFenced-verb (is_working s.lifecycle && not abort_working) _ _ f (
          IsFenced-verb (is_working s.lifecycle) _ _
            (kept-IsFenced s (send_agent s (abort id)).1 (send_agent-kept s (abort id)) f)
            (grant-IsFenced env s connection who)))

  ask_held-IsFenced :
      (s : Inner Value) (connection : ℕ) (id : String) (who : LeaseHolder) (abort_working : Bool)
      (o : Option Lease)
      → IsFenced s
      → IsFenced (ask_held env s connection id who abort_working o).1.0
  unfolding ask_held
  ask_held-IsFenced s connection id who abort_working none f =
      ask_idle-IsFenced s connection id who abort_working f
  ask_held-IsFenced s connection id who abort_working (some held) f =
      IsFenced-verb (held.connection == connection) _ _ f f

  pub acquire-IsFenced :
      (s : Inner Value) (connection : ℕ) (id : String) (who : LeaseHolder) (abort_working : Bool)
      → IsFenced s
      → IsFenced (control_lease_acquire env s connection id who abort_working).1.0
  unfolding control_lease_acquire
  acquire-IsFenced s connection id who abort_working f =
      IsFenced-verb (not env.terminal_lease) _ _ f (
        IsFenced-verb s.stopping _ _ f
          (ask_held-IsFenced s connection id who abort_working s.lease f))
