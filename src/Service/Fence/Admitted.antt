-- ===== src/Service/Fence/Admitted.antt =====
-- host/service/src/service.rs: the fence through an admission and the grant of a lease.
use scufris.Base.{
  ℕ, ◌+◌, String, Bool, true, false, Option, none, some, ◌≡◌, refl, arith, if◌then◌else◌,
}
use scufris.Control.State.{AgentHolder, terminal}
use scufris.Control.Agent.{AgentSession, handoff}
use scufris.Control.Local.{LeaseHolder}
use scufris.Service.{AgentConnection, Inner, Env, is_there}
use scufris.Service.Outbox.{send_agent}
use scufris.Service.Proactive.{agent_left}
use scufris.Service.Agents.{
  offer_new, send_catch_up, missed, adopt_some, settle_terminal, connect, join, answer_hello,
  admit_agent, unregister_agent,
}
use scufris.Service.Leases.{generation_of, hand_off, with_lease, grant, restart_unless_stopping}
use scufris.Service.Kept.{
  Keeps, kept, kept-then, kept-if, fst-kept, send_agent-kept, agent_left-kept, agent_left-none,
}
use scufris.Service.Fence.{
  Issued, IsFenced, none-Matches, accepted-lease, both_none, named_Matches, kept-IsFenced,
  cleared-IsFenced, settle_terminal-kept, adopt_some-kept, send_catch_up-kept,
}

module _ {Value : Type 0} (env : Env Value) where
  pub hand_off-kept :
      (b : Bool) (s : Inner Value) (generation : ℕ) (next : AgentHolder)
      → Keeps s (hand_off env b s generation next)
  unfolding hand_off
  hand_off-kept false s generation next = kept s
  hand_off-kept true s generation next =
      let sent = (send_agent s (handoff generation next)).1 in
      kept-then s sent (agent_left env sent) (send_agent-kept s _) (agent_left-kept env sent)

  pub hand_off-none :
      (s : Inner Value) (generation : ℕ) (next : AgentHolder)
      → (hand_off env true s generation next).agent ≡ none
  unfolding hand_off
  hand_off-none s generation next = agent_left-none env (send_agent s (handoff generation next)).1

  -- A hello is only taken when it fits the lease.
  pub join-IsFenced :
      (s : Inner Value) (connection : ℕ) (lease : Option ℕ) (session : Option AgentSession)
      → lease ≡ generation_of s.lease
      → IsFenced s
      → IsFenced (join env s connection lease session)
  unfolding join
  join-IsFenced s connection lease session e (m, i) =
      let s2 = connect s connection lease in
      let s3 = adopt_some s2 session in
      let s4 = settle_terminal s3 lease in
      let s5 = if missed env s session then send_catch_up s4 else s4 in
      kept-IsFenced s2 s5
        (kept-then s2 s4 s5
          (kept-then s2 s3 s4 (adopt_some-kept s2 session) (settle_terminal-kept s3 lease))
          (kept-if (missed env s session) s4 _ _ (send_catch_up-kept s4) (kept s4)))
        (named_Matches s.stopping _ s.lease e, i)

  pub answer_hello-IsFenced :
      (s : Inner Value) (connection : ℕ) (lease : Option ℕ) (session : Option AgentSession)
      (o : Option (String × String))
      → (o ≡ none → lease ≡ generation_of s.lease)
      → IsFenced s
      → IsFenced (answer_hello env s connection lease session o).0
  unfolding answer_hello offer_new
  answer_hello-IsFenced s connection lease session (some refused) e f = f
  answer_hello-IsFenced s connection lease session none e f =
      join-IsFenced s connection lease session (e refl) f

  pub admit_agent-IsFenced :
      (s : Inner Value) (connection : ℕ) (lease : Option ℕ) (session : Option AgentSession)
      → IsFenced s
      → IsFenced (admit_agent env s connection lease session).0
  unfolding admit_agent
  admit_agent-IsFenced s connection lease session f =
      answer_hello-IsFenced s connection lease session _
        (λ e. accepted-lease s.lease lease (both_none _ _ e).0) f

  pub unregister_agent-kept :
      (s : Inner Value) (connection : ℕ) → Keeps s (unregister_agent env s connection)
  unfolding unregister_agent
  unregister_agent-kept s connection = kept-if _ s _ _ (agent_left-kept env s) (kept s)

  pub hand_off-cleared :
      (s : Inner Value) (a : Option AgentConnection) (generation : ℕ) (next : AgentHolder)
      → s.agent ≡ a
      → Issued s.lease s.lease_generation
      → IsFenced (hand_off env (is_there a) s generation next)
  unfolding hand_off
  hand_off-cleared s none generation next e i = (rw e (none-Matches s.stopping s.lease), i)
  hand_off-cleared s (some agent) generation next e i =
      cleared-IsFenced s (hand_off env true s generation next)
        (hand_off-kept true s generation next) (hand_off-none s generation next) i

  pub grant-IsFenced :
      (s : Inner Value) (connection : ℕ) (who : LeaseHolder) → IsFenced (grant env s connection who)
  unfolding grant
  grant-IsFenced s connection who =
      hand_off-cleared (with_lease s connection who) s.agent (s.lease_generation + 1) terminal refl
        (omega arith)

  pub restart-kept : (s : Inner Value) → Keeps s (restart_unless_stopping env s).0
  unfolding restart_unless_stopping
  restart-kept s = fst-kept s.stopping s _ _ (kept s) (kept s)
