-- ===== src/Service/Fence.antt =====
-- host/service/src/service.rs: the fence of the agent channel. The agent that is connected is the one
-- that the lease names, through every order of the sections.
pub mod Admitted
pub mod Released
pub mod Run
use scufris.Base.{
  ℕ, ◌+◌, ◌≤◌, String, Bool, true, false, not, ◌&&◌, ◌||◌, Option, none, some, List, [], ◌∷◌, ◌≡◌,
  ◌⊎◌, inl, inr, refl, ◌==◌, sym, ap, ◌∙◌, arith, Bool-cases, if◌then◌else◌,
}
use scufris.Control.State.{AgentHolder, managed, terminal}
use scufris.Control.Agent.{AgentSession, AgentResponseBody, abort, ready, rejected, handoff}
use scufris.Control.Local.{LeaseHolder}
use scufris.Conversation.{ConversationHistory}
use scufris.Briefings.{BriefingStore}
use scufris.Service.{
  AgentConnection, Lease, Lifecycle, World, Inner, Env, Next, is_there, is_failed, is_working,
  close_turn,
}
use scufris.Service.Outbox.{send_agent}
use scufris.Service.Proactive.{agent_left}
use scufris.Service.Turns.{adopt_session}
use scufris.Service.Agents.{
  refused_by_lease, refused_by_agent, held_by_other, or_else, offer_new, send_some, send_catch_up,
  missed, adopt_some, settle_terminal, connect, join, answer_hello, admit_agent, unregister_agent,
}
use scufris.Service.Answers.{of_connection}
use scufris.Service.Leases.{
  generation_of, has_lease, held_by, hand_off, with_lease, grant, granted_verb, ask_idle, ask_held,
  control_lease_acquire, lease_settled, restart_unless_stopping, end_held, end_lease,
  control_lease_release, control_disconnected, sweep_held, sweep_lease, ping_held,
  control_lease_ping,
}
use scufris.Service.Kept.{
  Keeps, kept, kept-then, kept-if, fst-kept, send_agent-kept, agent_left-kept, agent_left-none,
}

-- The agent's hello named the lease that is held, and none where none is; a service that stops has
-- let go of the lease.
abbrev pub Matches : Bool → Option AgentConnection → Option Lease → Type 0
Matches true agent lease = Unit
Matches false none lease = Unit
Matches false (some agent) lease = agent.lease ≡ generation_of lease

abbrev pub Issued : Option Lease → ℕ → Type 0
Issued none count = Unit
Issued (some held) count = held.generation ≤ count

abbrev pub IsFenced : {Value : Type 0} → Inner Value → Type 0
IsFenced s = Matches s.stopping s.agent s.lease × Issued s.lease s.lease_generation

pub none-Matches : (t : Bool) (l : Option Lease) → Matches t none l
none-Matches true l = tt
none-Matches false l = tt

pub Matches-moved :
    (t : Bool) (a a' : Option AgentConnection) (l : Option Lease)
    → (a' ≡ a) ⊎ (a' ≡ none)
    → Matches t a l
    → Matches t a' l
Matches-moved t a a' l (inl e) m = rw e m
Matches-moved t a a' l (inr e) m = rw e (none-Matches t l)

pub accepted-lease :
    (l : Option Lease) (lease : Option ℕ)
    → refused_by_lease l lease ≡ none
    → lease ≡ generation_of l
unfolding refused_by_lease held_by_other generation_of
accepted-lease none none e = refl
accepted-lease none (some named) e = ground arith
accepted-lease (some held) none e = ground arith
accepted-lease (some held) (some named) e = elim (Bool-cases (held.generation == named)) [
  | inl same ↦ ap some (ground arith)
  | inr other ↦ absurd (ground arith)
]

pub both_none : {A : Type 0} (a b : Option A) → or_else a b ≡ none → (a ≡ none) × (b ≡ none)
both_none none b e = (refl, e)
both_none (some x) b e = ground arith

pub has_lease-own : (a : AgentConnection) (g : ℕ) → a.lease ≡ some g → has_lease g (some a) ≡ true
unfolding has_lease
has_lease-own a g e = rw e (ground arith)

pub Matches-pinged :
    (t : Bool) (a : Option AgentConnection) (held : Lease) (now : ℕ)
    → Matches t a (some held)
    → Matches t a (some (record held { last_ping = now }))
unfolding generation_of
Matches-pinged true a held now m = m
Matches-pinged false none held now m = m
Matches-pinged false (some agent) held now m = m

-- An agent that fits the lease, and is not its terminal, is only there when all is stopping.
pub not_its :
    (t : Bool) (a : Option AgentConnection) (held : Lease)
    → Matches t a (some held)
    → has_lease held.generation a ≡ false
    → Matches t a none
unfolding generation_of
not_its true a held m e = tt
not_its false none held m e = tt
not_its false (some agent) held m e = absurd (cc (has_lease-own agent held.generation m, e))

pub named_Matches :
    (t : Bool) (a : AgentConnection) (l : Option Lease)
    → a.lease ≡ generation_of l
    → Matches t (some a) l
named_Matches true a l e = tt
named_Matches false a l e = e

module _ {Value : Type 0} where
  pub kept-IsFenced : (s s' : Inner Value) → Keeps s s' → IsFenced s → IsFenced s'
  kept-IsFenced s s' (l, t, g, a) (m, i) =
      (rw (l, t) (Matches-moved s.stopping s.agent s'.agent s.lease a m), rw (l, g) i)

  pub cleared-IsFenced :
      (s s' : Inner Value)
      → Keeps s s'
      → s'.agent ≡ none
      → Issued s.lease s.lease_generation
      → IsFenced s'
  cleared-IsFenced s s' (l, t, g, a) e i =
      (rw (l, t, e) (none-Matches s.stopping s.lease), rw (l, g) i)

  pub IsFenced-if :
      (b : Bool) (x y : Inner Value) → IsFenced x → IsFenced y → IsFenced (if b then x else y)
  IsFenced-if true x y fx fy = fx
  IsFenced-if false x y fx fy = fy

  pub IsFenced-fst :
      {A : Type 0} (b : Bool) (x y : Inner Value × A)
      → IsFenced x.0
      → IsFenced y.0
      → IsFenced (if b then x else y).0
  IsFenced-fst true x y fx fy = fx
  IsFenced-fst false x y fx fy = fy

  pub IsFenced-snd :
      {A : Type 0} (b : Bool) (x y : A × Inner Value)
      → IsFenced x.1
      → IsFenced y.1
      → IsFenced (if b then x else y).1
  IsFenced-snd true x y fx fy = fx
  IsFenced-snd false x y fx fy = fy

  pub IsFenced-verb :
      {A B : Type 0} (b : Bool) (x y : A × (Inner Value × B))
      → IsFenced x.1.0
      → IsFenced y.1.0
      → IsFenced (if b then x else y).1.0
  IsFenced-verb true x y fx fy = fx
  IsFenced-verb false x y fx fy = fy

  pub settle_terminal-kept : (s : Inner Value) (o : Option ℕ) → Keeps s (settle_terminal s o)
  unfolding settle_terminal
  settle_terminal-kept s none = kept s
  settle_terminal-kept s (some generation) = kept s

  pub adopt_some-kept : (s : Inner Value) (o : Option AgentSession) → Keeps s (adopt_some s o)
  unfolding adopt_some adopt_session
  adopt_some-kept s none = kept s
  adopt_some-kept s (some session) = kept s

  pub send_some-kept :
      (s : Inner Value) (o : Option (AgentResponseBody Value)) → Keeps s (send_some s o)
  unfolding send_some
  send_some-kept s none = kept s
  send_some-kept s (some body) = send_agent-kept s body

  pub send_catch_up-kept : (s : Inner Value) → Keeps s (send_catch_up s)
  unfolding send_catch_up
  send_catch_up-kept s = send_some-kept s _

  pub ping_held-IsFenced :
      (s : Inner Value) (connection : ℕ) (id : String) (o : Option Lease)
      → Matches s.stopping s.agent o × Issued o s.lease_generation
      → IsFenced s
      → IsFenced (ping_held s connection id o).1
  ping_held-IsFenced s connection id none h f = f
  ping_held-IsFenced s connection id (some held) (m, i) f =
      IsFenced-snd (held.connection == connection) _ _
        (Matches-pinged s.stopping s.agent held s.world.now m, i) f
