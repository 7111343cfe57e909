-- ===== src/Control/State.antt =====
-- shared/control/src/service.rs: what the service says the agent is doing, and who the agent is.
pub data ScufrisState : Type 0 where
  starting idle working blocked failed : ScufrisState

pub data AgentHolder : Type 0 where
  managed terminal : AgentHolder
