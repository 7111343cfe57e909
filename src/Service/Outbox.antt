-- ===== src/Service/Outbox.antt =====
-- host/service/src/service.rs: what the service sends, to which surfaces and to the agent, and what
-- it writes. An outbox that has no room loses its surface, or the agent.
use text.Mathlib.Text.{◌==◌ as ◌=ˢ◌}
use scufris.Base.{
  ℕ, String, Bool, true, false, Option, none, some, List, [], ◌∷◌, ◌==◌, if◌then◌else◌,
}
use scufris.Base.Files.{Node, Fault, nowhere}
use scufris.Base.Result.{Result}
use scufris.Control.Message.{ConversationMessage}
use scufris.Control.Surface.{SurfaceResponseBody, message}
use scufris.Control.Agent.{AgentResponseBody}
use scufris.Conversation.{ConversationHistory, latest_sequence}
use scufris.Conversation.Store.{Disk, PersistError, Stored as Kept, record_message as store_message}
use scufris.Briefings.{BriefingStore}
use scufris.Service.{
  RegisteredSurface, AgentConnection, Sent, to_surface, to_agent, World, Inner, Env,
}

unfoldable pub find_surface {ℓ} : {A : Type ℓ} → String → List (String × A) → Option A
find_surface id [] = none
find_surface id ((name, held) ∷ rest) = if name =ˢ id then some held else find_surface id rest

unfoldable pub remove_surface {ℓ} : {A : Type ℓ} → String → List (String × A) → List (String × A)
remove_surface id [] = []
remove_surface id ((name, held) ∷ rest) =
    if name =ˢ id then remove_surface id rest else (name, held) ∷ remove_surface id rest

unfoldable pub find_connection {ℓ} : {A : Type ℓ} → ℕ → List (ℕ × A) → Option A
find_connection c [] = none
find_connection c ((d, held) ∷ rest) = if d == c then some held else find_connection c rest

unfoldable pub remove_connection {ℓ} : {A : Type ℓ} → ℕ → List (ℕ × A) → List (ℕ × A)
remove_connection c [] = []
remove_connection c ((d, held) ∷ rest) =
    if d == c then remove_connection c rest else (d, held) ∷ remove_connection c rest

abbrev pub Surfaces : Type 0 → Type 0
Surfaces Value = List (String × RegisteredSurface Value)

abbrev pub Connections : Type 0
Connections = List (ℕ × (String × ℕ))

abbrev pub first_write : List Fault → Fault
first_write [] = nowhere
first_write (fault ∷ rest) = fault

abbrev pub later_writes : List Fault → List Fault
later_writes [] = []
later_writes (fault ∷ rest) = rest

module _ {Value : Type 0} where
  unfoldable pub forget : Option (RegisteredSurface Value) → Connections → Connections
  unfolding remove_connection
  forget none connections = connections
  forget (some old) connections = remove_connection old.sender.connection connections

  -- `drop_surface` on the two maps.
  unfoldable pub drop_from : String → Surfaces Value × Connections → Surfaces Value × Connections
  unfolding forget find_surface remove_surface
  drop_from id (surfaces, connections) =
      (remove_surface id surfaces, forget (find_surface id surfaces) connections)

  unfoldable pub drop_all_from :
      List String → Surfaces Value × Connections → Surfaces Value × Connections
  unfolding drop_from
  drop_all_from [] table = table
  drop_all_from (id ∷ ids) table = drop_all_from ids (drop_from id table)

  unfoldable pub drop_surface : Inner Value → String → Inner Value
  unfolding drop_from
  drop_surface s id =
      let (surfaces, connections) = drop_from id (s.surfaces, s.surface_by_connection) in
      record s { surfaces = surfaces; surface_by_connection = connections }

  -- `try_send`: an outbox takes a message, or it is full or gone.
  unfoldable pub try_send : World Value → List Bool → Sent Value → Bool × World Value
  try_send world [] m = (true, record world { sent = m ∷ world.sent })
  try_send world (true ∷ takes) m = (true, record world { takes = takes; sent = m ∷ world.sent })
  try_send world (false ∷ takes) m = (false, record world { takes = takes })

  -- The message that is offered to one surface, and whom it was lost on.
  unfoldable pub offer_one :
      World Value
      → Option (RegisteredSurface Value)
      → String
      → SurfaceResponseBody Value
      → World Value × List String
  unfolding try_send
  offer_one world none id body = (world, [])
  offer_one world (some held) id body =
      let (took, world') = try_send world world.takes (to_surface held.sender.connection body) in
      (world', if took then [] else id ∷ [])

  unfoldable pub send_surface : Inner Value → String → SurfaceResponseBody Value → Inner Value
  unfolding offer_one drop_all_from find_surface
  send_surface s surface body =
      let (world, failed) = offer_one s.world (find_surface surface s.surfaces) surface body in
      let (surfaces, connections) = drop_all_from failed (s.surfaces, s.surface_by_connection) in
      record s { surfaces = surfaces; surface_by_connection = connections; world = world }

  unfoldable pub offer_all :
      World Value → Surfaces Value → SurfaceResponseBody Value → World Value × List String
  unfolding try_send
  offer_all world [] body = (world, [])
  offer_all world ((id, held) ∷ rest) body =
      let (took, world') = try_send world world.takes (to_surface held.sender.connection body) in
      let (world'', failed) = offer_all world' rest body in
      (world'', if took then failed else id ∷ failed)

  abbrev pub offer_some :
      World Value → Surfaces Value → Option (SurfaceResponseBody Value) → World Value × List String
  unfolding offer_all
  offer_some world surfaces none = (world, [])
  offer_some world surfaces (some body) = offer_all world surfaces body

  -- A broadcast of the message that there is, if there is one.
  unfoldable pub broadcast_some : Inner Value → Option (SurfaceResponseBody Value) → Inner Value
  unfolding offer_some drop_all_from
  broadcast_some s body =
      let (world, failed) = offer_some s.world s.surfaces body in
      let (surfaces, connections) = drop_all_from failed (s.surfaces, s.surface_by_connection) in
      record s { surfaces = surfaces; surface_by_connection = connections; world = world }

  unfoldable pub broadcast : Inner Value → SurfaceResponseBody Value → Inner Value
  unfolding broadcast_some
  broadcast s body = broadcast_some s (some body)

  unfoldable pub offer_agent :
      World Value → Option AgentConnection → AgentResponseBody Value → Bool × World Value
  unfolding try_send
  offer_agent world none body = (false, world)
  offer_agent world (some agent) body = try_send world world.takes (to_agent agent.connection body)

  unfoldable pub send_agent : Inner Value → AgentResponseBody Value → Bool × Inner Value
  unfolding offer_agent
  send_agent s body =
      let (took, world) = offer_agent s.world s.agent body in
      (took, record s { agent = if took then s.agent else none; world = world })

  -- One operation of the briefing store, with what its write meets.
  abbrev pub on_briefings {ℓ} :
      {A : Type ℓ}
      → (Fault → BriefingStore Value → Node → A × BriefingStore Value × Node)
      → Inner Value
      → A × Inner Value
  on_briefings operation s =
      let (r, briefings, node) =
        operation (first_write s.world.writes) s.briefings s.world.briefing_disk in
      (
        r,
        record s {
          briefings = briefings;
          world = record s.world { writes = later_writes s.world.writes; briefing_disk = node };
        },
      )

module _ {Value : Type 0} (env : Env Value) where
  -- One operation of the replay, with what its write meets.
  abbrev pub on_conversation :
      {A : Type 0}
      → (Fault → ConversationHistory Value → Disk → Kept env.conversation_json A)
      → Inner Value
      → Result PersistError A × Inner Value
  on_conversation operation s =
      let (r, conversation, disk) =
        operation (first_write s.world.writes) s.conversation s.world.conversation_disk in
      (
        r,
        record s {
          conversation = conversation;
          world = record s.world { writes = later_writes s.world.writes; conversation_disk = disk };
        },
      )

  -- A replay that could not be stored still has the message: its place comes back either way.
  unfoldable pub record_message : Inner Value → ConversationMessage Value → ℕ × Inner Value
  unfolding broadcast
  record_message s m =
      let (stored, s') =
        on_conversation (λ fault h disk. store_message env.conversation_json fault h m disk) s in
      (latest_sequence s'.conversation, broadcast s' (message m))
