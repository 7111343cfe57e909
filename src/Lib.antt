-- ===== src/Lib.antt =====
-- Verification library of the Scufris voice assistant.
--
-- The program has a host service (host/service), which owns the conversation with the agent, and
-- surfaces, of which the desktop one (surfaces/desktop) records the person's voice, shows what was
-- transcribed and sends it. They speak the control protocol of shared/control. The library models
-- the parts that decide, not the sockets, windows, devices and processes around them:
--
-- - Control: the protocol that both sides share. Control/State has the states and holders that the
--   service reports, Control/Text the bounds on text of shared/control/src/lib.rs, and
--   Control/Message a canonical message and its validators of shared/control/src/service.rs, in
--   the order of their checks and with their errors. A string is a list of code points, counted in
--   bytes of UTF-8 where the source counts bytes. A JSON value is a parameter, as the size of its
--   encoding is.
-- - Companion: `Companion` of surfaces/desktop/src/state.rs. A state is a record with the fields
--   of the source; `apply` in Companion/Machine takes an event and returns the next state with the
--   list of actions, arm by arm of `transition`. Companion/View has `posture`, `presentation` and
--   `tray_presentation`. Companion/World makes one step of every entry into the companion, and has
--   what each action is documented to do to the microphone, the transcriber and the store of the
--   pending transcript.
-- - Conversation: `ConversationHistory` of host/service/src/conversation.rs. The queue is a list,
--   its front first. Conversation/Store has the operations that write the snapshot and
--   Conversation/Load the ones that read it. `serde_json` is the parameter `Json`. What the file
--   system does to a write is an argument of type `Fault`: it fails before the rename, after it,
--   or nowhere.
-- - PendingStore: `FilePendingStore` of surfaces/desktop/src/pending.rs, which keeps an accepted
--   transcript on disk, and `clear_pending` and `discard_pending` of surfaces/desktop/src/app.rs.
--   Its JSON library is a parameter of its own, `RecordJson`.
-- - Briefings: `BriefingStore` of host/service/src/briefings.rs. Briefings/Store has the snapshot
--   and the operations on rows that are there, Briefings/Upsert the merge of an update and the
--   bound on the rows, Briefings/Changes the dismissal and the operations as one step, and
--   Briefings/Load the reading of the snapshot and the start. The set of dismissed generations is
--   a list. Its rows and wakes are in Control/Briefing.
-- - Service: `Service` and its `Inner` of host/service/src/service.rs. The state under the lock is
--   the record `Inner`; what the clock, the disks and the outboxes answer is its `world`, and what
--   was sent is kept there, the newest first. A section of code that runs under the lock is a
--   function from a state to a state and to what its thread does next; Service/Machine makes each
--   of them one step, and a run is any list of them, so that it has every order in which the
--   threads can take the lock. Service/Folded has the word of the tray, Service/Outbox what is sent,
--   Service/Proactive the slot of a proactive turn, Service/Turns and Service/Answers what the
--   agent reports, Service/Surfaces, Service/Agents, Service/Leases and Service/Ingress the channels,
--   Service/Process the process, with the events of host/service/src/rpc.rs, and Service/Schema the
--   check of widget calls. Service/Stdout reads the lines of the process, Service/Waiting is a
--   request for the lease as a whole, with what other threads do while it waits, and
--   Service/Together a submission with the attachment store behind it. The JSON library, the
--   comparison of paths, the start of a process, the
--   text of an error and what the attachment store answers are the parameter `Env`. Properties of
--   the service stand with what they are about: Service/Fence and Service/Kept for the lease,
--   Service/Recorded and Service/Submitted for the replay, Service/Granted, Service/Heard,
--   Service/Watch, Service/Word, Service/Panics, Service/Depth and Service/Backoff.
-- - Control also has the channels: Control/Surface, Control/Agent and Control/Local their messages and
--   validators, and Control/Wire the framing of a line, with the JSON library as `Codec`.
--   Control/Lines has the lines of a stream, and Control/Cut is about `truncate`, which
--   Control/Text has.
-- - Attachments: `AttachmentStore` of host/service/src/attachment.rs and the content API over it. A
--   store is the index with the two directories, `objects` and `metadata`; what a call meets (the
--   clock, the identifier drawn, which calls the file system lets through, the JSON library) is its
--   `Host` and its `Putting`. Attachments/Puts has `put`, `import` and `put_reader`, Attachments/Reads
--   `resolve`, `stat`, `read` and the reading at a start, Attachments/Ranges the byte range of a
--   request, and Attachments/Api the handlers. Attachments/Lives runs any calls, one after another,
--   as the lock of the store orders them. Of the other modules Attachments/Indexed is about the
--   quota, Attachments/Backed and Attachments/Stored about the files behind the index, and
--   Attachments/Trusted, Attachments/Listed and Attachments/Starts about a start.
-- - Widgets: surfaces/desktop/src/widgets. Widgets/Turn is `Turn` of turn.rs, in atomic steps of the
--   threads around it, and Widgets/Pool is `Pool` of pool.rs, in what happens under its lock; a run
--   is any list of such steps.
-- - Focus: `FocusTracker` of surfaces/desktop/src/focus.rs. What the X server answers is the record
--   `Display`; the walk up the window tree runs at most 32 rounds, as in the source.
--
-- The parts meet in the messages: Conversation keeps messages that Control validates, and reading a
-- snapshot validates them again. Service calls the operations of Conversation and of Briefings, each
-- with what its write meets, and a submission asks Attachments for what it refers to.
--
-- Numbers are natural numbers. A counter of 64 bits wraps where the source lets it (`u64` of
-- Companion), and the sequences of the replay are plain numbers with the source's checks. The loop
-- that trims a loaded replay runs on as many rounds as there are entries, and the one that makes
-- room in the briefing store on as many as there are rows, which is enough, since each round removes one;
-- so does the one that fits a snapshot of the older bound. A reader of pages runs on fuel that is
-- more than the entries it is to read. The check of a value against a schema runs on one more than
-- how deep the value is nested, the reading of a stream on one more than its bytes, and the wait for
-- a turn on more than the 200 looks that fit its time. The counters of the service (of leases,
-- processes and surfaces in 64 bits, of failures and proactive turns in 32), and of the pool of
-- widget shells (the labels minted, in 32), do not wrap in the model. The bytes that a put reads
-- are cut one above the bound of an attachment, as in the source.
--
-- Not modelled: threads beyond the order of their steps, sockets, windows, audio, speech, the
-- agent's process, file modes and temporary files. The sockets and the start of the service, the
-- command line front ends, and the event loop, the windows and the devices of the desktop are calls
-- of the operating system, of a window toolkit or of an HTTP library, whose answers are arguments
-- here. The command socket of the desktop and the runtime and the catalog of its widgets decide
-- something of their own and have no model here either.
pub mod Attachments
pub mod Base
pub mod Briefings
pub mod Companion
pub mod Control
pub mod Conversation
pub mod Focus
pub mod PendingStore
pub mod Service
pub mod Widgets
