-- ===== src/Companion/View.antt =====
-- surfaces/desktop/src/state.rs: what the surfaces draw, and where the windows belong.
use scufris.Base.{String, Bool, true, false, not, Option, none, some, if◌then◌else◌}
use scufris.Companion.{
  Assistant, Delivery, refused, uncertain, Phase, resting, listening, transcribing, sent, retained,
  failed, Companion,
}

pub data Posture : Type 0 where
  editing watched passive off : Posture

unfoldable pub waits : Posture → Bool
waits Posture.editing = true
waits watched = true
waits _ = false

unfoldable pub on_screen : Posture → Bool
on_screen off = false
on_screen _ = true

unfoldable pub textbox : Posture → Bool
textbox Posture.editing = true
textbox _ = false

resident : Bool → Posture
resident true = off
resident false = passive

posture_of : Phase → Bool → Posture
unfolding resident
posture_of resting dismissed = resident dismissed
posture_of (sent t id p) dismissed = resident dismissed
posture_of (Phase.editing t id n) dismissed = Posture.editing
posture_of (retained t id r d w) dismissed = Posture.editing
posture_of listening dismissed = watched
posture_of transcribing dismissed = watched
posture_of (failed r) dismissed = watched

posture_seen : Option String → Phase → Bool → Posture
unfolding posture_of
posture_seen (some reason) p dismissed = off
posture_seen none p dismissed = posture_of p dismissed

unfoldable pub posture : Companion → Posture
unfolding posture_seen
posture c = posture_seen c.blind c.phase c.dismissed

pub record Presentation : Type 0 where
  pub state : String
  pub text : String
  pub detail : String
  pub editable : Bool
  pub recording : Bool

unfoldable pub name : Assistant → String
name Assistant.starting = "starting"
name Assistant.idle = "idle"
name Assistant.working = "working"
name Assistant.speaking = "speaking"
name Assistant.blocked = "blocked"
name Assistant.error = "failed"

unfoldable pub phase_name : Phase → String
phase_name resting = "resting"
phase_name listening = "listening"
phase_name transcribing = "transcribing"
phase_name (Phase.editing t id n) = "editing"
phase_name (sent t id p) = "sent"
phase_name (retained t id r d w) = "retained"
phase_name (failed r) = "failed"

unfoldable pub shown_assistant : Companion → Assistant
shown_assistant c = if c.speaking then Assistant.speaking else c.assistant

unfoldable pub resting_state : Companion → String
unfolding shown_assistant name
resting_state c = if not c.connected then "disconnected" else name (shown_assistant c)

unfoldable pub resting_detail : Companion → String
resting_detail c = if not c.connected then c.connection_detail else c.assistant_detail

abbrev is_refused : Delivery → Bool
is_refused refused = true
is_refused uncertain = false

shown : Companion → Phase → Presentation
unfolding resting_state resting_detail
shown c resting = record {
  state = resting_state c;
  text = "";
  detail = resting_detail c;
  editable = false;
  recording = false;
}
shown c listening = record {
  state = "listening";
  text = "";
  detail = "";
  editable = false;
  recording = true;
}
shown c transcribing = record {
  state = "transcribing";
  text = "";
  detail = "";
  editable = false;
  recording = false;
}
shown c (Phase.editing t id n) = record {
  state = "editing";
  text = t;
  detail = n;
  editable = true;
  recording = false;
}
shown c (sent t id p) = record {
  state = "sent";
  text = t;
  detail = "";
  editable = false;
  recording = false;
}
shown c (retained t id r d w) = record {
  state = if is_refused d then "retained" else "uncertain";
  text = t;
  detail = r;
  editable = is_refused d;
  recording = false;
}
shown c (failed r) = record {
  state = "error";
  text = "";
  detail = r;
  editable = false;
  recording = false;
}

shown_or_blind : Companion → Option String → Presentation
unfolding shown
shown_or_blind c none = shown c c.phase
shown_or_blind c (some reason) = record {
  state = "error";
  text = "";
  detail = reason;
  editable = false;
  recording = false;
}

unfoldable pub presentation : Companion → Presentation
unfolding shown_or_blind
presentation c = shown_or_blind c c.blind

tray_of : Companion → Phase → String × String
unfolding resting_state resting_detail
tray_of c listening = ("listening", "")
tray_of c transcribing = ("transcribing", "")
tray_of c (failed r) = ("error", r)
tray_of c (retained t id r d w) = ("attention", r)
tray_of c _ = (resting_state c, resting_detail c)

tray_or_blind : Companion → Option String → String × String
unfolding tray_of
tray_or_blind c none = tray_of c c.phase
tray_or_blind c (some reason) = ("error", reason)

unfoldable pub tray_presentation : Companion → String × String
unfolding tray_or_blind
tray_presentation c = tray_or_blind c c.blind
