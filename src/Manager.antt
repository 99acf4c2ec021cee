-- ===== src/Manager.antt =====
-- manager.go: the sessions by their ids, beside the table of the registry.
pub mod Operations
pub mod Delegates
pub mod Sessions
pub mod Consistency
pub mod Agree
pub mod Events
pub mod Steps
pub mod Pending
pub mod Overlap
pub mod Reach
pub mod Held
pub mod Urls
pub mod Listing
pub mod Lifecycle
pub mod Loading
pub mod Keys
pub mod Forms
pub mod Formed
pub mod Invariant
mod Tests
use wavonyx.Prelude.{
  map, ℕ, Bool, true, false, not, ◌&&◌, ◌||◌, List, [], ◌∷◌, ◌++◌, Option, none, some, Str, codes,
  str_eq, is_empty, length, leb, ◌==◌, if◌then◌else◌,
}
use wavonyx.Prelude.Int.{ℤ, pos, ◌*ℤ◌}
use wavonyx.Errors.{
  Sentinel, Error, sentinel, send_error, media_error, outside, Result, ok, err, ◌>>=◌, ◌>>◌, guard,
  is, invalid_session_id, session_not_found, session_exists, invalid_webhook, registry_exists,
  registry_not_found,
}
use wavonyx.Message.{Time, Status, created, disconnected, logged_out, SessionInfo}
use wavonyx.Typing.Options.{Rng, second}
use wavonyx.Config.{Config}
use wavonyx.Ring.{new_ring}
use wavonyx.Registry
use wavonyx.Registry.{Row, Table}
use wavonyx.Session.State.{Session, World, Effect}
use wavonyx.Session.Pairing.{info, set_webhook_url}
use wavonyx.Session.Login.{stop}

-- `Manager`: the map of the sessions is an association list, and the registry is its table. `trace` are
-- the calls that sessions have made, with the ids of the sessions, the last one first; `devices` are
-- the devices that the store was asked to delete.
pub record Manager : Type 0 where
  pub cfg : Config
  pub has_hooks : Bool
  pub sessions : List (Str × Session)
  pub table : Table
  pub trace : List (Str × Effect)
  pub devices : List Str

-- A parsed URL, of which the code reads two parts.
pub record Url : Type 0 where
  pub scheme : Str
  pub host : Str

-- `sessionIDRe`
abbrev is_lower_alnum : ℕ → Bool
is_lower_alnum c = (leb b'a' c && leb c b'z') || (leb b'0' c && leb c b'9')

abbrev is_id_rest : Str → Bool
is_id_rest [] = true
is_id_rest (c ∷ s) = (is_lower_alnum c || c == b'_' || c == b'-') && is_id_rest s

unfoldable pub is_session_id : Str → Bool
is_session_id [] = false
is_session_id (c ∷ s) = is_lower_alnum c && is_id_rest s && leb (length s) 63

abbrev is_web_url : Option Url → Bool
is_web_url none = false
is_web_url (some u) =
    not (is_empty u.host) && (str_eq u.scheme (codes "http") || str_eq u.scheme (codes "https"))

-- `validateWebhookURL`; `parse` is `url.Parse`.
unfoldable pub validate_webhook_url : (Str → Option Url) → Str → Result (Unit {0})
validate_webhook_url parse raw = guard (is_empty raw || is_web_url (parse raw)) invalid_webhook

-- `initialStatus`
unfoldable pub initial_status : Str → Status
initial_status jid = if is_empty jid then created else disconnected

-- `newSession`
unfoldable pub new_session : Manager → Option Rng → Str → Str → Str → Time → Session
new_session m rng id jid url now = record {
  id = id;
  created_at = now;
  status = initial_status jid;
  jid = jid;
  push_name = [];
  webhook_url = url;
  client = none;
  qr_code = [];
  qr_expires_at = pos 0;
  pair_cancel = none;
  unread = [];
  ring = new_ring m.cfg.ring_size;
  send_ch = [];
  stopped = false;
  rng = rng;
  cfg = m.cfg;
  has_reg = true;
  has_hooks = m.has_hooks;
}

abbrev pub Sessions : Type 0
Sessions = List (Str × Session)

-- `m.sessions[id]`, `m.sessions[id] = s` and `delete(m.sessions, id)`
unfoldable pub session_of : Str → Sessions → Option Session
session_of id [] = none
session_of id ((k, s) ∷ m) = if str_eq k id then some s else session_of id m

unfoldable pub put : Str → Session → Sessions → Sessions
put id s [] = (id, s) ∷ []
put id s ((k, t) ∷ m) = if str_eq k id then (id, s) ∷ m else (k, t) ∷ put id s m

unfoldable pub drop_session : Str → Sessions → Sessions
drop_session id [] = []
drop_session id ((k, s) ∷ m) = if str_eq k id then drop_session id m else (k, s) ∷ drop_session id m

abbrev pub or_not_found : Option Session → Result Session
or_not_found none = err (sentinel session_not_found)
or_not_found (some s) = ok s

-- `session`
unfoldable pub session : Str → Manager → Result Session
session id m = or_not_found (session_of id m.sessions)
