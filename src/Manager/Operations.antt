-- ===== src/Manager/Operations.antt =====
-- manager.go: what creates, changes and deletes sessions, and the delegation to them.
use wavonyx.Prelude.{map, [], ◌∷◌, ◌++◌, Option, none, some, Str, is_empty, if◌then◌else◌}
use wavonyx.Errors.{
  Sentinel, Error, sentinel, Result, ok, err, ◌>>=◌, ◌>>◌, is, invalid_session_id,
  session_not_found, session_exists, registry_exists, registry_not_found,
}
use wavonyx.Message.{Time, SessionInfo}
use wavonyx.Typing.Options.{Rng}
use wavonyx.Registry
use wavonyx.Registry.{Row, Table}
use wavonyx.Session.State.{Session, World}
use wavonyx.Session.Pairing.{info, set_webhook_url}
use wavonyx.Session.Login.{stop}
use wavonyx.Manager.{
  Manager, Url, is_session_id, validate_webhook_url, new_session, session_of, put, drop_session,
  session,
}

-- A refusal of the registry, as the manager reports it.
abbrev pub reported : Sentinel → Sentinel → Error → Error
reported from to e = if is e from then sentinel to else e

abbrev pub chosen_id : Str → Str → Result Str
chosen_id generated id =
    if is_empty id
    then ok generated
    else (if is_session_id id then ok id else err (sentinel invalid_session_id))

abbrev pub new_row : Str → Str → Time → Row
new_row id url now = record { id = id; jid = []; webhook_url = url; created_at = now }

-- What the registry's answer makes of a creation.
unfoldable pub registered : Result (Unit {0}) × Table → Str → Manager → Result Str × Manager
registered (err e, t) id m =
    (err (reported registry_exists session_exists e), record m { table = t })
registered (ok u, t) id m = (ok id, record m { table = t })

-- The first part of `Create`, up to the registry: the id whose session is to be added.
unfoldable pub create_row : Result Str → Str → Time → Option Str → Manager → Result Str × Manager
unfolding registered
create_row (err e) url now refused m = (err e, m)
create_row (ok id) url now refused m =
    registered (Registry.create refused now (new_row id url now) m.table) id m

-- The second part, under the manager's lock.
unfoldable pub add : Option Session → Str → Session → Manager → Result SessionInfo × Manager
add (some old) id s m = (err (sentinel session_exists), m)
add none id s m = (ok (info [] s).1, record m { sessions = put id s m.sessions })

unfoldable pub create_session :
    Str → Str → Time → Option Rng → Manager → Result SessionInfo × Manager
unfolding add
create_session id url now rng m =
    add (session_of id m.sessions) id (new_session m rng id [] url now) m

unfoldable pub created :
    Str → Time → Option Rng → Result Str × Manager → Result SessionInfo × Manager
unfolding create_session
created url now rng (err e, m) = (err e, m)
created url now rng (ok id, m) = create_session id url now rng m

-- What the registry's answer makes of a change of the URL of the session `s`.
unfoldable pub redirected : Result (Unit {0}) × Table → Session → Manager → Result Session × Manager
redirected (err e, t) s m =
    (err (reported registry_not_found session_not_found e), record m { table = t })
redirected (ok u, t) s m = (ok s, record m { table = t })

-- The first part of `UpdateWebhook`, from the session that was found to the registry.
unfoldable pub update_row :
    Result Session → Str → Str → Option Str → Manager → Result Session × Manager
unfolding redirected
update_row (err e) id url refused m = (err e, m)
update_row (ok s) id url refused m = redirected (Registry.update_webhook refused id url m.table) s m

-- The second part, on the session that was found, `s`: it is in the map, as other calls have left it, unless
-- it has been deleted meanwhile. `name` is the push name that a client answers.
unfoldable pub update_found :
    Option Session → Str → Str → Str → Session → Manager → Result SessionInfo × Manager
update_found (some t) name id url s m =
    let (t', i) = info name (set_webhook_url url t) in
    (ok i, record m { sessions = put id t' m.sessions })
update_found none name id url s m = (ok (info name (set_webhook_url url s)).1, m)

unfoldable pub update_session : Str → Str → Str → Session → Manager → Result SessionInfo × Manager
unfolding update_found
update_session name id url s m = update_found (session_of id m.sessions) name id url s m

unfoldable pub updated : Str → Str → Str → Result Session × Manager → Result SessionInfo × Manager
unfolding update_session
updated name id url (err e, m) = (err e, m)
updated name id url (ok s, m) = update_session name id url s m

module _ (parse : Str → Option Url) where
  -- The checks of `Create` that come before the registry.
  abbrev pub checked_id : Str → Str → Str → Result Str
  checked_id generated id url = do
    chosen ← chosen_id generated id
    validate_webhook_url parse url
    ok chosen

  -- `Create` at the instant `now`, with nothing between its parts: `generated` is the new id, `rng` the
  -- new generator, and `refused` what the database answers, if it is another error than that the id
  -- is taken.
  unfoldable pub create :
      Str → Str → Str → Time → Option Rng → Option Str → Manager → Result SessionInfo × Manager
  unfolding create_row created
  create generated id url now rng refused m =
      created url now rng (create_row (checked_id generated id url) url now refused m)

  -- `UpdateWebhook`, with nothing between its parts.
  unfoldable pub update_webhook :
      Str → Str → Str → Option Str → Manager → Result SessionInfo × Manager
  unfolding update_row updated
  update_webhook name id url refused m =
      updated name id url
        (update_row (validate_webhook_url parse url >> session id m) id url refused m)

-- An operation on the session of an id: its calls are added to the trace.
unfoldable pub delegated {ℓ} :
    {A : Type ℓ} → Result Session → Str → (World → Result A × World) → Manager → Result A × Manager
delegated (err e) id op m = (err e, m)
delegated (ok s) id op m =
    let (r, w) = op (record { session = s; trace = [] }) in
    (
      r,
      record m {
        sessions = put id w.session m.sessions;
        trace = map (λ e. (id, e)) w.trace ++ m.trace;
      },
    )

-- `Login`, `QR`, `Logout`, `Send`, `SendMedia`, `EditMessage`, `RevokeMessage`, `Recent`, `DownloadMedia`
-- and `Get`: each is `on_session` for the session's operation of that name.
unfoldable pub on_session {ℓ} :
    {A : Type ℓ} → Str → (World → Result A × World) → Manager → Result A × Manager
unfolding delegated
on_session id op m = delegated (session id m) id op m

abbrev pub with_device : Str → Manager → Manager
with_device jid m = if is_empty jid then m else record m { devices = jid ∷ m.devices }

-- The first part of `Delete`: the session that was found stops, and its device is deleted. An error of
-- `DeleteDevice` is only logged.
unfoldable pub stop_session : Result Session → Str → Manager → Result (Unit {0}) × Manager
unfolding stop
stop_session (err e) id m = (err e, m)
stop_session (ok s) id m =
    let w = stop (record { session = s; trace = [] }) in
    (
      ok tt,
      with_device s.jid (record m {
        sessions = put id w.session m.sessions;
        trace = map (λ e. (id, e)) w.trace ++ m.trace;
      }),
    )

-- The second part, the registry's; that it has no such row is no error.
unfoldable pub unregistered : Result (Unit {0}) × Table → Manager → Result (Unit {0}) × Manager
unregistered (ok u, t) m = (ok tt, record m { table = t })
unregistered (err e, t) m =
    (if is e registry_not_found then ok tt else err e, record m { table = t })

unfoldable pub delete_row : Str → Option Str → Manager → Result (Unit {0}) × Manager
unfolding unregistered
delete_row id refused m = unregistered (Registry.delete refused id m.table) m

-- The third part, under the manager's lock.
unfoldable pub delete_session : Str → Manager → Manager
delete_session id m = record m { sessions = drop_session id m.sessions }

unfoldable pub deleted : Str → Result (Unit {0}) × Manager → Result (Unit {0}) × Manager
unfolding delete_session
deleted id (err e, m) = (err e, m)
deleted id (ok u, m) = (ok tt, delete_session id m)

unfoldable pub stopped :
    Str → Option Str → Result (Unit {0}) × Manager → Result (Unit {0}) × Manager
unfolding delete_row deleted
stopped id refused (err e, m) = (err e, m)
stopped id refused (ok u, m) = deleted id (delete_row id refused m)

-- `Delete`, with nothing between its parts.
unfoldable pub delete : Str → Option Str → Manager → Result (Unit {0}) × Manager
unfolding stop_session stopped
delete id refused m = stopped id refused (stop_session (session id m) id m)
