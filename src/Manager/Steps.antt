-- ===== src/Manager/Steps.antt =====
-- manager.go: what happens to a manager, one critical section after the other.
use wavonyx.Prelude.{Bool, Option, none, some, Str, str_eq, ◌≡◌, if◌then◌else◌}
use wavonyx.Errors.{Error, Result, ok, err, ◌>>◌}
use wavonyx.Message.{Time}
use wavonyx.Typing.Options.{Rng}
use wavonyx.Config.{Config}
use wavonyx.Registry
use wavonyx.Registry.{Table}
use wavonyx.Registry.Order.{Keyed}
use wavonyx.Session.State.{Session, World}
use wavonyx.Manager.{validate_webhook_url, Manager, Url, session}
use wavonyx.Manager.Operations.{
  checked_id, create_row, create_session, update_row, update_session, stop_session, delete_row,
  delete_session, on_session,
}
use wavonyx.Manager.Listing.{list}
use wavonyx.Manager.Events.{Event}
use wavonyx.Manager.Lifecycle.{StartAnswers, start}
use wavonyx.Manager.Loading.{unstarted}

-- The parts that are left of a `Create`, of an `UpdateWebhook` that has found the session, and of a `Delete`.
pub data Rest : Type 0 where
  to_add : Str → Time → Option Rng → Rest
  to_redirect : Str → Str → Session → Rest
  to_unregister to_remove : Rest

-- A manager, with what is left of the operation that has begun on an id, if any.
pub record System : Type 0 where
  pub manager : Manager
  pub pending : Str → Option Rest

abbrev pub set : Str → Option Rest → (Str → Option Rest) → Str → Option Rest
set id o pending k = if str_eq id k then o else pending k

abbrev pub nothing : Str → Option Rest
nothing k = none

-- The parts that are the first to change anything, with the checks before them.
abbrev pub begin_create :
    (Str → Option Url) → Str → Str → Str → Time → Option Str → Manager → Result Str × Manager
begin_create parse generated id url now refused m =
    create_row (checked_id parse generated id url) url now refused m

abbrev pub begin_update :
    (Str → Option Url) → Str → Str → Option Str → Manager → Result Session × Manager
begin_update parse id url refused m =
    update_row (validate_webhook_url parse url >> session id m) id url refused m

-- A part of an operation; an operation of one session, or an event of it; a list; a new JID that a session
-- reports to the registry; or the end of the process, whatever has begun, and a start of another on the same
-- registry. Between the parts of an operation anything else may happen, but that another `Create`,
-- `UpdateWebhook` or `Delete` of the same id gets as far as to its first change.
pub data Step (parse : Str → Option Url) : System → System → Type 1 where
  create_begins :
      {s : System} (generated name url : Str) (now : Time) (rng : Option Rng) (refused : Option Str)
      (id : Str)
      → (begin_create parse generated name url now refused s.manager).0 ≡ ok id
      → s.pending id ≡ none
      → Step parse s (record {
        manager = (begin_create parse generated name url now refused s.manager).1;
        pending = set id (some (to_add url now rng)) s.pending;
      })
  create_fails :
      {s : System} (generated name url : Str) (now : Time) (refused : Option Str) (e : Error)
      → (begin_create parse generated name url now refused s.manager).0 ≡ err e
      → Step parse s
          (record s { manager = (begin_create parse generated name url now refused s.manager).1 })
  create_ends :
      {s : System} (id url : Str) (now : Time) (rng : Option Rng)
      → s.pending id ≡ some (to_add url now rng)
      → Step parse s (record {
        manager = (create_session id url now rng s.manager).1;
        pending = set id none s.pending;
      })
  update_begins :
      {s : System} (name id url : Str) (refused : Option Str) (old : Session)
      → (begin_update parse id url refused s.manager).0 ≡ ok old
      → s.pending id ≡ none
      → Step parse s (record {
        manager = (begin_update parse id url refused s.manager).1;
        pending = set id (some (to_redirect name url old)) s.pending;
      })
  update_fails :
      {s : System} (id url : Str) (refused : Option Str) (e : Error)
      → (begin_update parse id url refused s.manager).0 ≡ err e
      → Step parse s (record s { manager = (begin_update parse id url refused s.manager).1 })
  update_ends :
      {s : System} (name id url : Str) (old : Session)
      → s.pending id ≡ some (to_redirect name url old)
      → Step parse s (record {
        manager = (update_session name id url old s.manager).1;
        pending = set id none s.pending;
      })
  delete_begins :
      {s : System} (id : Str)
      → (stop_session (session id s.manager) id s.manager).0 ≡ ok tt
      → s.pending id ≡ none
      → Step parse s (record {
        manager = (stop_session (session id s.manager) id s.manager).1;
        pending = set id (some to_unregister) s.pending;
      })
  delete_unregisters :
      {s : System} (id : Str) (refused : Option Str)
      → s.pending id ≡ some to_unregister
      → (delete_row id refused s.manager).0 ≡ ok tt
      → Step parse s (record {
        manager = (delete_row id refused s.manager).1;
        pending = set id (some to_remove) s.pending;
      })
  delete_fails :
      {s : System} (id : Str) (refused : Option Str) (e : Error)
      → s.pending id ≡ some to_unregister
      → (delete_row id refused s.manager).0 ≡ err e
      → Step parse s (record {
        manager = (delete_row id refused s.manager).1;
        pending = set id none s.pending;
      })
  delete_ends :
      {s : System} (id : Str)
      → s.pending id ≡ some to_remove
      → Step parse s
          (record { manager = delete_session id s.manager; pending = set id none s.pending })
  runs :
      {s : System} {A : Type 0} (id : Str) (op : World → Result A × World)
      → Event A op
      → Step parse s (record s { manager = (on_session id op s.manager).1 })
  lists :
      {s : System} (name : Str → Str)
      → Step parse s (record s { manager = (list name s.manager).1 })
  learns :
      {s : System} (id jid : Str) (refused : Option Str)
      → Step parse s (record s {
        manager = record s.manager {
          table = (Registry.update_jid refused id jid s.manager.table).1;
        };
      })
  restarts :
      {s : System} (a : StartAnswers) (cfg : Config) (has_hooks : Bool)
      → (start a (unstarted cfg has_hooks s.manager.table)).0 ≡ ok tt
      → Step parse s (record {
        manager = (start a (unstarted cfg has_hooks s.manager.table)).1;
        pending = nothing;
      })

-- The managers that a run of steps can lead to, after a start without an error on the rows of the
-- registry, of which no two have one id.
pub data Reachable (parse : Str → Option Url) : System → Type 1 where
  starts :
      (a : StartAnswers) (cfg : Config) (has_hooks : Bool) (t : Table)
      → Keyed t
      → (start a (unstarted cfg has_hooks t)).0 ≡ ok tt
      → Reachable parse
          (record { manager = (start a (unstarted cfg has_hooks t)).1; pending = nothing })
  continues : {s s' : System} → Reachable parse s → Step parse s s' → Reachable parse s'
