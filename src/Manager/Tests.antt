-- ===== src/Manager/Tests.antt =====
-- A manager at work.
use wavonyx.Prelude.{◌∷◌, ◌≡◌, refl, take, true, [], Option, none, some, Str, codes}
use wavonyx.Prelude.Int.{ℤ, pos}
use wavonyx.Config.{default_config}
use wavonyx.Typing.Options.{second}
use wavonyx.Manager.{Url, session, session_of, new_session}
use wavonyx.Manager.Operations.{
  add, create_row, create_session, delete_row, on_session, registered, stop_session, unregistered,
}
use wavonyx.Errors.{Result}
use wavonyx.Message.{message, zero_message}
use wavonyx.Session.State.{Session, World}
use wavonyx.Session.Inbound.{on_message}
use wavonyx.Manager.Held.{silent}
use wavonyx.Manager.Events.{receives}
use wavonyx.Session.Invariant.{WellFormed}
use wavonyx.Ring
use wavonyx.Ring.{effective}
use wavonyx.Ring.Refine.{contents}
use wavonyx.Manager.Invariant.{Reachable-WellFormed}
use wavonyx.Prelude.Sort.{IsSorted}
use wavonyx.Manager.Listing.{list}
use wavonyx.Manager.Overlap.{AllHold}
use wavonyx.Registry.{Table}
use wavonyx.Registry.Order.{Keyed}
use wavonyx.Manager.Lifecycle.{start, start_input, start_row, start_rows}
use wavonyx.Manager.Loading.{unstarted}
use wavonyx.Manager.Reach.{empty_manager, empty_system-Reachable, no_devices, Reachable-Agree}
use wavonyx.Manager.Steps.{
  System, set, nothing, begin_create, to_add, to_unregister, to_remove, create_begins, create_ends,
  delete_begins, delete_unregisters, runs, Reachable, starts, continues,
}

abbrev no_url : Str → Option Url
no_url raw = none

abbrev arrival : World → Result (Unit {0}) × World
arrival = silent (on_message message zero_message (pos second))

-- A registry with a session that has lost its device, and the manager that starts on it.
abbrev rows : Table
rows =
    record {
      id = codes "sales";
      jid = codes "62@s.whatsapp.net";
      webhook_url = codes "http://a";
      created_at = pos 0;
    }
    ∷ []

abbrev restarted : System
restarted = record {
  manager = (start no_devices (unstarted default_config true rows)).1;
  pending = nothing;
}

restarted-Reachable : Reachable no_url restarted
unfolding start wavonyx.Registry.init wavonyx.Registry.list wavonyx.Prelude.Sort.sort_by
    wavonyx.Registry.find
restarted-Reachable = starts no_devices default_config true rows (refl, tt) refl

-- The session is being deleted: it has stopped, and its row is gone.
abbrev stopping : System
stopping = record {
  manager =
      (stop_session (session (codes "sales") restarted.manager) (codes "sales")
        restarted.manager).1;
  pending = set (codes "sales") (some to_unregister) nothing;
}

abbrev half_deleted : System
half_deleted = record {
  manager = (delete_row (codes "sales") none stopping.manager).1;
  pending = set (codes "sales") (some to_remove) stopping.pending;
}

half_deleted-Reachable : Reachable no_url half_deleted
unfolding start start_input start_rows start_row new_session wavonyx.Registry.init
    wavonyx.Registry.list wavonyx.Prelude.Sort.sort_by wavonyx.Registry.find stop_session session
    session_of wavonyx.Manager.put wavonyx.Prelude.str_eq delete_row wavonyx.Registry.delete
    wavonyx.Registry.delete_where unregistered
half_deleted-Reachable =
    continues (continues restarted-Reachable (delete_begins (codes "sales") refl refl))
      (delete_unregisters (codes "sales") none refl refl)

Reachable-Agree_example : AllHold half_deleted × Keyed half_deleted.manager.table
Reachable-Agree_example = Reachable-Agree no_url half_deleted half_deleted-Reachable

abbrev half_created : System
half_created = record {
  manager =
      (begin_create no_url [] (codes "sales") [] (pos second) none
        (empty_manager default_config true)).1;
  pending = set (codes "sales") (some (to_add [] (pos second) none)) nothing;
}

abbrev with_sales : System
with_sales = record {
  manager = (create_session (codes "sales") [] (pos second) none half_created.manager).1;
  pending = set (codes "sales") none half_created.pending;
}

with_sales-Reachable : Reachable no_url with_sales
unfolding create_row registered wavonyx.Registry.create wavonyx.Registry.find
    wavonyx.Manager.is_session_id wavonyx.Manager.validate_webhook_url wavonyx.Prelude.str_eq
with_sales-Reachable =
    continues
      (continues (empty_system-Reachable no_url default_config true)
        (create_begins [] (codes "sales") [] (pos second) none none (codes "sales") refl refl))
      (create_ends (codes "sales") [] (pos second) none refl)

abbrev with_message : System
with_message = record with_sales {
  manager = (on_session (codes "sales") arrival with_sales.manager).1;
}

with_message-Reachable : Reachable no_url with_message
with_message-Reachable =
    continues with_sales-Reachable
      (runs (codes "sales") arrival (receives message zero_message (pos second)))

abbrev sales : Session
sales =
    (arrival (record {
      session = new_session with_sales.manager none (codes "sales") [] [] (pos second);
      trace = [];
    })).1.session

sales-found : session_of (codes "sales") with_message.manager.sessions ≡ some sales
unfolding create_row registered create_session add on_session session_of wavonyx.Manager.session
    wavonyx.Manager.is_session_id wavonyx.Manager.validate_webhook_url wavonyx.Registry.create
    wavonyx.Registry.find wavonyx.Manager.put wavonyx.Prelude.str_eq new_session
sales-found = refl

Reachable-WellFormed_example :
    WellFormed sales
    × ((limit : ℤ)
        → Ring.recent sales.ring limit
          ≡ some (take (effective limit sales.ring.n) (contents sales.ring)))
Reachable-WellFormed_example =
    Reachable-WellFormed no_url with_message (codes "sales") sales with_message-Reachable
      sales-found

abbrev no_name : Str → Str
no_name id = []
