-- ===== src/Manager/Keys.antt =====
-- manager.go and internal/registry/registry.go: no operation gives two rows one id.
use mathlib.Core.Path.{subst}
use wavonyx.Prelude.{◌≡◌, refl, sym, Option, none, some, Str}
use wavonyx.Errors.{◌>>◌, Result, ok, err}
use wavonyx.Message.{Time}
use wavonyx.Registry
use wavonyx.Registry.{Row, Table, find, insert_new, stored}
use wavonyx.Registry.Order.{Keyed, Keyed-snoc, Keyed-set_where, Keyed-delete_where}
use wavonyx.Session.State.{Session, World}
use wavonyx.Manager.{session, validate_webhook_url, Url, Manager, session_of}
use wavonyx.Manager.Operations.{
  add, registered, create_row, create_session, redirected, update_row, update_found, update_session,
  delegated, on_session, unregistered, delete_row, delete_session, checked_id, new_row,
}
use wavonyx.Manager.Pending.{stop_session-HasStopped}
use wavonyx.Manager.Loading.{start-Keyed}
use wavonyx.Manager.Steps.{
  System, Step, create_begins, create_fails, create_ends, update_begins, update_fails, update_ends,
  delete_begins, delete_unregisters, delete_fails, delete_ends, runs, lists, learns, restarts,
}
use wavonyx.Manager.Listing.{list}

inserted-Keyed :
    (o : Option Row) (r : Row) (t : Table) → find r.id t ≡ o → Keyed t → Keyed (insert_new o r t).1
inserted-Keyed none r t e v = Keyed-snoc r t e v
inserted-Keyed (some old) r t e v = v

create-Keyed :
    (refused : Option Str) (now : Time) (r : Row) (t : Table)
    → Keyed t
    → Keyed (Registry.create refused now r t).1
unfolding Registry.create
create-Keyed none now r t v = inserted-Keyed (find r.id t) (stored now r) t refl v
create-Keyed (some e) now r t v = v

update_webhook-Keyed :
    (refused : Option Str) (id url : Str) (t : Table)
    → Keyed t
    → Keyed (Registry.update_webhook refused id url t).1
unfolding Registry.update_webhook
update_webhook-Keyed none id url t v =
    Keyed-set_where id (λ r. record r { webhook_url = url }) t (λ r. refl) v
update_webhook-Keyed (some e) id url t v = v

pub update_jid-Keyed :
    (refused : Option Str) (id jid : Str) (t : Table)
    → Keyed t
    → Keyed (Registry.update_jid refused id jid t).1
unfolding Registry.update_jid
update_jid-Keyed none id jid t v = Keyed-set_where id (λ r. record r { jid = jid }) t (λ r. refl) v
update_jid-Keyed (some e) id jid t v = v

delete-Keyed :
    (refused : Option Str) (id : Str) (t : Table) → Keyed t → Keyed (Registry.delete refused id t).1
unfolding Registry.delete
delete-Keyed none id t v = Keyed-delete_where id t v
delete-Keyed (some e) id t v = v

registered-table :
    (r : Result (Unit {0}) × Table) (id : Str) (m : Manager) → (registered r id m).1.table ≡ r.1
unfolding registered
registered-table (err e, t) id m = refl
registered-table (ok u, t) id m = refl

create_row-Keyed :
    (c : Result Str) (url : Str) (now : Time) (refused : Option Str) (m : Manager)
    → Keyed m.table
    → Keyed (create_row c url now refused m).1.table
unfolding create_row
create_row-Keyed (err e) url now refused m v = v
create_row-Keyed (ok id) url now refused m v =
    subst Keyed (sym (registered-table _ id m))
      (create-Keyed refused now (new_row id url now) m.table v)

add-table :
    (o : Option Session) (id : Str) (s : Session) (m : Manager) → (add o id s m).1.table ≡ m.table
unfolding add
add-table none id s m = refl
add-table (some old) id s m = refl

redirected-table :
    (r : Result (Unit {0}) × Table) (s : Session) (m : Manager) → (redirected r s m).1.table ≡ r.1
unfolding redirected
redirected-table (err e, t) s m = refl
redirected-table (ok u, t) s m = refl

update_row-Keyed :
    (c : Result Session) (id url : Str) (refused : Option Str) (m : Manager)
    → Keyed m.table
    → Keyed (update_row c id url refused m).1.table
unfolding update_row
update_row-Keyed (err e) id url refused m v = v
update_row-Keyed (ok s) id url refused m v =
    subst Keyed (sym (redirected-table _ s m)) (update_webhook-Keyed refused id url m.table v)

update_found-table :
    (o : Option Session) (name id url : Str) (s : Session) (m : Manager)
    → (update_found o name id url s m).1.table ≡ m.table
unfolding update_found
update_found-table none name id url s m = refl
update_found-table (some t) name id url s m = refl

unregistered-table :
    (r : Result (Unit {0}) × Table) (m : Manager) → (unregistered r m).1.table ≡ r.1
unfolding unregistered
unregistered-table (ok u, t) m = refl
unregistered-table (err e, t) m = refl

delete_row-Keyed :
    (id : Str) (refused : Option Str) (m : Manager)
    → Keyed m.table
    → Keyed (delete_row id refused m).1.table
unfolding delete_row
delete_row-Keyed id refused m v =
    subst Keyed (sym (unregistered-table _ m)) (delete-Keyed refused id m.table v)

delegated-table :
    {A : Type 0} (c : Result Session) (id : Str) (op : World → Result A × World) (m : Manager)
    → (delegated c id op m).1.table ≡ m.table
unfolding delegated
delegated-table (err e) id op m = refl
delegated-table (ok s) id op m = refl

pub step-Keyed :
    (parse : Str → Option Url) (s s' : System)
    → Step parse s s'
    → Keyed s.manager.table
    → Keyed s'.manager.table
unfolding create_session update_session delete_session on_session list
step-Keyed parse s _ (create_begins generated name url now rng refused id h p) v =
    create_row-Keyed (checked_id parse generated name url) url now refused s.manager v
step-Keyed parse s _ (create_fails generated name url now refused e h) v =
    create_row-Keyed (checked_id parse generated name url) url now refused s.manager v
step-Keyed parse s _ (create_ends id url now rng p) v =
    subst Keyed (sym (add-table (session_of id s.manager.sessions) id _ s.manager)) v
step-Keyed parse s _ (update_begins name id url refused old h p) v =
    update_row-Keyed (validate_webhook_url parse url >> session id s.manager) id url refused
      s.manager v
step-Keyed parse s _ (update_fails id url refused e h) v =
    update_row-Keyed (validate_webhook_url parse url >> session id s.manager) id url refused
      s.manager v
step-Keyed parse s _ (update_ends name id url old p) v =
    subst Keyed
      (sym (update_found-table (session_of id s.manager.sessions) name id url old s.manager)) v
step-Keyed parse s _ (delete_begins id h p) v =
    subst Keyed (sym (stop_session-HasStopped id s.manager h).same_table) v
step-Keyed parse s _ (delete_unregisters id refused p h) v = delete_row-Keyed id refused s.manager v
step-Keyed parse s _ (delete_fails id refused e p h) v = delete_row-Keyed id refused s.manager v
step-Keyed parse s _ (delete_ends id p) v = v
step-Keyed parse s _ (runs id op x) v =
    subst Keyed (sym (delegated-table (session id s.manager) id op s.manager)) v
step-Keyed parse s _ (lists name) v = v
step-Keyed parse s _ (learns id jid refused) v = update_jid-Keyed refused id jid s.manager.table v
step-Keyed parse s _ (restarts a cfg has_hooks h) v =
    start-Keyed a cfg has_hooks s.manager.table v h
