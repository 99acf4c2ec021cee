-- ===== src/Manager/Reach.antt =====
-- manager.go: the map of the sessions and the table of the registry agree, between the operations.
use wavonyx.Manager.Events.{Event-KeepsUrl}
use wavonyx.Manager.Loading.{start-Agree, start-Keyed, unstarted}
use wavonyx.Registry.Order.{Keyed}
use wavonyx.Manager.Lifecycle.{start, StartAnswers}
use wavonyx.Manager.Listing.{refreshed-SameUrl, SameUrl}
use mathlib.Core.Path.{subst}
use wavonyx.Prelude.{
  true, Bool, if◌then◌else◌, ◌≡◌, refl, sym, ap, ◌∙◌, inl, inr, false, Bool-cases, [], Option, none,
  some, Str, str_eq, str_eq_iff, str_eq_self,
}
use wavonyx.Errors.{◌>>◌, outside, ok, err, Result}
use wavonyx.Registry.{Row, Table, find, set_where, stored}
use wavonyx.Registry.Laws.{changed_row, find-set_where}
use wavonyx.Config.{Config}
use wavonyx.Session.State.{Session, World}
use wavonyx.Manager.{
  validate_webhook_url, or_not_found, Url, Manager, Sessions, session_of, put, drop_session,
  new_session, session,
}
use wavonyx.Manager.Sessions.{session_of-put}
use wavonyx.Manager.Operations.{checked_id, delegated, on_session}
use wavonyx.Manager.Consistency.{Agrees}
use wavonyx.Manager.Steps.{
  System, nothing, begin_create, Step, create_begins, create_fails, create_ends, update_begins,
  update_fails, update_ends, delete_begins, delete_unregisters, delete_fails, delete_ends, runs,
  lists, learns, restarts, Reachable, starts, continues, Rest, to_add, to_redirect, to_unregister,
  to_remove,
}
use wavonyx.Manager.Keys.{step-Keyed}
use wavonyx.Manager.Overlap.{
  Holds, AllHold, Holds-by, same-Holds, create_begins-Holds, create_ends-Holds, update_begins-Holds,
  update_fails-Holds, update_ends-Holds, delete_begins-Holds, delete_unregisters-Holds,
  delete_fails-Holds, delete_ends-Holds,
}
use wavonyx.Manager.Pending.{create_row-IsSame}
use wavonyx.Registry
use wavonyx.Manager.Events.{Event}
use wavonyx.Manager.Listing.{list}

-- A session that keeps its URL, and a row that keeps its own.
SameUrl-Holds :
    (p : Option Rest) (o o' : Option Session) (r : Option Row)
    → SameUrl o o'
    → Holds p o r
    → Holds p o' r
unfolding Agrees
SameUrl-Holds p none (some t) r u h = absurd u
SameUrl-Holds p (some s) none r u h = absurd u
SameUrl-Holds p none none r u h = h
SameUrl-Holds none (some s) (some t) none u h = h
SameUrl-Holds none (some s) (some t) (some r) u h = u ∙ h
SameUrl-Holds (some (to_add url now rng)) (some s) (some t) none u h = h
SameUrl-Holds (some (to_add url now rng)) (some s) (some t) (some r) u h = h
SameUrl-Holds (some (to_redirect name url old)) (some s) (some t) none u h = h
SameUrl-Holds (some (to_redirect name url old)) (some s) (some t) (some r) u h = h
SameUrl-Holds (some to_unregister) (some s) (some t) none u h = h
SameUrl-Holds (some to_unregister) (some s) (some t) (some r) u h = u ∙ h
SameUrl-Holds (some to_remove) (some s) (some t) none u h = h
SameUrl-Holds (some to_remove) (some s) (some t) (some r) u h = h

SameUrl-put :
    (b : Bool) (o : Option Session) (s t : Session)
    → (b ≡ true → o ≡ some s)
    → t.webhook_url ≡ s.webhook_url
    → SameUrl o (if b then some t else o)
SameUrl-put true o s t e u = subst (λ x. SameUrl x (some t)) (sym (e refl)) u
SameUrl-put false none s t e u = tt
SameUrl-put false (some x) s t e u = refl

delegated-Holds :
    {A : Type 0} (found : Option Session) (id : Str) (op : World → Result A × World) (s : System)
    → session_of id s.manager.sessions ≡ found
    → Event A op
    → AllHold s
    → AllHold (record s { manager = (delegated (or_not_found found) id op s.manager).1 })
unfolding delegated
delegated-Holds none id op s f x v k = v k
delegated-Holds {A} (some t) id op s f x v k =
    let t' = (op (record { session = t; trace = [] })).1.session in
    SameUrl-Holds (s.pending k) (session_of k s.manager.sessions)
      (session_of k (put id t' s.manager.sessions)) (find k s.manager.table)
      (subst (SameUrl (session_of k s.manager.sessions))
        (sym (session_of-put k id t' s.manager.sessions))
        (SameUrl-put (str_eq id k) (session_of k s.manager.sessions) t t'
          (λ e. ap (λ j. session_of j s.manager.sessions) (sym ((str_eq_iff id k).0 e)) ∙ f)
          (Event-KeepsUrl A op x (record { session = t; trace = [] }))))
      (v k)

lists-Holds :
    (name : Str → Str) (s : System)
    → AllHold s
    → AllHold (record s { manager = (list name s.manager).1 })
unfolding list
lists-Holds name s v k =
    SameUrl-Holds (s.pending k) (session_of k s.manager.sessions) _ (find k s.manager.table)
      (refreshed-SameUrl name k s.manager.sessions) (v k)

same_row-Holds :
    (p : Option Rest) (o : Option Session) (r : Option Row) (k id : Str) (f : Row → Row)
    → ((x : Row) → (f x).webhook_url ≡ x.webhook_url)
    → Holds p o r
    → Holds p o (changed_row k id f r)
unfolding Agrees
same_row-Holds p o none k id f u h = h
same_row-Holds p o (some r) k id f u h = by_url p o (if str_eq k id then f r else r) same h
  where
    same : (if str_eq k id then f r else r).webhook_url ≡ r.webhook_url
    same = elim (Bool-cases (str_eq k id)) [ inl e ↦ rw e (u r) | inr e ↦ rw e refl ]

    by_url :
        (p : Option Rest) (o : Option Session) (x : Row)
        → x.webhook_url ≡ r.webhook_url
        → Holds p o (some r)
        → Holds p o (some x)
    by_url none none x e h = h
    by_url none (some t) x e h = h ∙ sym e
    by_url (some (to_add url now rng)) none x e h = h ∙ sym e
    by_url (some (to_add url now rng)) (some t) x e h = h
    by_url (some (to_redirect name url old)) none x e h = h
    by_url (some (to_redirect name url old)) (some t) x e h = h ∙ sym e
    by_url (some to_unregister) none x e h = h
    by_url (some to_unregister) (some t) x e h = h ∙ sym e
    by_url (some to_remove) none x e h = h
    by_url (some to_remove) (some t) x e h = h

learns-Holds :
    (id jid : Str) (refused : Option Str) (s : System)
    → AllHold s
    → AllHold (record s {
      manager = record s.manager { table = (Registry.update_jid refused id jid s.manager.table).1 };
    })
unfolding Registry.update_jid
learns-Holds id jid (some e) s v k = v k
learns-Holds id jid none s v k =
    Holds-by refl refl
      (find-set_where k id (λ r. record r { jid = jid }) s.manager.table (λ r. refl))
      (same_row-Holds (s.pending k) (session_of k s.manager.sessions) (find k s.manager.table) id k
        (λ r. record r { jid = jid }) (λ r. refl) (v k))

start-AllHold :
    (a : StartAnswers) (cfg : Config) (has_hooks : Bool) (t : Table)
    → Keyed t
    → (start a (unstarted cfg has_hooks t)).0 ≡ ok tt
    → AllHold (record { manager = (start a (unstarted cfg has_hooks t)).1; pending = nothing })
start-AllHold a cfg has_hooks t k h id = (start-Agree a cfg has_hooks t k h).agree id

step-AllHold :
    (parse : Str → Option Url) (s s' : System)
    → Step parse s s'
    → Keyed s.manager.table
    → AllHold s
    → AllHold s'
unfolding on_session session
step-AllHold parse s _ (create_begins generated name url now rng refused id h p) k v =
    create_begins-Holds (checked_id parse generated name url) s url now rng refused id h p v
step-AllHold parse s _ (create_fails generated name url now refused e h) k v =
    same-Holds s (begin_create parse generated name url now refused s.manager).1
      (create_row-IsSame (checked_id parse generated name url) url now refused s.manager e h) v
step-AllHold parse s _ (create_ends id url now rng p) k v = create_ends-Holds id url now rng s p v
step-AllHold parse s _ (update_begins name id url refused old h p) k v =
    update_begins-Holds (validate_webhook_url parse url >> wavonyx.Manager.session id s.manager) s
      name id url refused old h p v
step-AllHold parse s _ (update_fails id url refused e h) k v =
    update_fails-Holds (validate_webhook_url parse url >> wavonyx.Manager.session id s.manager) s id
      url refused e h v
step-AllHold parse s _ (update_ends name id url old p) k v = update_ends-Holds name id url old s p v
step-AllHold parse s _ (delete_begins id h p) k v = delete_begins-Holds id s h p v
step-AllHold parse s _ (delete_unregisters id refused p h) k v =
    delete_unregisters-Holds id refused s h v
step-AllHold parse s _ (delete_fails id refused e p h) k v = delete_fails-Holds id refused e s p h v
step-AllHold parse s _ (delete_ends id p) k v = delete_ends-Holds id s p v
step-AllHold parse s _ (runs id op x) k v =
    delegated-Holds (session_of id s.manager.sessions) id op s refl x v
step-AllHold parse s _ (lists name) k v = lists-Holds name s v
step-AllHold parse s _ (learns id jid refused) k v = learns-Holds id jid refused s v
step-AllHold parse s _ (restarts a cfg has_hooks h) k v =
    start-AllHold a cfg has_hooks s.manager.table k h

-- Where no two calls of `Create`, `UpdateWebhook` and `Delete` on one id overlap, and the process starts
-- without an error on a registry of which no two rows have one id: after any sequence of critical sections,
-- with restarts in the midst of an operation and database errors, an id with no such call half-way has a
-- session exactly if it has a row in the registry, and the two have the same webhook URL. One whose
-- creation is half-way has the row, with the URL that its session will have; one whose URL is being
-- changed has a session, and a row with the new URL; and one that is being deleted has both or neither until
-- its row is deleted, and then no row. Still no two rows have one id.
pub Reachable-Agree :
    (parse : Str → Option Url) (s : System) → Reachable parse s → AllHold s × Keyed s.manager.table
Reachable-Agree parse _ (starts a cfg has_hooks t k h) =
    (start-AllHold a cfg has_hooks t k h, start-Keyed a cfg has_hooks t k h)
Reachable-Agree parse s' (continues {s} r x) =
    let (v, k) = Reachable-Agree parse s r in
    (step-AllHold parse s s' x k v, step-Keyed parse s s' x k)

-- The answers to the first start of all, where there are no devices.
abbrev pub no_devices : StartAnswers
no_devices = record {
  init_refused = none;
  list_refused = none;
  logged_in = ok [];
  load = λ jid. err (outside []);
  rng = λ id. none;
}

-- A manager at its first start, with an empty registry.
abbrev pub empty_manager : Config → Bool → Manager
empty_manager cfg has_hooks = unstarted cfg has_hooks []

-- A system at its first start, with an empty registry.
abbrev pub empty_system : Config → Bool → System
empty_system cfg has_hooks = record { manager = empty_manager cfg has_hooks; pending = nothing }

pub empty_system-Reachable :
    (parse : Str → Option Url) (cfg : Config) (has_hooks : Bool)
    → Reachable parse (empty_system cfg has_hooks)
unfolding start Registry.init Registry.list wavonyx.Prelude.Sort.sort_by
empty_system-Reachable parse cfg has_hooks = starts no_devices cfg has_hooks [] tt refl
