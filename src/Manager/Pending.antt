-- ===== src/Manager/Pending.antt =====
-- manager.go: what the parts of the operations do to the map and to the table.
use mathlib.Core.Path.{subst}
use wavonyx.Prelude.{
  map, ◌++◌, ◌≡◌, refl, ap, ◌⊎◌, inl, inr, [], ◌∷◌, Option, none, some, Str, arith,
}
use wavonyx.Errors.{Error, Result, ok, err, is}
use wavonyx.Message.{Time}
use wavonyx.Registry
use wavonyx.Registry.{Row, Table, find, insert_new, executed, require_one, stored}
use wavonyx.Session.State.{Session}
use wavonyx.Session.Login.{stop}
use wavonyx.Manager.{Manager, session_of, put, or_not_found}
use wavonyx.Manager.Operations.{
  registered, create_row, redirected, update_row, stop_session, unregistered, delete_row, new_row,
  with_device,
}
use wavonyx.Manager.Agree.{stop-KeepsUrl}

-- A creation that goes on has added a row for a new id, and nothing else.
pub record HasRegistered (id url : Str) (now : Time) (m m' : Manager) : Type 0 where
  pub same_sessions : m'.sessions ≡ m.sessions
  pub was_new : find id m.table ≡ none
  pub new_table : m'.table ≡ m.table ++ stored now (new_row id url now) ∷ []

inserted-HasRegistered :
    (o : Option Row) (chosen id url : Str) (now : Time) (m : Manager)
    → find chosen m.table ≡ o
    → (registered (insert_new o (stored now (new_row chosen url now)) m.table) chosen m).0 ≡ ok id
    → HasRegistered id url now m
        (registered (insert_new o (stored now (new_row chosen url now)) m.table) chosen m).1
unfolding registered
inserted-HasRegistered none chosen id url now m f h =
    let e = ok-inj h in
    record {
      same_sessions = refl;
      was_new = subst (λ k. find k m.table ≡ none) e f;
      new_table = ap (λ k. m.table ++ stored now (new_row k url now) ∷ []) e;
    }
  where
    ok-inj : {a b : Str} → ◌≡◌ {A = Result Str} (ok a) (ok b) → a ≡ b
    ok-inj {a} {b} r = ap (λ x. elim x [ ok c ↦ c | err e ↦ a ]) r
inserted-HasRegistered (some old) chosen id url now m f h = absurd (ground (arith, h))

pub create_row-HasRegistered :
    (c : Result Str) (id url : Str) (now : Time) (refused : Option Str) (m : Manager)
    → (create_row c url now refused m).0 ≡ ok id
    → HasRegistered id url now m (create_row c url now refused m).1
unfolding create_row Registry.create registered
create_row-HasRegistered (err e) id url now refused m h = absurd (cc)
create_row-HasRegistered (ok chosen) id url now (some e) m h = absurd (ground (arith, h))
create_row-HasRegistered (ok chosen) id url now none m h =
    inserted-HasRegistered (find chosen m.table) chosen id url now m refl h

-- A creation that is refused has changed neither the map nor the table.
pub record IsSame (m m' : Manager) : Type 0 where
  pub same_sessions : m'.sessions ≡ m.sessions
  pub same_table : m'.table ≡ m.table

inserted-IsSame :
    (o : Option Row) (chosen url : Str) (now : Time) (m : Manager) (e : Error)
    → (registered (insert_new o (stored now (new_row chosen url now)) m.table) chosen m).0 ≡ err e
    → IsSame m (registered (insert_new o (stored now (new_row chosen url now)) m.table) chosen m).1
unfolding registered
inserted-IsSame none chosen url now m e h = absurd (cc)
inserted-IsSame (some old) chosen url now m e h = record { same_sessions = refl; same_table = refl }

pub create_row-IsSame :
    (c : Result Str) (url : Str) (now : Time) (refused : Option Str) (m : Manager) (e : Error)
    → (create_row c url now refused m).0 ≡ err e
    → IsSame m (create_row c url now refused m).1
unfolding create_row Registry.create registered
create_row-IsSame (err x) url now refused m e h = record { same_sessions = refl; same_table = refl }
create_row-IsSame (ok chosen) url now (some x) m e h = record {
  same_sessions = refl;
  same_table = refl;
}
create_row-IsSame (ok chosen) url now none m e h =
    inserted-IsSame (find chosen m.table) chosen url now m e h

-- A change of a URL that goes on has changed it in the row of the id.
pub record HasRedirected (id url : Str) (m m' : Manager) : Type 0 where
  pub same_sessions : m'.sessions ≡ m.sessions
  pub row : Row
  pub was_there : find id m.table ≡ some row
  pub new_table : m'.table ≡ Registry.set_where id (λ r. record r { webhook_url = url }) m.table

abbrev url_set : Str → Str → Table → Table
url_set id url t = Registry.set_where id (λ r. record r { webhook_url = url }) t

set-HasRedirected :
    (o : Option Row) (s old : Session) (id url : Str) (m : Manager)
    → find id m.table ≡ o
    → (redirected (require_one o, url_set id url m.table) s m).0 ≡ ok old
    → HasRedirected id url m (redirected (require_one o, url_set id url m.table) s m).1
unfolding redirected
set-HasRedirected none s old id url m f h = absurd (ground (arith, h))
set-HasRedirected (some r) s old id url m f h = record {
  same_sessions = refl;
  row = r;
  was_there = f;
  new_table = refl;
}

pub update_row-HasRedirected :
    (c : Result Session) (id url : Str) (refused : Option Str) (m : Manager) (old : Session)
    → (update_row c id url refused m).0 ≡ ok old
    → HasRedirected id url m (update_row c id url refused m).1
unfolding update_row Registry.update_webhook redirected
update_row-HasRedirected (err e) id url refused m old h = absurd (cc)
update_row-HasRedirected (ok s) id url (some e) m old h = absurd (ground (arith, h))
update_row-HasRedirected (ok s) id url none m old h =
    set-HasRedirected (find id m.table) s old id url m refl h

-- One that is refused has changed nothing, or there was no row to change.
abbrev pub IsMissing : Str → Str → Manager → Manager → Type 0
IsMissing id url m m' =
    (find id m.table ≡ none) × (m'.sessions ≡ m.sessions) × (m'.table ≡ url_set id url m.table)

set-refused :
    (o : Option Row) (s : Session) (id url : Str) (m : Manager) (e : Error)
    → find id m.table ≡ o
    → (redirected (require_one o, url_set id url m.table) s m).0 ≡ err e
    → IsMissing id url m (redirected (require_one o, url_set id url m.table) s m).1
unfolding redirected
set-refused none s id url m e f h = (f, refl, refl)
set-refused (some r) s id url m e f h = absurd (cc)

pub update_row-refused :
    (c : Result Session) (id url : Str) (refused : Option Str) (m : Manager) (e : Error)
    → (update_row c id url refused m).0 ≡ err e
    → IsSame m (update_row c id url refused m).1
      ⊎ IsMissing id url m (update_row c id url refused m).1
unfolding update_row Registry.update_webhook redirected
update_row-refused (err x) id url refused m e h =
    inl (record { same_sessions = refl; same_table = refl })
update_row-refused (ok s) id url (some x) m e h =
    inl (record { same_sessions = refl; same_table = refl })
update_row-refused (ok s) id url none m e h =
    inr (set-refused (find id m.table) s id url m e refl h)

-- A session that has been stopped is still in the map, with its URL.
pub record HasStopped (id : Str) (m m' : Manager) : Type 0 where
  pub session : Session
  pub after : Session
  pub was_there : session_of id m.sessions ≡ some session
  pub same_url : after.webhook_url ≡ session.webhook_url
  pub new_sessions : m'.sessions ≡ put id after m.sessions
  pub same_table : m'.table ≡ m.table

with_device-IsSame : (jid : Str) (m : Manager) → IsSame m (with_device jid m)
with_device-IsSame jid m = record { same_sessions = ground arith; same_table = ground arith }

stop_session-found :
    (o : Option Session) (id : Str) (m : Manager)
    → session_of id m.sessions ≡ o
    → (stop_session (or_not_found o) id m).0 ≡ ok tt
    → HasStopped id m (stop_session (or_not_found o) id m).1
unfolding stop_session
stop_session-found none id m f h = absurd (cc)
stop_session-found (some s) id m f h =
    let w = stop (record { session = s; trace = [] }) in
    let same = with_device-IsSame s.jid (record m {
      sessions = put id w.session m.sessions;
      trace = map (λ e. (id, e)) w.trace ++ m.trace;
    }) in
    record {
      session = s;
      after = w.session;
      was_there = f;
      same_url = stop-KeepsUrl (record { session = s; trace = [] });
      new_sessions = same.same_sessions;
      same_table = same.same_table;
    }

pub stop_session-HasStopped :
    (id : Str) (m : Manager)
    → (stop_session (wavonyx.Manager.session id m) id m).0 ≡ ok tt
    → HasStopped id m (stop_session (wavonyx.Manager.session id m) id m).1
unfolding wavonyx.Manager.session
stop_session-HasStopped id m h = stop_session-found (session_of id m.sessions) id m refl h

-- A deletion that goes on has deleted the rows of the id.
pub record HasUnregistered (id : Str) (m m' : Manager) : Type 0 where
  pub same_sessions : m'.sessions ≡ m.sessions
  pub new_table : m'.table ≡ Registry.delete_where id m.table

required :
    (o : Option Row) (id : Str) (m : Manager)
    → HasUnregistered id m (unregistered (require_one o, Registry.delete_where id m.table) m).1
unfolding unregistered
required none id m = record { same_sessions = refl; new_table = refl }
required (some r) id m = record { same_sessions = refl; new_table = refl }

pub delete_row-HasUnregistered :
    (id : Str) (refused : Option Str) (m : Manager)
    → (delete_row id refused m).0 ≡ ok tt
    → HasUnregistered id m (delete_row id refused m).1
unfolding delete_row Registry.delete unregistered is
delete_row-HasUnregistered id none m h = required (find id m.table) id m
delete_row-HasUnregistered id (some e) m h = absurd (cc)

never_refused :
    (o : Option Row) (id : Str) (m : Manager) (e : Error)
    → (unregistered (require_one o, Registry.delete_where id m.table) m).0 ≡ err e
    → IsSame m (unregistered (require_one o, Registry.delete_where id m.table) m).1
unfolding unregistered is
never_refused none id m e h = absurd (cc)
never_refused (some r) id m e h = absurd (cc)

pub delete_row-IsSame :
    (id : Str) (refused : Option Str) (m : Manager) (e : Error)
    → (delete_row id refused m).0 ≡ err e
    → IsSame m (delete_row id refused m).1
unfolding delete_row Registry.delete unregistered is
delete_row-IsSame id none m e h = never_refused (find id m.table) id m e h
delete_row-IsSame id (some x) m e h = record { same_sessions = refl; same_table = refl }
