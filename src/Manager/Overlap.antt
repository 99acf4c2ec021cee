-- ===== src/Manager/Overlap.antt =====
-- manager.go: what the parts of the operations leave of each id in the map and in the table.
use mathlib.Core.Path.{subst}
use wavonyx.Prelude.{
  ◌≡◌, refl, sym, ap, ◌∙◌, inl, inr, false, Bool-cases, [], Option, none, some, Str, str_eq,
  str_eq_iff, str_eq_self,
}
use wavonyx.Errors.{Error, ok, err, Result}
use wavonyx.Message.{Time}
use wavonyx.Typing.Options.{Rng}
use wavonyx.Registry.{Row, Table, find, set_where, stored}
use wavonyx.Registry.Laws.{changed_row, find-set_where, find-snoc, find-delete_where}
use wavonyx.Session.State.{Session}
use wavonyx.Session.Pairing.{info, set_webhook_url}
use wavonyx.Manager.{Manager, Sessions, session_of, put, drop_session, new_session, session}
use wavonyx.Manager.Sessions.{session_of-put, session_of-drop_session}
use wavonyx.Manager.Operations.{
  update_row, stop_session, delete_row, add, create_row, create_session, update_found,
  update_session, delete_session, new_row,
}
use wavonyx.Manager.Consistency.{Agrees, Agrees-same_url}
use wavonyx.Manager.Agree.{info-url}
use wavonyx.Manager.Steps.{Rest, to_add, to_redirect, to_unregister, to_remove, System, set}
use wavonyx.Manager.Pending.{
  IsSame, create_row-HasRegistered, update_row-HasRedirected, update_row-refused,
  stop_session-HasStopped, delete_row-HasUnregistered, delete_row-IsSame,
}

-- What there is of one id. With no operation half-way, or one that is about to delete the row: a session
-- and a row with one webhook URL, or neither. A creation that is half-way has the row, with the URL
-- that the session will have; a change of the URL has a session, and the row with the new URL; and a
-- deletion that is about to remove the session has no row.
abbrev pub Holds : Option Rest → Option Session → Option Row → Type 0
Holds none s r = Agrees s r
Holds (some (to_add url now rng)) none (some r) = url ≡ r.webhook_url
Holds (some (to_redirect name url old)) (some s) (some r) = url ≡ r.webhook_url
Holds (some to_unregister) s r = Agrees s r
Holds (some to_remove) s none = Unit
Holds _ _ _ = ⊥

-- Every id of a system has what it should.
abbrev pub AllHold : System → Type 0
AllHold s =
    (id : Str) → Holds (s.pending id) (session_of id s.manager.sessions) (find id s.manager.table)

pub Holds-by :
    {p p' : Option Rest} {s s' : Option Session} {r r' : Option Row}
    → p' ≡ p
    → s' ≡ s
    → r' ≡ r
    → Holds p s r
    → Holds p' s' r'
Holds-by {p} {p'} {s} {s'} {r} {r'} a b c h =
    subst (λ x. Holds x s' r') (sym a)
      (subst (λ y. Holds p y r') (sym b) (subst (λ z. Holds p s z) (sym c) h))

-- A step that changes what there is of one id, and leaves `o` of its operation.
at_id :
    (id : Str) (o : Option Rest) (s : System) (m' : Manager)
    → Holds o (session_of id m'.sessions) (find id m'.table)
    → ((k : Str)
        → str_eq id k ≡ false
        → (session_of k m'.sessions ≡ session_of k s.manager.sessions)
          × (find k m'.table ≡ find k s.manager.table))
    → AllHold s
    → AllHold (record { manager = m'; pending = set id o s.pending })
at_id id o s m' here there v k = elim (Bool-cases (str_eq id k)) [
  | inl e ↦ Holds-by (rw e refl) refl refl (
      subst (λ j. Holds o (session_of j m'.sessions) (find j m'.table)) ((str_eq_iff id k).0 e)
        here)
  | inr e ↦ let (b, c) = there k e in Holds-by (rw e refl) b c (v k)
]

-- What holds of an id whose operation is known.
of_id :
    (id : Str) (o : Option Rest) (s : System)
    → s.pending id ≡ o
    → AllHold s
    → Holds o (session_of id s.manager.sessions) (find id s.manager.table)
of_id id o s p v = Holds-by (sym p) refl refl (v id)

-- What holds of it if its session is known too.
of_found :
    (id : Str) (o : Option Rest) (found : Option Session) (s : System)
    → s.pending id ≡ o
    → session_of id s.manager.sessions ≡ found
    → AllHold s
    → Holds o found (find id s.manager.table)
of_found id o found s p f v =
    Holds-by {p = o} {s = session_of id s.manager.sessions} {r = find id s.manager.table} refl
      (sym f) refl (of_id id o s p v)

put_self : (id : Str) (s : Session) (m : Sessions) → session_of id (put id s m) ≡ some s
put_self id s m = session_of-put id id s m ∙ rw (str_eq_self id) refl

put_other :
    (id k : Str) (s : Session) (m : Sessions)
    → str_eq id k ≡ false
    → session_of k (put id s m) ≡ session_of k m
put_other id k s m e = session_of-put k id s m ∙ rw e refl

-- At an id without an operation the session may be replaced by one that agrees with the row.
put-Holds :
    (id : Str) (t : Session) (s : System)
    → Agrees (some t) (find id s.manager.table)
    → AllHold s
    → AllHold (record {
      manager = record s.manager { sessions = put id t s.manager.sessions };
      pending = set id none s.pending;
    })
put-Holds id t s h v =
    at_id id none s (record s.manager { sessions = put id t s.manager.sessions })
      (Holds-by {p = none} {s = some t} {r = find id s.manager.table} refl
        (put_self id t s.manager.sessions) refl h)
      (λ k e. (put_other id k t s.manager.sessions e, refl)) v

changed_other :
    (id k : Str) (f : Row → Row) (o : Option Row) → str_eq id k ≡ false → changed_row id k f o ≡ o
changed_other id k f none e = refl
changed_other id k f (some r) e = rw e refl

set_where_other :
    (id k : Str) (f : Row → Row) (t : Table)
    → ((r : Row) → (f r).id ≡ r.id)
    → str_eq id k ≡ false
    → find k (set_where id f t) ≡ find k t
set_where_other id k f t i e = find-set_where k id f t i ∙ changed_other id k f (find k t) e

-- Where a new id is registered, the session is missing.
no_session : (s : Option Session) (r : Option Row) → r ≡ none → Agrees s r → s ≡ none
unfolding Agrees
no_session none r e h = refl
no_session (some s) none e h = absurd h
no_session (some s) (some r) e h = absurd (cc)

pub create_begins-Holds :
    (c : Result Str) (s : System) (url : Str) (now : Time) (rng : Option Rng) (refused : Option Str)
    (id : Str)
    → (create_row c url now refused s.manager).0 ≡ ok id
    → s.pending id ≡ none
    → AllHold s
    → AllHold (record {
      manager = (create_row c url now refused s.manager).1;
      pending = set id (some (to_add url now rng)) s.pending;
    })
create_begins-Holds c s url now rng refused id h p v =
    let r = create_row-HasRegistered c id url now refused s.manager h in
    let row = stored now (new_row id url now) in
    at_id id (some (to_add url now rng)) s (create_row c url now refused s.manager).1
      (Holds-by {p = some (to_add url now rng)} {s = none} {r = some row} refl
        (ap (session_of id) r.same_sessions
          ∙ no_session (session_of id s.manager.sessions) (find id s.manager.table) r.was_new
              (of_id id none s p v))
        (ap (find id) r.new_table
          ∙ find-snoc id row s.manager.table r.was_new
          ∙ rw (str_eq_self id) refl)
        refl)
      (λ k e. (
        ap (session_of k) r.same_sessions,
        ap (find k) r.new_table ∙ find-snoc k row s.manager.table r.was_new ∙ rw e refl,
      ))
      v

pub same-Holds :
    (s : System) (m' : Manager)
    → IsSame s.manager m'
    → AllHold s
    → AllHold (record s { manager = m' })
same-Holds s m' i v k =
    Holds-by refl (ap (session_of k) i.same_sessions) (ap (find k) i.same_table) (v k)

-- The part of a creation that adds the session, where there is none yet.
added-Agrees :
    (r : Option Row) (s : System) (id url : Str) (now : Time) (rng : Option Rng)
    → Holds (some (to_add url now rng)) none r
    → Agrees (some (new_session s.manager rng id [] url now)) r
unfolding Agrees new_session
added-Agrees none s id url now rng h = absurd h
added-Agrees (some r) s id url now rng h = h

add-Holds :
    (o : Option Session) (id url : Str) (now : Time) (rng : Option Rng) (s : System)
    → session_of id s.manager.sessions ≡ o
    → s.pending id ≡ some (to_add url now rng)
    → AllHold s
    → AllHold (record {
      manager = (add o id (new_session s.manager rng id [] url now) s.manager).1;
      pending = set id none s.pending;
    })
unfolding add
add-Holds (some old) id url now rng s f p v = absurd (
    no_add old (find id s.manager.table)
      (of_found id (some (to_add url now rng)) (some old) s p f v))
  where
    no_add : (old : Session) (r : Option Row) → Holds (some (to_add url now rng)) (some old) r → ⊥
    no_add old none h = h
    no_add old (some r) h = h
add-Holds none id url now rng s f p v =
    put-Holds id (new_session s.manager rng id [] url now) s
      (added-Agrees (find id s.manager.table) s id url now rng
        (of_found id (some (to_add url now rng)) none s p f v))
      v

pub create_ends-Holds :
    (id url : Str) (now : Time) (rng : Option Rng) (s : System)
    → s.pending id ≡ some (to_add url now rng)
    → AllHold s
    → AllHold (record {
      manager = (create_session id url now rng s.manager).1;
      pending = set id none s.pending;
    })
unfolding create_session
create_ends-Holds id url now rng s p v =
    add-Holds (session_of id s.manager.sessions) id url now rng s refl p v

-- A row whose URL has been changed, with a session.
abbrev redirect : Str → Row → Row
redirect url r = record r { webhook_url = url }

redirected_row :
    (name url : Str) (old : Session) (s : Option Session) (r : Option Row) (x : Row)
    → r ≡ some x
    → Agrees s r
    → Holds (some (to_redirect name url old)) s (some (redirect url x))
unfolding Agrees
redirected_row name url old s none x e h = absurd (cc)
redirected_row name url old none (some r) x e h = absurd h
redirected_row name url old (some t) (some r) x e h = refl

pub update_begins-Holds :
    (c : Result Session) (s : System) (name id url : Str) (refused : Option Str) (old : Session)
    → (update_row c id url refused s.manager).0 ≡ ok old
    → s.pending id ≡ none
    → AllHold s
    → AllHold (record {
      manager = (update_row c id url refused s.manager).1;
      pending = set id (some (to_redirect name url old)) s.pending;
    })
update_begins-Holds c s name id url refused old h p v =
    let r = update_row-HasRedirected c id url refused s.manager old h in
    at_id id (some (to_redirect name url old)) s (update_row c id url refused s.manager).1
      (Holds-by {p = some (to_redirect name url old)} {s = session_of id s.manager.sessions}
        {r = some (redirect url r.row)} refl (ap (session_of id) r.same_sessions)
        (ap (find id) r.new_table
          ∙ find-set_where id id (redirect url) s.manager.table (λ x. refl)
          ∙ ap (changed_row id id (redirect url)) r.was_there
          ∙ rw (str_eq_self id) refl)
        (redirected_row name url old (session_of id s.manager.sessions) (find id s.manager.table)
          r.row r.was_there (of_id id none s p v)))
      (λ k e. (
        ap (session_of k) r.same_sessions,
        ap (find k) r.new_table ∙ set_where_other id k (redirect url) s.manager.table (λ x. refl) e,
      ))
      v

missing-find :
    (id k : Str) (f : Row → Row) (t : Table)
    → ((r : Row) → (f r).id ≡ r.id)
    → find id t ≡ none
    → find k (set_where id f t) ≡ find k t
missing-find id k f t i n = elim (Bool-cases (str_eq id k)) [
  | inl e ↦
      let gone = ap (λ j. find j t) (sym ((str_eq_iff id k).0 e)) ∙ n in
      find-set_where k id f t i ∙ ap (changed_row id k f) gone ∙ sym gone
  | inr e ↦ set_where_other id k f t i e
]

pub update_fails-Holds :
    (c : Result Session) (s : System) (id url : Str) (refused : Option Str) (e : Error)
    → (update_row c id url refused s.manager).0 ≡ err e
    → AllHold s
    → AllHold (record s { manager = (update_row c id url refused s.manager).1 })
update_fails-Holds c s id url refused e h v =
    elim (update_row-refused c id url refused s.manager e h) [
      | inl i ↦ same-Holds s (update_row c id url refused s.manager).1 i v
      | inr (n, same, t) ↦ λ k.
          Holds-by refl (ap (session_of k) same)
            (ap (find k) t ∙ missing-find id k (redirect url) s.manager.table (λ x. refl) n) (v k)
    ]

redirected-Agrees :
    (name url : Str) (old t t' : Session) (r : Option Row)
    → t'.webhook_url ≡ url
    → Holds (some (to_redirect name url old)) (some t) r
    → Agrees (some t') r
unfolding Agrees
redirected-Agrees name url old t t' none e h = absurd h
redirected-Agrees name url old t t' (some r) e h = e ∙ h

update_found-Holds :
    (found : Option Session) (name id url : Str) (old : Session) (s : System)
    → session_of id s.manager.sessions ≡ found
    → s.pending id ≡ some (to_redirect name url old)
    → AllHold s
    → AllHold (record {
      manager = (update_found found name id url old s.manager).1;
      pending = set id none s.pending;
    })
unfolding update_found
update_found-Holds none name id url old s f p v = absurd (
    no_redirect (find id s.manager.table)
      (of_found id (some (to_redirect name url old)) none s p f v))
  where
    no_redirect : (r : Option Row) → Holds (some (to_redirect name url old)) none r → ⊥
    no_redirect none h = h
    no_redirect (some r) h = h
update_found-Holds (some t) name id url old s f p v =
    put-Holds id (info name (set_webhook_url url t)).0 s
      (redirected-Agrees name url old t (info name (set_webhook_url url t)).0
        (find id s.manager.table)
        (info-url name (set_webhook_url url t) ∙ unfold set_webhook_url in refl)
        (of_found id (some (to_redirect name url old)) (some t) s p f v))
      v

pub update_ends-Holds :
    (name id url : Str) (old : Session) (s : System)
    → s.pending id ≡ some (to_redirect name url old)
    → AllHold s
    → AllHold (record {
      manager = (update_session name id url old s.manager).1;
      pending = set id none s.pending;
    })
unfolding update_session
update_ends-Holds name id url old s p v =
    update_found-Holds (session_of id s.manager.sessions) name id url old s refl p v

pub delete_begins-Holds :
    (id : Str) (s : System)
    → (stop_session (session id s.manager) id s.manager).0 ≡ ok tt
    → s.pending id ≡ none
    → AllHold s
    → AllHold (record {
      manager = (stop_session (session id s.manager) id s.manager).1;
      pending = set id (some to_unregister) s.pending;
    })
delete_begins-Holds id s h p v =
    let r = stop_session-HasStopped id s.manager h in
    at_id id (some to_unregister) s (stop_session (session id s.manager) id s.manager).1
      (Holds-by {p = some to_unregister} {s = some r.after} {r = find id s.manager.table} refl
        (ap (session_of id) r.new_sessions ∙ put_self id r.after s.manager.sessions)
        (ap (find id) r.same_table)
        (Agrees-same_url r.session r.after (find id s.manager.table) r.same_url
          (of_found id none (some r.session) s p r.was_there v)))
      (λ k e. (
        ap (session_of k) r.new_sessions ∙ put_other id k r.after s.manager.sessions e,
        ap (find k) r.same_table,
      ))
      v

removing : (s : Option Session) → Holds (some to_remove) s none
removing none = tt
removing (some s) = tt

pub delete_unregisters-Holds :
    (id : Str) (refused : Option Str) (s : System)
    → (delete_row id refused s.manager).0 ≡ ok tt
    → AllHold s
    → AllHold (record {
      manager = (delete_row id refused s.manager).1;
      pending = set id (some to_remove) s.pending;
    })
delete_unregisters-Holds id refused s h v =
    let r = delete_row-HasUnregistered id refused s.manager h in
    at_id id (some to_remove) s (delete_row id refused s.manager).1
      (Holds-by {p = some to_remove} {s = session_of id s.manager.sessions} {r = none} refl
        (ap (session_of id) r.same_sessions)
        (ap (find id) r.new_table
          ∙ find-delete_where id id s.manager.table
          ∙ rw (str_eq_self id) refl)
        (removing (session_of id s.manager.sessions)))
      (λ k e. (
        ap (session_of k) r.same_sessions,
        ap (find k) r.new_table ∙ find-delete_where k id s.manager.table ∙ rw e refl,
      ))
      v

pub delete_fails-Holds :
    (id : Str) (refused : Option Str) (e : Error) (s : System)
    → s.pending id ≡ some to_unregister
    → (delete_row id refused s.manager).0 ≡ err e
    → AllHold s
    → AllHold
        (record { manager = (delete_row id refused s.manager).1; pending = set id none s.pending })
delete_fails-Holds id refused e s p h v =
    let i = delete_row-IsSame id refused s.manager e h in
    at_id id none s (delete_row id refused s.manager).1
      (Holds-by {p = none} {s = session_of id s.manager.sessions} {r = find id s.manager.table} refl
        (ap (session_of id) i.same_sessions) (ap (find id) i.same_table)
        (of_id id (some to_unregister) s p v))
      (λ k h. (ap (session_of k) i.same_sessions, ap (find k) i.same_table)) v

gone : (s : Option Session) (r : Option Row) → Holds (some to_remove) s r → Agrees none r
unfolding Agrees
gone s none h = tt
gone none (some r) h = absurd h
gone (some s) (some r) h = absurd h

pub delete_ends-Holds :
    (id : Str) (s : System)
    → s.pending id ≡ some to_remove
    → AllHold s
    → AllHold (record { manager = delete_session id s.manager; pending = set id none s.pending })
unfolding delete_session
delete_ends-Holds id s p v =
    at_id id none s (record s.manager { sessions = drop_session id s.manager.sessions })
      (Holds-by {p = none} {s = none} {r = find id s.manager.table} refl
        (session_of-drop_session id id s.manager.sessions ∙ rw (str_eq_self id) refl) refl
        (gone (session_of id s.manager.sessions) (find id s.manager.table)
          (of_id id (some to_remove) s p v)))
      (λ k e. (session_of-drop_session k id s.manager.sessions ∙ rw e refl, refl)) v
