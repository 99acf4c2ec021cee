-- ===== src/Manager/Formed.antt =====
-- manager.go: each operation keeps every session of the manager well formed.
use mathlib.Core.Path.{subst}
use wavonyx.Prelude.{
  List, Bool, ◌≡◌, refl, sym, ap, ◌∙◌, Bool-cases, inl, inr, str_eq, if◌then◌else◌, [], ◌∷◌, ◌++◌,
  map, Option, none, some, Str, arith, All,
}
use wavonyx.Errors.{Result, ok, err}
use wavonyx.Message.{Time}
use wavonyx.Typing.Options.{Rng}
use wavonyx.Config.{Config}
use wavonyx.Ring.Inv.{new_ring-IsValid}
use wavonyx.Registry.{Row, Table}
use wavonyx.Session.State.{Session, World, disconnect}
use wavonyx.Session.Pairing.{info, set_webhook_url}
use wavonyx.Session.Login.{stop}
use wavonyx.Session.Invariant.{WellFormed}
use wavonyx.Manager.{Manager, Sessions, session_of, put, drop_session, new_session}
use wavonyx.Manager.Operations.{
  registered, create_row, add, redirected, update_row, update_found, stop_session, unregistered,
  delete_row, delegated, with_device,
}
use wavonyx.Manager.Listing.{list, refreshed}
use wavonyx.Manager.Lifecycle.{StartAnswers, start_row, start_rows, start}
use wavonyx.Manager.Loading.{unstarted, row_session, listed, settled-held, start-listed}
use wavonyx.Manager.Held.{info-held}
use wavonyx.Manager.Agree.{emit_for-session, emit_cancel-session}
use wavonyx.Manager.Events.{Event}
use wavonyx.Manager.Forms.{Event-KeepsForm}

-- Every session of the map is well formed.
abbrev pub AllFormed : Sessions → Type 0
AllFormed = All (λ e. WellFormed e.1)

put-AllFormed :
    (id : Str) (s : Session) (m : Sessions) → WellFormed s → AllFormed m → AllFormed (put id s m)
unfolding put
put-AllFormed id s [] h v = (h, tt)
put-AllFormed id s ((k, t) ∷ m) h (u, v) = elim (Bool-cases (str_eq k id)) [
  | inl e ↦ rw e (h, v)
  | inr e ↦ rw e (u, put-AllFormed id s m h v)
]

pub drop-AllFormed : (id : Str) (m : Sessions) → AllFormed m → AllFormed (drop_session id m)
unfolding drop_session
drop-AllFormed id [] v = tt
drop-AllFormed id ((k, t) ∷ m) (u, v) = elim (Bool-cases (str_eq k id)) [
  | inl e ↦ rw e (drop-AllFormed id m v)
  | inr e ↦ rw e (u, drop-AllFormed id m v)
]

pub session_of-WellFormed :
    (id : Str) (s : Session) (m : Sessions) → session_of id m ≡ some s → AllFormed m → WellFormed s
unfolding session_of
session_of-WellFormed id s [] e v = absurd (cc)
session_of-WellFormed id s ((k, t) ∷ m) e (u, v) = elim (Bool-cases (str_eq k id)) [
  | inl h ↦
      subst WellFormed
        (ap (λ o. elim o [ none ↦ t | some x ↦ x ])
          (sym (ap (λ b. if b then some t else session_of id m) h) ∙ e))
        u
  | inr h ↦
      session_of-WellFormed id s m (sym (ap (λ b. if b then some t else session_of id m) h) ∙ e) v
]

pub new_session-WellFormed :
    (m : Manager) (rng : Option Rng) (id jid url : Str) (now : Time)
    → WellFormed (new_session m rng id jid url now)
unfolding new_session
new_session-WellFormed m rng id jid url now = (new_ring-IsValid m.cfg.ring_size, tt, ground arith)

pub add-AllFormed :
    (old : Option Session) (id : Str) (s : Session) (m : Manager)
    → WellFormed s
    → AllFormed m.sessions
    → AllFormed (add old id s m).1.sessions
unfolding add
add-AllFormed (some o) id s m h v = v
add-AllFormed none id s m h v = put-AllFormed id s m.sessions h v

registered-sessions :
    (r : Result (Unit {0}) × Table) (id : Str) (m : Manager)
    → (registered r id m).1.sessions ≡ m.sessions
unfolding registered
registered-sessions (err e, t) id m = refl
registered-sessions (ok u, t) id m = refl

pub create_row-AllFormed :
    (c : Result Str) (url : Str) (now : Time) (refused : Option Str) (m : Manager)
    → AllFormed m.sessions
    → AllFormed (create_row c url now refused m).1.sessions
unfolding create_row
create_row-AllFormed (err e) url now refused m v = v
create_row-AllFormed (ok id) url now refused m v =
    subst AllFormed (sym (registered-sessions _ id m)) v

info-WellFormed :
    (name url : Str) (s : Session) → WellFormed s → WellFormed (info name (set_webhook_url url s)).0
info-WellFormed name url s v =
    subst WellFormed (sym (info-held name (set_webhook_url url s))) (unfold set_webhook_url in v)

redirected-sessions :
    (r : Result (Unit {0}) × Table) (s : Session) (m : Manager)
    → (redirected r s m).1.sessions ≡ m.sessions
unfolding redirected
redirected-sessions (err e, t) s m = refl
redirected-sessions (ok u, t) s m = refl

pub update_row-AllFormed :
    (c : Result Session) (id url : Str) (refused : Option Str) (m : Manager)
    → AllFormed m.sessions
    → AllFormed (update_row c id url refused m).1.sessions
unfolding update_row
update_row-AllFormed (err e) id url refused m v = v
update_row-AllFormed (ok s) id url refused m v = subst AllFormed (sym (redirected-sessions _ s m)) v

pub update_found-AllFormed :
    (o : Option Session) (name id url : Str) (s : Session) (m : Manager)
    → session_of id m.sessions ≡ o
    → AllFormed m.sessions
    → AllFormed (update_found o name id url s m).1.sessions
unfolding update_found
update_found-AllFormed none name id url s m f v = v
update_found-AllFormed (some t) name id url s m f v =
    put-AllFormed id (info name (set_webhook_url url t)).0 m.sessions
      (info-WellFormed name url t (session_of-WellFormed id t m.sessions f v)) v

pub delegated-AllFormed :
    {A : Type 0} (c : Result Session) (id : Str) (op : World → Result A × World) (m : Manager)
    → Event A op
    → ((s : Session) → c ≡ ok s → session_of id m.sessions ≡ some s)
    → AllFormed m.sessions
    → AllFormed (delegated c id op m).1.sessions
unfolding delegated
delegated-AllFormed (err e) id op m k h v = v
delegated-AllFormed {A} (ok s) id op m k h v =
    put-AllFormed id _ m.sessions
      (Event-KeepsForm A op k (record { session = s; trace = [] })
        (session_of-WellFormed id s m.sessions (h s refl) v))
      v

stop-WellFormed : (w : World) → WellFormed w.session → WellFormed (stop w).session
unfolding stop
stop-WellFormed w v =
    subst WellFormed
      (sym (
        emit_for-session w.session.client disconnect _
        ∙ emit_cancel-session w.session.pair_cancel _))
      v

with_device-sessions : (jid : Str) (m : Manager) → (with_device jid m).sessions ≡ m.sessions
with_device-sessions jid m = ground arith

pub stop_session-AllFormed :
    (c : Result Session) (id : Str) (m : Manager)
    → ((s : Session) → c ≡ ok s → session_of id m.sessions ≡ some s)
    → AllFormed m.sessions
    → AllFormed (stop_session c id m).1.sessions
unfolding stop_session
stop_session-AllFormed (err e) id m h v = v
stop_session-AllFormed (ok s) id m h v =
    let w = stop (record { session = s; trace = [] }) in
    let m' = record m {
      sessions = put id w.session m.sessions;
      trace = map (λ e. (id, e)) w.trace ++ m.trace;
    } in
    subst AllFormed (sym (with_device-sessions s.jid m')) (
      put-AllFormed id w.session m.sessions
        (stop-WellFormed (record { session = s; trace = [] })
          (session_of-WellFormed id s m.sessions (h s refl) v))
        v)

unregistered-sessions :
    (r : Result (Unit {0}) × Table) (m : Manager) → (unregistered r m).1.sessions ≡ m.sessions
unfolding unregistered
unregistered-sessions (ok u, t) m = refl
unregistered-sessions (err e, t) m = refl

pub delete_row-AllFormed :
    (id : Str) (refused : Option Str) (m : Manager)
    → AllFormed m.sessions
    → AllFormed (delete_row id refused m).1.sessions
unfolding delete_row
delete_row-AllFormed id refused m v = subst AllFormed (sym (unregistered-sessions _ m)) v

refreshed-AllFormed : (name : Str → Str) (m : Sessions) → AllFormed m → AllFormed (refreshed name m)
unfolding refreshed
refreshed-AllFormed name [] v = tt
refreshed-AllFormed name ((id, s) ∷ m) (u, v) =
    (subst WellFormed (sym (info-held (name id) s)) u, refreshed-AllFormed name m v)

pub list-AllFormed :
    (name : Str → Str) (m : Manager) → AllFormed m.sessions → AllFormed (list name m).1.sessions
unfolding list
list-AllFormed name m v = refreshed-AllFormed name m.sessions v

start_rows-AllFormed :
    (a : StartAnswers) (jids : List Str) (rows : List Row) (m : Manager)
    → AllFormed m.sessions
    → AllFormed (start_rows a jids rows m).sessions
unfolding start_rows start_row
start_rows-AllFormed a jids [] m v = v
start_rows-AllFormed a jids (row ∷ rows) m v =
    start_rows-AllFormed a jids rows (start_row a jids row m) (
      put-AllFormed row.id (row_session a jids row m) m.sessions
        (subst WellFormed (sym (settled-held a jids row _))
          (new_session-WellFormed m (a.rng row.id) row.id row.jid row.webhook_url row.created_at))
        v)

pub start-AllFormed :
    (a : StartAnswers) (cfg : Config) (has_hooks : Bool) (t : Table)
    → (start a (unstarted cfg has_hooks t)).0 ≡ ok tt
    → AllFormed (start a (unstarted cfg has_hooks t)).1.sessions
start-AllFormed a cfg has_hooks t h =
    let (jids, e) = start-listed a (unstarted cfg has_hooks t) h in
    subst (λ m. AllFormed m.sessions) (sym e)
      (start_rows-AllFormed a jids (listed t) (unstarted cfg has_hooks t) tt)
