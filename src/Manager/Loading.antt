-- ===== src/Manager/Loading.antt =====
-- manager.go: `Start` makes a session for each row of the registry.
use mathlib.Core.Path.{subst}
use wavonyx.Prelude.{
  codes, map, any, ◌≡◌, refl, sym, ap, ◌∙◌, Bool, true, false, List, [], ◌∷◌, Option, none, some,
  Str, str_eq, str_eq_iff, is_empty, arith, if◌then◌else◌,
}
use wavonyx.Prelude.Sort.{sort_by}
use wavonyx.Config.{Config}
use wavonyx.Errors.{Result, ok, err, ◌>>=◌, ◌>>◌}
use wavonyx.Registry
use wavonyx.Registry.{Row, Table, find, loaded, row_less}
use wavonyx.Registry.Order.{
  Keyed, loaded_row, find-loaded, find-sort_by, Keyed-loaded, Keyed-sort_by,
}
use wavonyx.Session.State.{Session, World}
use wavonyx.Session.Login.{attach}
use wavonyx.Manager.{Manager, session_of, new_session}
use wavonyx.Manager.Sessions.{session_of-put}
use wavonyx.Manager.Consistency.{Agrees, IsConsistent}
use wavonyx.Manager.Agree.{Agree}
use wavonyx.Manager.Held.{held, attach-KeepsHeld}
use wavonyx.Manager.Lifecycle.{
  prefixed, StartAnswers, settled, set_logged_out, start_row, start_rows, start_input, started,
  start,
}

pub settled-held :
    (a : StartAnswers) (jids : List Str) (row : Row) (w : World)
    → held (settled a jids row w).session ≡ held w.session
settled-held a jids row w = by_jid (is_empty row.jid) (any (str_eq row.jid) jids)
  where
    by_jid :
        (never there : Bool)
        → held
            (if never
              then w
              else (if there then (attach (a.load row.jid) w).1 else set_logged_out w)).session
          ≡ held w.session
    by_jid true there = refl
    by_jid false true = attach-KeepsHeld (a.load row.jid) w
    by_jid false false = refl

-- What the loop leaves under an id: the session of the row, or what was there.
abbrev Loads : Option Row → Option Session → Option Session → Type 0
Loads none old new = new ≡ old
Loads (some r) old new = Agrees new (some r)

-- The session that one round makes of a row.
abbrev pub row_session : StartAnswers → List Str → Row → Manager → Session
row_session a jids row m =
    (settled a jids row (record {
      session = new_session m (a.rng row.id) row.id row.jid row.webhook_url row.created_at;
      trace = [];
    })).session

row_session-url :
    (a : StartAnswers) (jids : List Str) (row : Row) (m : Manager)
    → (row_session a jids row m).webhook_url ≡ row.webhook_url
unfolding new_session
row_session-url a jids row m = ap (λ s. s.webhook_url) (settled-held a jids row _)

start_row-session_of :
    (a : StartAnswers) (jids : List Str) (row : Row) (m : Manager) (id : Str)
    → session_of id (start_row a jids row m).sessions
      ≡ (if str_eq row.id id then some (row_session a jids row m) else session_of id m.sessions)
unfolding start_row
start_row-session_of a jids row m id =
    session_of-put id row.id (row_session a jids row m) m.sessions

start_rows-Loads :
    (a : StartAnswers) (jids : List Str) (rows : List Row) (m : Manager) (id : Str)
    → Keyed rows
    → Loads
        (find id rows)
        (session_of id m.sessions)
        (session_of id (start_rows a jids rows m).sessions)
unfolding find start_rows
start_rows-Loads a jids [] m id v = refl
start_rows-Loads a jids (row ∷ rows) m id (e, v) =
    by_key _ _ _ (str_eq row.id id) (find id rows) refl
      (λ h. ap (λ k. find k rows) (sym ((str_eq_iff row.id id).0 h)) ∙ e)
      (start_row-session_of a jids row m id)
      (start_rows-Loads a jids rows (start_row a jids row m) id v)
  where
    by_key :
        (old mid new : Option Session) (b : Bool) (o : Option Row)
        → str_eq row.id id ≡ b
        → (b ≡ true → o ≡ none)
        → mid ≡ (if b then some (row_session a jids row m) else old)
        → Loads o mid new
        → Loads (if b then some row else o) old new
    by_key old mid new true none h n u w =
        subst (λ x. Agrees x (some row)) (sym (w ∙ u))
          (unfold Agrees in row_session-url a jids row m)
    by_key old mid new true (some r) h n u w = absurd (ground (arith, n refl))
    by_key old mid new false none h n u w = w ∙ u
    by_key old mid new false (some r) h n u w = w

start_rows-table :
    (a : StartAnswers) (jids : List Str) (rows : List Row) (m : Manager)
    → (start_rows a jids rows m).table ≡ m.table
unfolding start_rows start_row
start_rows-table a jids [] m = refl
start_rows-table a jids (row ∷ rows) m = start_rows-table a jids rows (start_row a jids row m)

Agrees-loaded :
    (o o' : Option Row) (s : Option Session) → o' ≡ loaded_row o → Loads o' none s → Agrees s o
unfolding Agrees
Agrees-loaded none none s e v = subst (λ x. Agrees x none) (sym v) (unfold Agrees in tt)
Agrees-loaded none (some r) s e v = absurd (ground arith)
Agrees-loaded (some r) none s e v = absurd (ground arith)
Agrees-loaded (some r) (some q) none e v = v
Agrees-loaded (some r) (some q) (some s) e v =
    v ∙ ap (λ o. elim o [ none ↦ r.webhook_url | some x ↦ x.webhook_url ]) e

-- A manager before its start, on a registry that is there.
abbrev pub unstarted : Config → Bool → Table → Manager
unstarted cfg has_hooks table = record {
  cfg = cfg;
  has_hooks = has_hooks;
  sessions = [];
  table = table;
  trace = [];
  devices = [];
}

-- The rows in the order of the list.
abbrev pub listed : Table → List Row
listed t = map loaded (sort_by row_less t)

listed-find : (id : Str) (t : Table) → Keyed t → find id (listed t) ≡ loaded_row (find id t)
listed-find id t v = find-loaded id (sort_by row_less t) ∙ ap loaded_row (find-sort_by id t v)

start_rows-Agree :
    (a : StartAnswers) (jids : List Str) (cfg : Config) (has_hooks : Bool) (t : Table)
    → Keyed t
    → Agree (start_rows a jids (listed t) (unstarted cfg has_hooks t))
unfolding session_of
start_rows-Agree a jids cfg has_hooks t v =
    subst (IsConsistent _) (sym (start_rows-table a jids (listed t) (unstarted cfg has_hooks t)))
      (record {
        agree = λ id. Agrees-loaded (find id t) (find id (listed t)) _ (listed-find id t v) (
            start_rows-Loads a jids (listed t) (unstarted cfg has_hooks t) id
              (Keyed-loaded (sort_by row_less t) (Keyed-sort_by t v)));
      })

by_devices :
    (a : StartAnswers) (m : Manager) (rows : List Row) (d : Result (List Str))
    → (started a (d >>= λ jids. ok (rows, jids)) m).0 ≡ ok tt
    → (jids : List Str) × ((started a (d >>= λ jids. ok (rows, jids)) m).1
        ≡ start_rows a jids rows m)
by_devices a m rows (err e) h = absurd (ground (arith, h))
by_devices a m rows (ok jids) h = (jids, refl)

-- A start without an error has gone through the rows of the registry.
pub start-listed :
    (a : StartAnswers) (m : Manager)
    → (start a m).0 ≡ ok tt
    → (jids : List Str) × ((start a m).1 ≡ start_rows a jids (listed m.table) m)
unfolding start start_input Registry.init Registry.list
start-listed a m h = by_refusals a.init_refused a.list_refused h
  where
    input : Option Str → Option Str → Result (List Row × List Str)
    input i l = do
      prefixed (codes "init registry: ") (Registry.init i)
      rows ← prefixed (codes "load registry: ") (Registry.list l m.table)
      jids ← prefixed (codes "load devices: ") a.logged_in
      ok (rows, jids)

    by_refusals :
        (i l : Option Str)
        → (started a (input i l) m).0 ≡ ok tt
        → (jids : List Str) × ((started a (input i l) m).1 ≡ start_rows a jids (listed m.table) m)
    by_refusals none none h =
        by_devices a m (listed m.table) (prefixed (codes "load devices: ") a.logged_in) h
    by_refusals none (some e) h = absurd (ground (arith, h))
    by_refusals (some e) l h = absurd (ground (arith, h))

pub start-Agree :
    (a : StartAnswers) (cfg : Config) (has_hooks : Bool) (t : Table)
    → Keyed t
    → (start a (unstarted cfg has_hooks t)).0 ≡ ok tt
    → Agree (start a (unstarted cfg has_hooks t)).1
start-Agree a cfg has_hooks t v h =
    let (jids, e) = start-listed a (unstarted cfg has_hooks t) h in
    subst Agree (sym e) (start_rows-Agree a jids cfg has_hooks t v)

pub start-Keyed :
    (a : StartAnswers) (cfg : Config) (has_hooks : Bool) (t : Table)
    → Keyed t
    → (start a (unstarted cfg has_hooks t)).0 ≡ ok tt
    → Keyed (start a (unstarted cfg has_hooks t)).1.table
start-Keyed a cfg has_hooks t v h =
    let (jids, e) = start-listed a (unstarted cfg has_hooks t) h in
    subst (λ m. Keyed m.table) (sym e)
      (subst Keyed (sym (start_rows-table a jids (listed t) (unstarted cfg has_hooks t))) v)
