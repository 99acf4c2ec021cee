-- ===== src/Manager/Lifecycle.antt =====
-- manager.go: `Start` and `Close`.
use wavonyx.Prelude.{
  any, List, [], ◌∷◌, ◌++◌, map, Option, Str, codes, str_eq, is_empty, if◌then◌else◌,
}
use wavonyx.Errors.{outside, Result, ok, err, ◌>>=◌, ◌>>◌}
use wavonyx.Message.{logged_out}
use wavonyx.Typing.Options.{Rng}
use wavonyx.Registry
use wavonyx.Registry.{Row}
use wavonyx.Session.State.{Client, Effect, World}
use wavonyx.Session.Login.{attach, stop}
use wavonyx.Manager.{Manager, Sessions, new_session, put}

-- `fmt.Errorf` with a prefix, of an error that is known by its text.
abbrev pub prefixed {ℓ} : {A : Type ℓ} → Str → Result A → Result A
prefixed text (ok a) = ok a
prefixed text (err (outside e)) = err (outside (text ++ e))
prefixed text (err e) = err e

-- What the others answer to a start: the database, the device store, for each JID whether its client
-- loads, and the new generators.
pub record StartAnswers : Type 0 where
  pub init_refused : Option Str
  pub list_refused : Option Str
  pub logged_in : Result (List Str)
  pub load : Str → Result Client
  pub rng : Str → Option Rng

-- `setStatus(StatusLoggedOut)`
abbrev pub set_logged_out : World → World
set_logged_out w = record w { session = record w.session { status = logged_out } }

-- The switch of the loop: a session that never paired, one whose device is there, and one whose
-- device is gone. An error of `attach` is only logged.
abbrev pub settled : StartAnswers → List Str → Row → World → World
settled a jids row w =
    if is_empty row.jid
    then w
    else (if any (str_eq row.jid) jids then (attach (a.load row.jid) w).1 else set_logged_out w)

-- One round of the loop; the worker of the session starts with it.
unfoldable pub start_row : StartAnswers → List Str → Row → Manager → Manager
unfolding new_session
start_row a jids row m =
    let w = settled a jids row (record {
      session = new_session m (a.rng row.id) row.id row.jid row.webhook_url row.created_at;
      trace = [];
    }) in
    record m {
      sessions = put row.id w.session m.sessions;
      trace = map (λ e. (row.id, e)) w.trace ++ m.trace;
    }

unfoldable pub start_rows : StartAnswers → List Str → List Row → Manager → Manager
unfolding start_row
start_rows a jids [] m = m
start_rows a jids (row ∷ rows) m = start_rows a jids rows (start_row a jids row m)

-- What is read before the loop.
unfoldable pub start_input : StartAnswers → Manager → Result (List Row × List Str)
start_input a m = do
  prefixed (codes "init registry: ") (Registry.init a.init_refused)
  rows ← prefixed (codes "load registry: ") (Registry.list a.list_refused m.table)
  jids ← prefixed (codes "load devices: ") a.logged_in
  ok (rows, jids)

abbrev pub started :
    StartAnswers → Result (List Row × List Str) → Manager → Result (Unit {0}) × Manager
started a (err e) m = (err e, m)
started a (ok (rows, jids)) m = (ok tt, start_rows a jids rows m)

-- `Start`
unfoldable pub start : StartAnswers → Manager → Result (Unit {0}) × Manager
unfolding start_rows start_input
start a m = started a (start_input a m) m

-- `stop` of every session, in the order of the list, as the loop of `Close` does.
unfoldable pub stop_all : Sessions → List (Str × Effect) → Sessions × List (Str × Effect)
stop_all [] trace = ([], trace)
stop_all ((id, s) ∷ m) trace =
    let w = stop (record { session = s; trace = [] }) in
    let (rest, trace') = stop_all m (map (λ e. (id, e)) w.trace ++ trace) in
    ((id, w.session) ∷ rest, trace')

-- `Close`, without the dispatcher's; `closed` is the store's answer.
unfoldable pub close : Result (Unit {0}) → Manager → Result (Unit {0}) × Manager
unfolding stop_all
close closed m =
    let (sessions, trace) = stop_all m.sessions m.trace in
    (closed, record m { sessions = sessions; trace = trace })
