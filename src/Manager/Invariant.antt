-- ===== src/Manager/Invariant.antt =====
-- manager.go and session.go: every session of a manager stays well formed.
use wavonyx.Ring.{effective}
use wavonyx.Prelude.{refl, [], take, ◌≡◌, Option, some, Str}
use wavonyx.Prelude.Int.{ℤ}
use wavonyx.Errors.{◌>>◌}
use wavonyx.Ring
use wavonyx.Ring.Refine.{contents, recent_refines}
use wavonyx.Session.State.{Session}
use wavonyx.Session.Invariant.{WellFormed}
use wavonyx.Manager.{Url, new_session, session_of, session, validate_webhook_url}
use wavonyx.Manager.Operations.{
  checked_id, create_session, update_session, on_session, delete_session,
}
use wavonyx.Manager.Agree.{or_not_found-inv}
use wavonyx.Manager.Steps.{
  System, Step, create_begins, create_fails, create_ends, update_begins, update_fails, update_ends,
  delete_begins, delete_unregisters, delete_fails, delete_ends, runs, lists, learns, restarts,
  Reachable, starts, continues,
}
use wavonyx.Manager.Formed.{
  AllFormed, session_of-WellFormed, new_session-WellFormed, drop-AllFormed, add-AllFormed,
  create_row-AllFormed, update_row-AllFormed, update_found-AllFormed, stop_session-AllFormed,
  delete_row-AllFormed, delegated-AllFormed, list-AllFormed, start-AllFormed,
}

step-AllFormed :
    (parse : Str → Option Url) (s s' : System)
    → Step parse s s'
    → AllFormed s.manager.sessions
    → AllFormed s'.manager.sessions
unfolding create_session update_session delete_session on_session session
step-AllFormed parse s _ (create_begins generated name url now rng refused id h p) v =
    create_row-AllFormed (checked_id parse generated name url) url now refused s.manager v
step-AllFormed parse s _ (create_fails generated name url now refused e h) v =
    create_row-AllFormed (checked_id parse generated name url) url now refused s.manager v
step-AllFormed parse s _ (create_ends id url now rng p) v =
    add-AllFormed (session_of id s.manager.sessions) id (new_session s.manager rng id [] url now)
      s.manager (new_session-WellFormed s.manager rng id [] url now) v
step-AllFormed parse s _ (update_begins name id url refused old h p) v =
    update_row-AllFormed (validate_webhook_url parse url >> session id s.manager) id url refused
      s.manager v
step-AllFormed parse s _ (update_fails id url refused e h) v =
    update_row-AllFormed (validate_webhook_url parse url >> session id s.manager) id url refused
      s.manager v
step-AllFormed parse s _ (update_ends name id url old p) v =
    update_found-AllFormed (session_of id s.manager.sessions) name id url old s.manager refl v
step-AllFormed parse s _ (delete_begins id h p) v =
    stop_session-AllFormed (session id s.manager) id s.manager
      (λ t e. or_not_found-inv (session_of id s.manager.sessions) t e) v
step-AllFormed parse s _ (delete_unregisters id refused p h) v =
    delete_row-AllFormed id refused s.manager v
step-AllFormed parse s _ (delete_fails id refused e p h) v =
    delete_row-AllFormed id refused s.manager v
step-AllFormed parse s _ (delete_ends id p) v = drop-AllFormed id s.manager.sessions v
step-AllFormed parse s _ (runs id op k) v =
    delegated-AllFormed (session id s.manager) id op s.manager k
      (λ t e. or_not_found-inv (session_of id s.manager.sessions) t e) v
step-AllFormed parse s _ (lists name) v = list-AllFormed name s.manager v
step-AllFormed parse s _ (learns id jid refused) v = v
step-AllFormed parse s _ (restarts a cfg has_hooks h) v =
    start-AllFormed a cfg has_hooks s.manager.table h

-- Where no two calls of `Create`, `UpdateWebhook` and `Delete` on one id overlap, and the process starts
-- without an error on a registry of which no two rows have one id: after any sequence of critical sections
-- and restarts, every session of the manager is well formed. The buffer of its messages is a valid ring,
-- no sender of a chat has two unread messages, and no more jobs wait than the bound of the queue allows.
-- Reading its messages is never out of range, whatever the limit.
pub Reachable-WellFormed :
    (parse : Str → Option Url) (s : System) (id : Str) (t : Session)
    → Reachable parse s
    → session_of id s.manager.sessions ≡ some t
    → WellFormed t
      × ((limit : ℤ)
          → Ring.recent t.ring limit ≡ some (take (effective limit t.ring.n) (contents t.ring)))
Reachable-WellFormed parse s id t r e =
    let v = session_of-WellFormed id t s.manager.sessions e (formed s r) in
    (v, λ limit. recent_refines limit v.0)
  where
    formed : (s : System) → Reachable parse s → AllFormed s.manager.sessions
    formed _ (starts a cfg has_hooks t v h) = start-AllFormed a cfg has_hooks t h
    formed s' (continues {s} r x) = step-AllFormed parse s s' x (formed s r)
