-- ===== src/Server/Managed.antt =====
-- server/server.go over manager.go: a server whose sessions are the manager's.
use wavonyx.Prelude.{ℕ, List, Option, Str}
use wavonyx.Errors.{Error, Result, ok, err}
use wavonyx.Message.{Time, SendResult}
use wavonyx.MediaRef.{Codec}
use wavonyx.Typing.Options.{FloatOps, Rng}
use wavonyx.Session.Login.{LoginAnswers, LoginWait}
use wavonyx.Session.Sending.{WaSendResult}
use wavonyx.Manager.{Manager, Url}
use wavonyx.Manager.Operations.{create, update_webhook, delete}
use wavonyx.Manager.Listing.{list}
use wavonyx.Manager.Delegates
use wavonyx.Server.Api.{SessionApi}

-- What others answer while one request is served: the new id and generator, the database, the clients,
-- the clock, and the worker, which sends the outcome of a job.
pub record ApiAnswers : Type 0 where
  pub generated : Str
  pub now : Time
  pub rng : Option Rng
  pub refused : Option Str
  pub name : Str → Str
  pub login : LoginAnswers
  pub wait : LoginWait
  pub logout_error : Option Error
  pub ops : FloatOps
  pub ticket : ℕ
  pub outcome : ℕ → Result SendResult
  pub sent : Result WaSendResult
  pub codec : Codec
  pub fetched : Result (List ℕ)

-- The end of `enqueue`: the wait for the outcome of the job.
unfoldable pub awaited : (ℕ → Result SendResult) → Result ℕ × Manager → Result SendResult × Manager
awaited outcome (err e, m) = (err e, m)
awaited outcome (ok ticket, m) = (outcome ticket, m)

-- `Manager` as a `SessionAPI`.
unfoldable pub manager_api : (Str → Option Url) → ApiAnswers → SessionApi Manager
unfolding awaited Delegates.get Delegates.login Delegates.qr Delegates.logout Delegates.send
    Delegates.send_media Delegates.edit_message Delegates.revoke_message Delegates.recent
    Delegates.download_media
manager_api parse a = record {
  create = λ id url m. create parse a.generated id url a.now a.rng a.refused m;
  update_webhook = λ id url m. update_webhook parse (a.name id) id url a.refused m;
  list = list a.name;
  get = λ id m. Delegates.get (a.name id) id m;
  login = λ id m. Delegates.login a.login a.wait a.now id m;
  qr = λ id m. Delegates.qr a.now id m;
  logout = λ id m. Delegates.logout a.logout_error id m;
  delete = λ id m. delete id a.refused m;
  send = λ id req m. awaited a.outcome (Delegates.send a.ops a.ticket req a.now id m);
  send_media = λ id req m. awaited a.outcome (Delegates.send_media a.ops a.ticket req a.now id m);
  edit_message = λ id to message_id text m. Delegates.edit_message a.sent id to message_id text m;
  revoke_message = λ id to message_id m. Delegates.revoke_message a.sent id to message_id m;
  recent = λ id limit m. Delegates.recent id limit m;
  download_media = λ id token m. Delegates.download_media a.codec a.fetched id token m;
}
