-- ===== src/Manager/Urls.antt =====
-- manager.go and session.go: no operation of a session changes its webhook URL.
use wavonyx.Prelude.{ℕ, ◌≡◌, refl, ap, arith}
use wavonyx.Errors.{Result, ok, err}
use wavonyx.Message.{Time, SendRequest, MediaSendRequest}
use wavonyx.Typing.Options.{FloatOps, Rng}
use wavonyx.Session.State.{Session, SendJob, World}
use wavonyx.Session.Sending
use wavonyx.Session.Sending.{JobAnswers, WaSendResult, enqueue, enqueue_checked, process}
use wavonyx.Session.Delivery.{process-deliveries}
use wavonyx.Manager.Agree.{KeepsUrl}
use wavonyx.Manager.Delegates.{within}

enqueued-url :
    (c : Result SendJob) (now : Time) (s : Session)
    → (enqueue_checked c now s).1.webhook_url ≡ s.webhook_url
unfolding enqueue_checked enqueue
enqueued-url (err e) now s = refl
enqueued-url (ok job) now s = ground arith

pub send-KeepsUrl :
    (ops : FloatOps) (ticket : ℕ) (req : SendRequest) (now : Time)
    → KeepsUrl (within (Sending.send ops ticket req now))
unfolding Sending.send
send-KeepsUrl ops ticket req now w = enqueued-url (Sending.send_job ops ticket req) now w.session

pub send_media-KeepsUrl :
    (ops : FloatOps) (ticket : ℕ) (req : MediaSendRequest) (now : Time)
    → KeepsUrl (within (Sending.send_media_request ops ticket req now))
unfolding Sending.send_media_request
send_media-KeepsUrl ops ticket req now w =
    enqueued-url (Sending.media_job ops ticket req w.session) now w.session

-- What the worker does to a session keeps its URL.
pub process-url :
    (ops : FloatOps) (seeded : Rng) (job : SendJob) (a : JobAnswers) (w : World)
    → (process ops seeded job a w).session.webhook_url ≡ w.session.webhook_url
process-url ops seeded job a w =
    let (r, delivered, same) = process-deliveries ops seeded job a w in ap (λ s. s.webhook_url) same
