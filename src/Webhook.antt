-- ===== src/Webhook.antt =====
-- webhook.go: the dispatcher of events.
pub mod Delivery
pub mod Backoff
pub mod Queue
pub mod Replies
pub mod Attempts
mod Tests
use wavonyx.Prelude.{
  ℕ, suc, ◌+◌, Bool, true, false, List, [], ◌∷◌, ◌++◌, Option, none, some, Str, is_empty, length,
  ltb, if◌then◌else◌,
}
use wavonyx.Prelude.Int.{pos_part}
use wavonyx.Message.{EventType, Event}
use wavonyx.Config.{WebhookConfig, webhook_with_defaults}

-- `webhookJob`
pub record Job : Type 0 where
  pub url : Str
  pub delivery : Str
  pub event : EventType
  pub session : Str
  pub body : List ℕ

-- `Dispatcher`: the buffer of its channel is a list. The workers and the context are in `Delivery`.
pub record Dispatcher : Type 0 where
  pub cfg : WebhookConfig
  pub jobs : List Job
  pub closed : Bool
  pub dropped : ℕ

-- `NewDispatcher`
unfoldable pub new_dispatcher : WebhookConfig → Dispatcher
new_dispatcher cfg = record {
  cfg = webhook_with_defaults cfg;
  jobs = [];
  closed = false;
  dropped = 0;
}

-- The URL of the session, or that of the configuration.
abbrev pub target : Dispatcher → Str → Str
target d url = if is_empty url then d.cfg.url else url

abbrev pub job_of : Str → Str → Event → List ℕ → Job
job_of url delivery ev body = record {
  url = url;
  delivery = delivery;
  event = ev.event;
  session = ev.session_id;
  body = body;
}

-- The critical section of `Enqueue`.
unfoldable pub submit : Job → Dispatcher → Dispatcher
submit job d =
    if d.closed
    then d
    else (if ltb (length d.jobs) (pos_part d.cfg.queue_size)
        then record d { jobs = d.jobs ++ job ∷ [] }
        else record d { dropped = suc d.dropped })

unfoldable pub submit_marshalled : Option (List ℕ) → Str → Str → Event → Dispatcher → Dispatcher
unfolding submit
submit_marshalled none url delivery ev d = d
submit_marshalled (some body) url delivery ev d = submit (job_of url delivery ev body) d

-- `Enqueue`; `marshal` is encoding/json, and `delivery` is the new delivery id.
unfoldable pub enqueue : (Event → Option (List ℕ)) → Str → Str → Event → Dispatcher → Dispatcher
unfolding submit_marshalled
enqueue marshal delivery url ev d =
    if is_empty (target d url)
    then d
    else submit_marshalled (marshal ev) (target d url) delivery ev d

-- `Close`, up to the wait: the channel is closed, and the workers drain what it holds.
unfoldable pub close : Dispatcher → Dispatcher
close d = record d { closed = true }

-- A worker takes the next job, if there is one.
unfoldable pub take_job : Dispatcher → Option Job × Dispatcher
take_job d = take_from d.jobs
  where
    take_from : List Job → Option Job × Dispatcher
    take_from [] = (none, d)
    take_from (job ∷ rest) = (some job, record d { jobs = rest })
