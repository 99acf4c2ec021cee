-- ===== src/Webhook/Tests.antt =====
-- A dispatcher at work.
use wavonyx.Prelude.{
  ℕ, zero, suc, ◌≡◌, refl, ◌≤◌, ◌<◌, ◌+◌, ◌*◌, ◌^◌, ◌/◌, min, false, List, [], ◌∷◌, ◌++◌, Option,
  some, Str, codes, arith, replicate, take, length,
}
use wavonyx.Prelude.Int.{pos, pos_part, ◌≤ℤ◌}
use wavonyx.Errors.{outside}
use wavonyx.Message.{Event, EventType, zero_message}
use wavonyx.Config.{WebhookConfig, zero_webhook}
use wavonyx.Webhook.{Job, Dispatcher, job_of, enqueue, new_dispatcher}
use wavonyx.Webhook.Delivery.{
  Request, Reply, unreachable, status, World, Outcome, delivered, deliver, request, backoff,
}
use wavonyx.Webhook.Backoff.{IsDraw, backoff_bounds, backoff_range}
use wavonyx.Webhook.Queue.{Offer, enqueue_all, all_jobs_of, enqueue_all-queued}
use wavonyx.Webhook.Replies.{IsAccepted, IsClear}
use wavonyx.Webhook.Attempts.{posts, deliver-posts, delivered-IsAccepted, deliver-delivered}

abbrev hook : WebhookConfig
hook = record zero_webhook {
  url = codes "https://a";
  secret = codes "k";
  retries = pos 3;
  backoff_base = pos 500;
  backoff_max = pos 600;
  queue_size = pos 1;
}

abbrev offer : Str → Offer
offer id = record {
  url = [];
  delivery = id;
  event = record {
    event = EventType.message;
    session_id = codes "s";
    ts = pos 0;
    message = zero_message;
  };
}

abbrev marshal : Event → Option (List ℕ)
marshal ev = some (codes "{}")

abbrev small : Dispatcher
small = record { cfg = hook; jobs = []; closed = false; dropped = 0 }

enqueue_all-queued_example :
    ((enqueue_all marshal (offer (codes "1") ∷ offer (codes "2") ∷ []) small).jobs
      ≡ take 1 (all_jobs_of marshal small (offer (codes "1") ∷ offer (codes "2") ∷ [])))
    × ((enqueue_all marshal (offer (codes "1") ∷ offer (codes "2") ∷ []) small).dropped
          + length (enqueue_all marshal (offer (codes "1") ∷ offer (codes "2") ∷ []) small).jobs
        ≡ 2)
enqueue_all-queued_example =
    enqueue_all-queued marshal (offer (codes "1") ∷ offer (codes "2") ∷ []) small
      (record { still_open = refl; bounded = omega arith })

one_is_dropped :
    (enqueue_all marshal (offer (codes "1") ∷ offer (codes "2") ∷ []) small).dropped ≡ 1
unfolding enqueue_all enqueue
one_is_dropped = refl

abbrev job : Job
job = job_of (codes "https://a") (codes "1") (offer (codes "1")).event (codes "{}")

abbrev fake_sign : Str → List ℕ → Str
fake_sign key body = key ++ body

abbrev replies : ℕ → Reply
replies zero = unreachable (outside (codes "refused"))
replies (suc k) = status 204

abbrev lowest : ℕ → ℕ
lowest n = 0

lowest-IsDraw : IsDraw lowest
lowest-IsDraw n h = h

abbrev flaky : World
flaky = record {
  done_before = λ k. false;
  reply = replies;
  done_after = λ k. false;
  draw = λ k. lowest;
}

deliver-delivered_example :
    ((deliver fake_sign hook job flaky).0 ≡ delivered)
    × (posts (deliver fake_sign hook job flaky).1 ≡ replicate 2 (request fake_sign hook job))
unfolding IsClear
deliver-delivered_example =
    deliver-delivered fake_sign hook job flaky 1 (omega arith) (refl, tt, refl, (refl, omega arith))

flaky_is_delivered : (deliver fake_sign hook job flaky).0 ≡ delivered
unfolding deliver wavonyx.Webhook.Delivery.attempt
flaky_is_delivered = refl

delivered-IsAccepted_example :
    (m : ℕ) × (m < 3)
    × IsAccepted (flaky.reply m)
    × (posts (deliver fake_sign hook job flaky).1 ≡ replicate (suc m) (request fake_sign hook job))
delivered-IsAccepted_example = delivered-IsAccepted fake_sign hook job flaky flaky_is_delivered

deliver-posts_example :
    (n : ℕ) × (n ≤ 3)
    × (posts (deliver fake_sign hook job flaky).1 ≡ replicate n (request fake_sign hook job))
deliver-posts_example = deliver-posts fake_sign hook job flaky

backoff_bounds_example :
    (pos 0 ≤ℤ backoff lowest (pos 60) (pos 500) (pos 600))
    × (pos_part (backoff lowest (pos 60) (pos 500) (pos 600)) ≤ 600)
backoff_bounds_example = backoff_bounds lowest (pos 60) (pos 500) (pos 600) lowest-IsDraw

backoff_range_example :
    (min (500 * 2 ^ 1) 600 / 2 ≤ pos_part (backoff lowest (pos 1) (pos 500) (pos 600)))
    × (pos_part (backoff lowest (pos 1) (pos 500) (pos 600)) ≤ min (500 * 2 ^ 1) 600)
backoff_range_example = backoff_range lowest 1 500 600 lowest-IsDraw (omega arith) (omega arith)
