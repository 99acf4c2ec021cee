-- ===== src/Webhook/Delivery.antt =====
-- webhook.go: a delivery with its attempts, and the delay between them.
use wavonyx.Prelude.{
  ℕ, zero, suc, ◌+◌, ◌/◌, ◌^◌, min, Bool, true, false, ◌&&◌, ◌||◌, List, [], ◌∷◌, ◌++◌, Option,
  none, some, Str, is_empty, leb, ltb, ◌==◌, if◌then◌else◌,
}
use wavonyx.Prelude.Int.{ℤ, pos, negsuc, pos_part, ◌*ℤ◌, wrap64, ltb_ℤ, is_nonpos}
use wavonyx.Errors.{Error}
use wavonyx.Message.{EventType}
use wavonyx.Config.{WebhookConfig}
use wavonyx.Webhook.{Job}

-- What an attempt posts; `signature` is the value of the signature header, if it is set.
pub record Request : Type 0 where
  pub url : Str
  pub event : EventType
  pub session : Str
  pub delivery : Str
  pub signature : Option Str
  pub body : List ℕ

-- How an attempt ends: the request cannot be built, the transport fails, or there is a response.
pub data Reply : Type 0 where
  malformed : Error → Reply
  unreachable : Error → Reply
  status : ℕ → Reply

-- The error of an attempt.
pub data Failure : Type 0 where
  of_error : Error → Failure
  of_status : ℕ → Failure

-- `attempt`: whether it can be tried again, and the error.
unfoldable pub attempt : Reply → Bool × Option Failure
attempt (malformed e) = (false, some (of_error e))
attempt (unreachable e) = (true, some (of_error e))
attempt (status code) =
    if leb 200 code && ltb code 300
    then (false, none)
    else (leb 500 code || code == 429, some (of_status code))

-- The request of an attempt; `sign` is the hexadecimal HMAC-SHA256.
unfoldable pub request : (Str → List ℕ → Str) → WebhookConfig → Job → Request
request sign cfg job = record {
  url = job.url;
  event = job.event;
  session = job.session;
  delivery = job.delivery;
  signature =
      if is_empty cfg.secret then none else some (signature_prefix ++ sign cfg.secret job.body);
  body = job.body;
}
  where
    signature_prefix : Str
    signature_prefix = b's' ∷ b'h' ∷ b'a' ∷ b'2' ∷ b'5' ∷ b'6' ∷ b'=' ∷ []

abbrev pub exponent : ℤ → ℕ
exponent (pos k) = min k 12
exponent (negsuc k) = 0

-- `base << shift`, or `max` where that is not positive or is more.
abbrev pub capped : ℤ → ℤ → ℕ → ℤ
capped base max shift =
    let d = wrap64 (base *ℤ pos (2 ^ shift)) in if is_nonpos d || ltb_ℤ max d then max else d

-- `backoff`; `draw n` is what the generator answers to Int64N(n).
unfoldable pub backoff : (ℕ → ℕ) → ℤ → ℤ → ℤ → ℤ
backoff draw k base max =
    let half = pos_part (capped base max (exponent k)) / 2 in
    if half == 0 then pos 0 else pos (half + draw (half + 1))

-- What a delivery meets: whether the context is done before the k-th attempt and in the wait after
-- it, how the attempt ends, and what the generator answers in between.
pub record World : Type 0 where
  pub done_before : ℕ → Bool
  pub reply : ℕ → Reply
  pub done_after : ℕ → Bool
  pub draw : ℕ → ℕ → ℕ

pub data Outcome : Type 0 where
  delivered aborted : Outcome
  failed gave_up : Failure → Outcome
  never_tried : Outcome

-- The attempts that a delivery has made, and the delays that it has waited for.
pub data Step : Type 0 where
  posted : Request → Step
  waits : ℤ → Step

abbrev pub prefixed : Step → Outcome × List Step → Outcome × List Step
prefixed s (o, l) = (o, s ∷ l)

module _ (cfg : WebhookConfig) (req : Request) (w : World) where
  -- What follows the k-th attempt; `more` is the rest of the loop.
  unfoldable pub after_attempt :
      ℕ → ℕ → Bool × Option Failure → Outcome × List Step → Outcome × List Step
  after_attempt left k (retryable, none) more = (delivered, [])
  after_attempt left k (false, some f) more = (failed f, [])
  after_attempt zero k (true, some f) more = (gave_up f, [])
  after_attempt (suc left) k (true, some f) more =
      prefixed (waits (backoff (w.draw k) (pos k) cfg.backoff_base cfg.backoff_max))
        (if w.done_after k then (aborted, []) else more)

  -- The loop from the k-th attempt, with the attempts that are left.
  unfoldable pub deliver_from : ℕ → ℕ → Outcome × List Step
  unfolding after_attempt
  deliver_from zero k = (never_tried, [])
  deliver_from (suc left) k =
      let more = deliver_from left (suc k) in
      if w.done_before k
      then (aborted, [])
      else prefixed (posted req) (after_attempt left k (attempt (w.reply k)) more)

-- `deliver`
unfoldable pub deliver : (Str → List ℕ → Str) → WebhookConfig → Job → World → Outcome × List Step
unfolding deliver_from
deliver sign cfg job w = deliver_from cfg (request sign cfg job) w (pos_part cfg.retries) 0
