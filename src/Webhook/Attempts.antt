-- ===== src/Webhook/Attempts.antt =====
-- webhook.go: how often a delivery is tried, and when it is accepted.
use mathlib.Core.Path.{subst}
use wavonyx.Prelude.{
  sym, if◌then◌else◌, ℕ, zero, suc, ◌+◌, ◌≤◌, ◌<◌, ◌≡◌, refl, ap, ◌∙◌, Bool, true, false, List, [],
  ◌∷◌, Option, none, some, Str, arith, replicate,
}
use wavonyx.Prelude.Int.{ℤ, pos, pos_part}
use wavonyx.Config.{WebhookConfig}
use wavonyx.Webhook.{Job}
use wavonyx.Webhook.Replies.{
  IsAccepted, IsPassing, attempt-accepted, attempt-passing, IsAccepted-of_attempt, IsClear,
}
use wavonyx.Webhook.Delivery.{
  Request, Failure, attempt, request, backoff, World, Outcome, delivered, aborted, Step, posted,
  waits, prefixed, after_attempt, deliver_from, deliver,
}

-- The requests that were posted, in their order.
pub posts : List Step → List Request
posts [] = []
posts (posted r ∷ l) = r ∷ posts l
posts (waits d ∷ l) = posts l

module _ (cfg : WebhookConfig) (req : Request) (w : World) where
  -- The delay after the k-th attempt.
  abbrev pause : ℕ → ℤ
  pause k = backoff (w.draw k) (pos k) cfg.backoff_base cfg.backoff_max

  -- Of the attempts from the k-th on, with that many left: how many there are.
  Tries : ℕ → Outcome × List Step → Type 0
  Tries left x = (n : ℕ) × (n ≤ left) × (posts x.1 ≡ replicate n req)

  posts-waits :
      (d : ℤ) (b : Bool) (more : Outcome × List Step) (left : ℕ)
      → Tries left more
      → Tries left (prefixed (waits d) (if b then (aborted, []) else more))
  unfolding Tries posts
  posts-waits d true more left h = (0, omega arith, refl)
  posts-waits d false more left h = h

  after-Tries :
      (left k : ℕ) (a : Bool × Option Failure) (more : Outcome × List Step)
      → Tries left more
      → Tries left (after_attempt cfg req w left k a more)
  unfolding after_attempt Tries posts
  after-Tries left k (b, none) more h = (0, omega arith, refl)
  after-Tries left k (false, some f) more h = (0, omega arith, refl)
  after-Tries zero k (true, some f) more h = (0, omega arith, refl)
  after-Tries (suc left) k (true, some f) more h =
      posts-waits (pause k) (w.done_after k) more (suc left) h

  prefixed-Tries :
      (left : ℕ) (x : Outcome × List Step)
      → Tries left x
      → Tries (suc left) (prefixed (posted req) x)
  unfolding Tries posts
  prefixed-Tries left (o, l) (n, h, e) = (suc n, omega arith, ap (λ rs. req ∷ rs) e)

  if-Tries :
      (left : ℕ) (b : Bool) (x : Outcome × List Step)
      → Tries left x
      → Tries left (if b then (aborted, []) else x)
  unfolding Tries posts
  if-Tries left true x h = (0, omega arith, refl)
  if-Tries left false x h = h

  from-Tries : (left k : ℕ) → Tries left (deliver_from cfg req w left k)
  unfolding deliver_from
  from-Tries zero k = unfold Tries posts in (0, omega arith, refl)
  from-Tries (suc left) k = if-Tries (suc left) (w.done_before k) _ (
      prefixed-Tries left _ (
        after-Tries left k (attempt (w.reply k)) (deliver_from cfg req w left (suc k))
          (from-Tries left (suc k))))

  -- The delivery was accepted at the m-th of the attempts from the k-th on.
  AcceptedAt : ℕ → ℕ → Outcome × List Step → Type 0
  AcceptedAt left k x =
      (m : ℕ) × (m < left) × IsAccepted (w.reply (k + m)) × (posts x.1 ≡ replicate (suc m) req)

  waits-delivered :
      (d : ℤ) (b : Bool) (more : Outcome × List Step)
      → (prefixed (waits d) (if b then (aborted, []) else more)).0 ≡ delivered
      → more.0 ≡ delivered
  waits-delivered d true more e = absurd (cc)
  waits-delivered d false more e = e

  shown_here :
      (left k : ℕ) (x : Outcome × List Step)
      → IsAccepted (w.reply k)
      → posts x.1 ≡ []
      → AcceptedAt (suc left) k (prefixed (posted req) x)
  unfolding AcceptedAt posts
  shown_here left k (o, l) v e =
      (0, omega arith, subst (λ i. IsAccepted (w.reply i)) (omega arith) v, ap (λ rs. req ∷ rs) e)

  shown_later :
      (left k : ℕ) (d : ℤ) (b : Bool) (more : Outcome × List Step)
      → (prefixed (waits d) (if b then (aborted, []) else more)).0 ≡ delivered
      → AcceptedAt (suc left) (suc k) more
      → AcceptedAt
          (suc (suc left))
          k
          (prefixed (posted req) (prefixed (waits d) (if b then (aborted, []) else more)))
  unfolding AcceptedAt posts
  shown_later left k d true more e h = absurd (cc)
  shown_later left k d false more e (m, lt, v, p) = (
    suc m,
    omega arith,
    subst (λ i. IsAccepted (w.reply i)) (omega arith) v,
    ap (λ rs. req ∷ rs) p,
  )

  after-AcceptedAt :
      (left k : ℕ) (a : Bool × Option Failure) (more : Outcome × List Step)
      → attempt (w.reply k) ≡ a
      → (after_attempt cfg req w left k a more).0 ≡ delivered
      → (more.0 ≡ delivered → AcceptedAt left (suc k) more)
      → AcceptedAt (suc left) k (prefixed (posted req) (after_attempt cfg req w left k a more))
  unfolding after_attempt
  after-AcceptedAt left k (b, none) more e d rest =
      shown_here left k (delivered, []) (IsAccepted-of_attempt (w.reply k) e) (unfold posts in refl)
  after-AcceptedAt left k (false, some f) more e d rest = absurd (cc)
  after-AcceptedAt zero k (true, some f) more e d rest = absurd (cc)
  after-AcceptedAt (suc left) k (true, some f) more e d rest =
      shown_later left k (pause k) (w.done_after k) more d
        (rest (waits-delivered (pause k) (w.done_after k) more d))

  if-AcceptedAt :
      (left k : ℕ) (b : Bool) (x : Outcome × List Step)
      → (if b then (aborted, []) else x).0 ≡ delivered
      → (x.0 ≡ delivered → AcceptedAt left k x)
      → AcceptedAt left k (if b then (aborted, []) else x)
  if-AcceptedAt left k true x e h = absurd (cc)
  if-AcceptedAt left k false x e h = h e

  prefixed-delivered :
      (s : Step) (x : Outcome × List Step) → (prefixed s x).0 ≡ delivered → x.0 ≡ delivered
  prefixed-delivered s (o, l) e = e

  from-AcceptedAt :
      (left k : ℕ)
      → (deliver_from cfg req w left k).0 ≡ delivered
      → AcceptedAt left k (deliver_from cfg req w left k)
  unfolding deliver_from
  from-AcceptedAt zero k e = absurd (cc)
  from-AcceptedAt (suc left) k e =
      let more = deliver_from cfg req w left (suc k) in
      let a = attempt (w.reply k) in
      let after = after_attempt cfg req w left k a more in
      if-AcceptedAt (suc left) k (w.done_before k) (prefixed (posted req) after) e λ d.
        after-AcceptedAt left k a more refl (prefixed-delivered (posted req) after d)
          (from-AcceptedAt left (suc k))

  after-passing :
      (left k : ℕ) (more : Outcome × List Step)
      → IsPassing (w.reply k)
      → w.done_after k ≡ false
      → after_attempt cfg req w (suc left) k (attempt (w.reply k)) more
        ≡ prefixed (waits (pause k)) more
  unfolding after_attempt
  after-passing left k more v a =
      let (f, e) = attempt-passing (w.reply k) v in
      ap (λ x. after_attempt cfg req w (suc left) k x more) e
      ∙ ap (λ b. prefixed (waits (pause k)) (if b then (aborted, []) else more)) a

  -- A step of the loop that is not interrupted.
  step :
      (left k : ℕ)
      → w.done_before k ≡ false
      → deliver_from cfg req w (suc left) k
        ≡ prefixed (posted req) (
            after_attempt cfg req w left k
              (attempt (w.reply k))
              (deliver_from cfg req w left (suc k)))
  unfolding deliver_from
  step left k e = rw e refl

  AcceptedAfter : ℕ → Outcome × List Step → Type 0
  AcceptedAfter m x = (x.0 ≡ delivered) × (posts x.1 ≡ replicate (suc m) req)

  AcceptedAfter-suc :
      (m : ℕ) (d : ℤ) (x : Outcome × List Step)
      → AcceptedAfter m x
      → AcceptedAfter (suc m) (prefixed (posted req) (prefixed (waits d) x))
  unfolding AcceptedAfter posts
  AcceptedAfter-suc m d (o, l) (e, p) = (e, ap (λ rs. req ∷ rs) p)

  from-delivered :
      (left k m : ℕ) → m < left → IsClear w k m → AcceptedAfter m (deliver_from cfg req w left k)
  unfolding IsClear
  from-delivered zero k m h v = absurd (omega arith)
  from-delivered (suc left) k zero h (b, v) =
      subst (AcceptedAfter zero)
        (sym (
          step left k b
          ∙ ap
              (λ a.
                prefixed (posted req)
                  (after_attempt cfg req w left k a (deliver_from cfg req w left (suc k))))
              (attempt-accepted (w.reply k) v)))
        (unfold AcceptedAfter after_attempt posts in (refl, refl))
  from-delivered (suc zero) k (suc m) h v = absurd (omega arith)
  from-delivered (suc (suc left)) k (suc m) h (b, v, a, c) =
      let more = deliver_from cfg req w (suc left) (suc k) in
      subst (AcceptedAfter (suc m))
        (sym (step (suc left) k b ∙ ap (prefixed (posted req)) (after-passing left k more v a)))
        (AcceptedAfter-suc m (pause k) more (from-delivered (suc left) (suc k) m (omega arith) c))

-- A delivery posts the same request each time, with the same delivery id, and at most as many times as
-- the configuration allows.
pub deliver-posts :
    (sign : Str → List ℕ → Str) (cfg : WebhookConfig) (job : Job) (w : World)
    → (n : ℕ) × (n ≤ pos_part cfg.retries)
      × (posts (deliver sign cfg job w).1 ≡ replicate n (request sign cfg job))
unfolding deliver Tries
deliver-posts sign cfg job w = from-Tries cfg (request sign cfg job) w (pos_part cfg.retries) 0

-- A delivery that ends as delivered has had its last attempt answered by a status from 200 to 299.
pub delivered-IsAccepted :
    (sign : Str → List ℕ → Str) (cfg : WebhookConfig) (job : Job) (w : World)
    → (deliver sign cfg job w).0 ≡ delivered
    → (m : ℕ) × (m < pos_part cfg.retries)
      × IsAccepted (w.reply m)
      × (posts (deliver sign cfg job w).1 ≡ replicate (suc m) (request sign cfg job))
unfolding deliver AcceptedAt
delivered-IsAccepted sign cfg job w e =
    let (m, lt, v, p) = from-AcceptedAt cfg (request sign cfg job) w (pos_part cfg.retries) 0 e in
    (m, lt, subst (λ i. IsAccepted (w.reply i)) (omega arith) v, p)

-- If some attempt within the allowed number is accepted, each one before it fails in a way that may
-- pass, and the context is not done meanwhile, then the event is delivered, with no request after the
-- accepted one.
pub deliver-delivered :
    (sign : Str → List ℕ → Str) (cfg : WebhookConfig) (job : Job) (w : World) (m : ℕ)
    → m < pos_part cfg.retries
    → IsClear w 0 m
    → ((deliver sign cfg job w).0 ≡ delivered)
      × (posts (deliver sign cfg job w).1 ≡ replicate (suc m) (request sign cfg job))
unfolding deliver AcceptedAfter
deliver-delivered sign cfg job w m h v =
    from-delivered cfg (request sign cfg job) w (pos_part cfg.retries) 0 m h v
