-- ===== src/Webhook/Queue.antt =====
-- webhook.go: the queue keeps the first events that fit, and counts the others.
use mathlib.Core.List.{append_assoc, append-nil}
use mathlib.Core.Path.{subst}
use wavonyx.Prelude.{
  ◌+◌, ap₂, length-append, take_of_length-le, inr, ltb, inl, arith, sym, ◌∙◌, Bool-cases,
  if◌then◌else◌, ℕ, zero, suc, ◌≤◌, ◌≡◌, refl, ap, false, List, [], ◌∷◌, ◌++◌, Option, none, some,
  Str, is_empty, length, take,
}
use wavonyx.Prelude.Int.{pos_part}
use wavonyx.Message.{Event}
use wavonyx.Webhook.{submit, submit_marshalled, Job, Dispatcher, target, job_of, enqueue}

-- The arguments of one call of `Enqueue`, with the delivery id that it draws.
pub record Offer : Type 0 where
  pub url : Str
  pub delivery : Str
  pub event : Event

abbrev pub capacity : Dispatcher → ℕ
capacity d = pos_part d.cfg.queue_size

-- An open dispatcher that holds no more than its queue does.
pub record IsOpen (d : Dispatcher) : Type 0 where
  pub still_open : d.closed ≡ false
  pub bounded : length d.jobs ≤ capacity d

take-append_left : (c : ℕ) (xs ys : List Job) → take c (take c xs ++ ys) ≡ take c (xs ++ ys)
take-append_left zero xs ys = refl
take-append_left (suc c) [] ys = refl
take-append_left (suc c) (x ∷ xs) ys = ap (λ l. x ∷ l) (take-append_left c xs ys)

-- The queue is what fits of the old queue and the new jobs; the others are counted.
record Accepts (d : Dispatcher) (js : List Job) (d' : Dispatcher) : Type 0 where
  opened : IsOpen d'
  same_cfg : d'.cfg ≡ d.cfg
  queued : d'.jobs ≡ take (capacity d) (d.jobs ++ js)
  counted : d'.dropped + length d'.jobs ≡ d.dropped + length d.jobs + length js

length-snoc : (xs : List Job) (j : Job) → length (xs ++ j ∷ []) ≡ suc (length xs)
length-snoc [] j = refl
length-snoc (x ∷ xs) j = ap suc (length-snoc xs j)

take-full : (c : ℕ) (xs ys : List Job) → length xs ≡ c → take c (xs ++ ys) ≡ xs
take-full zero [] ys e = refl
take-full (suc c) [] ys e = absurd (omega arith)
take-full zero (x ∷ xs) ys e = absurd (omega arith)
take-full (suc c) (x ∷ xs) ys e = ap (λ l. x ∷ l) (take-full c xs ys (omega arith))

Accepts-nothing : (d : Dispatcher) → IsOpen d → Accepts d [] d
Accepts-nothing d v = record {
  opened = v;
  same_cfg = refl;
  queued = sym (
      ap (take (capacity d)) (append-nil d.jobs) ∙ take_of_length-le (capacity d) d.jobs v.bounded);
  counted = omega arith;
}

submit-Accepts : (job : Job) (d : Dispatcher) → IsOpen d → Accepts d (job ∷ []) (submit job d)
unfolding submit
submit-Accepts job d v = record {
  opened = record {
    still_open = ground (arith, v.still_open);
    bounded = ground (arith, v.still_open, v.bounded, length-snoc d.jobs job);
  };
  same_cfg = ground (arith, v.still_open);
  queued = elim (Bool-cases (ltb (length d.jobs) (capacity d))) [
    | inl e ↦ ground (
      arith,
      v.still_open,
      take_of_length-le (capacity d) (d.jobs ++ job ∷ []) (ground (arith, length-snoc d.jobs job)),
    )
    | inr e ↦
        ground (
          arith,
          v.still_open,
          take-full (capacity d) d.jobs (job ∷ []) (ground (arith, v.bounded)),
        )
  ];
  counted = ground (arith, v.still_open, length-snoc d.jobs job);
}

Accepts-trans :
    (d : Dispatcher) (xs : List Job) (d1 : Dispatcher) (ys : List Job) (d2 : Dispatcher)
    → Accepts d xs d1
    → Accepts d1 ys d2
    → Accepts d (xs ++ ys) d2
Accepts-trans d xs d1 ys d2 v w = record {
  opened = w.opened;
  same_cfg = w.same_cfg ∙ v.same_cfg;
  queued =
      w.queued
      ∙ ap₂ (λ c l. take (pos_part c.queue_size) (l ++ ys)) v.same_cfg v.queued
      ∙ take-append_left (capacity d) (d.jobs ++ xs) ys
      ∙ ap (take (capacity d)) (append_assoc d.jobs xs ys);
  counted = omega (arith, v.counted, w.counted, length-append xs ys);
}

module _ (marshal : Event → Option (List ℕ)) where
  unfoldable pub enqueue_all : List Offer → Dispatcher → Dispatcher
  enqueue_all [] d = d
  enqueue_all (o ∷ os) d = enqueue_all os (enqueue marshal o.delivery o.url o.event d)

  abbrev job_for : Str → Offer → Option (List ℕ) → List Job
  job_for url o none = []
  job_for url o (some body) = job_of url o.delivery o.event body ∷ []

  -- The job of an offer, if it has a URL and a body.
  abbrev pub jobs_of : Dispatcher → Offer → List Job
  jobs_of d o =
      if is_empty (target d o.url) then [] else job_for (target d o.url) o (marshal o.event)

  abbrev pub all_jobs_of : Dispatcher → List Offer → List Job
  all_jobs_of d [] = []
  all_jobs_of d (o ∷ os) = jobs_of d o ++ all_jobs_of d os

  marshalled-Accepts :
      (o : Offer) (d : Dispatcher) (url : Str) (b : Option (List ℕ))
      → IsOpen d
      → Accepts d (job_for url o b) (submit_marshalled b url o.delivery o.event d)
  unfolding submit_marshalled
  marshalled-Accepts o d url none v = Accepts-nothing d v
  marshalled-Accepts o d url (some body) v = submit-Accepts (job_of url o.delivery o.event body) d v

  enqueue-Accepts :
      (o : Offer) (d : Dispatcher)
      → IsOpen d
      → Accepts d (jobs_of d o) (enqueue marshal o.delivery o.url o.event d)
  unfolding enqueue
  enqueue-Accepts o d v = elim (Bool-cases (is_empty (target d o.url))) [
    | inl e ↦ rw e (Accepts-nothing d v)
    | inr e ↦ rw e (marshalled-Accepts o d (target d o.url) (marshal o.event) v)
  ]

  all_jobs_of-same :
      (d d' : Dispatcher) (os : List Offer) → d'.cfg ≡ d.cfg → all_jobs_of d' os ≡ all_jobs_of d os
  all_jobs_of-same d d' os e = ap (λ c. all_jobs_of (record d { cfg = c }) os) e

  enqueue_all-Accepts :
      (os : List Offer) (d : Dispatcher)
      → IsOpen d
      → Accepts d (all_jobs_of d os) (enqueue_all os d)
  unfolding enqueue_all
  enqueue_all-Accepts [] d v = Accepts-nothing d v
  enqueue_all-Accepts (o ∷ os) d v =
      let d1 = enqueue marshal o.delivery o.url o.event d in
      let h = enqueue-Accepts o d v in
      Accepts-trans d (jobs_of d o) d1 (all_jobs_of d os) (enqueue_all os d1) h (
        subst (λ js. Accepts d1 js (enqueue_all os d1)) (all_jobs_of-same d d1 os h.same_cfg)
          (enqueue_all-Accepts os d1 h.opened))

  -- The events that are offered to an open dispatcher, and that have a URL and a JSON form, are queued
  -- in their order behind the ones it holds as far as the queue has room; each of the others is counted
  -- as dropped.
  pub enqueue_all-queued :
      (os : List Offer) (d : Dispatcher)
      → IsOpen d
      → ((enqueue_all os d).jobs ≡ take (capacity d) (d.jobs ++ all_jobs_of d os))
        × ((enqueue_all os d).dropped + length (enqueue_all os d).jobs
            ≡ d.dropped + length d.jobs + length (all_jobs_of d os))
  enqueue_all-queued os d v = let h = enqueue_all-Accepts os d v in (h.queued, h.counted)
