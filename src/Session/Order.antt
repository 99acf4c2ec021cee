-- ===== src/Session/Order.antt =====
-- session.go: the worker serves the queue in its order.
use mathlib.Core.List.{reverse-cons, append_assoc}
use wavonyx.Prelude.{
  ℕ, suc, ◌≡◌, refl, sym, ap, ◌∙◌, List, [], ◌∷◌, ◌++◌, map, reverse, take, drop, length,
}
use wavonyx.Typing.Options.{FloatOps, Rng}
use wavonyx.Session.State.{SendJob, World, update}
use wavonyx.Session.Sending.{JobAnswers, process, work_on, work}
use wavonyx.Session.Delivery.{deliveries, process-deliveries}

abbrev pub tickets : List SendJob → List ℕ
tickets = map λ j. j.ticket

-- The tickets of the outcomes that have been delivered, the last one first.
abbrev pub answered : World → List ℕ
answered w = map (λ d. d.0) (deliveries w.trace)

-- The tickets of the first n jobs of a queue, the last one first, in front of others.
abbrev pub served : ℕ → List SendJob → List ℕ → List ℕ
served n q ts = reverse (take n (tickets q)) ++ ts

module _ (ops : FloatOps) (seeded : Rng) where
  -- The worker runs a round for each of the answers.
  pub work_all : List JobAnswers → World → World
  work_all [] w = w
  work_all (a ∷ l) w = work_all l (work ops seeded a w)

  work-work_on :
      (a : JobAnswers) (w : World) {q : List SendJob}
      → w.session.send_ch ≡ q
      → work ops seeded a w ≡ work_on ops seeded q a w
  unfolding work
  work-work_on a w e = ap (λ q. work_on ops seeded q a w) e

  work_all-empty : (l : List JobAnswers) (w : World) → w.session.send_ch ≡ [] → work_all l w ≡ w
  unfolding work_all work_on
  work_all-empty [] w e = refl
  work_all-empty (a ∷ l) w e = ap (work_all l) (work-work_on a w e) ∙ work_all-empty l w e

  served-suc :
      (n : ℕ) (j : SendJob) (q : List SendJob) (ts : List ℕ)
      → served n q (j.ticket ∷ ts) ≡ served (suc n) (j ∷ q) ts
  served-suc n j q ts = sym (
      ap (λ l. l ++ ts) (reverse-cons j.ticket (take n (tickets q)))
      ∙ append_assoc (reverse (take n (tickets q))) (j.ticket ∷ []) ts)

  -- n rounds of the worker answer the first n jobs of the queue (all of them, if there are fewer), each
  -- of them once and in the order of the queue, and leave the others queued.
  pub work_all-in_order :
      (l : List JobAnswers) (q : List SendJob) (w : World)
      → w.session.send_ch ≡ q
      → (answered (work_all l w) ≡ served (length l) q (answered w))
        × ((work_all l w).session.send_ch ≡ drop (length l) q)
  unfolding work_all work_on
  work_all-in_order [] q w e = (refl, e)
  work_all-in_order (a ∷ l) [] w e = rw (work_all-empty (a ∷ l) w e) (refl, e)
  work_all-in_order (a ∷ l) (j ∷ q) w e =
      let w1 = update (λ s. record s { send_ch = q }) w in
      let w2 = process ops seeded j a w1 in
      let (r, delivered, same) = process-deliveries ops seeded j a w1 in
      let (h, k) = work_all-in_order l q w2 (ap (λ s. s.send_ch) same) in
      let stepped = ap (work_all l) (work-work_on a w e) in
      (
        ap answered stepped
            ∙ h
            ∙ ap (served (length l) q) (ap (map λ d. d.0) delivered)
            ∙ served-suc (length l) j q (answered w),
        ap (λ v. v.session.send_ch) stepped ∙ k,
      )
