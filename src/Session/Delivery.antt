-- ===== src/Session/Delivery.antt =====
-- session.go: the worker answers every job that it takes, once, and in the order of the queue.
use wavonyx.Prelude.{
  if◌then◌else◌, ℕ, zero, suc, ◌-◌, ◌/◌, ◌≡◌, refl, ◌∙◌, inl, inr, Bool, true, false, List, [], ◌∷◌,
  Option, none, some, Str, Bool-cases,
}
use wavonyx.Prelude.Int.{◌-ℤ◌, ℤ, pos, pos_part, is_nonpos}
use wavonyx.Errors.{Error, sentinel, Result, err, not_connected}
use wavonyx.Message.{SendResult}
use wavonyx.Typing.Options.{apply, FloatOps, Rng}
use wavonyx.Typing.{duration}
use wavonyx.Session.State.{
  Session, mark_read, set_composing, emit, OutboundMedia, update, Client, SendJob, Effect, deliver,
  World,
}
use wavonyx.Session.Pairing.{is_connected}
use wavonyx.Session.Inbound.{take_read, Unread, send_receipts, mark_chat_read}
use wavonyx.Session.Sending.{
  sends, or_not_connected, milliseconds, process_by, slice, outcome, Slice, elapsed, interrupted,
  JobAnswers, typing_loop, simulate_typing, commit, after_typing, process_with, process_for,
  process, compose_again,
}

-- The outcomes that have been delivered, the last one first.
pub deliveries : List Effect → List (ℕ × Result SendResult)
deliveries [] = []
deliveries (deliver ticket r ∷ es) = (ticket, r) ∷ deliveries es
deliveries (e ∷ es) = deliveries es

-- All of a session but the unread messages and the generator.
abbrev pub core : Session → Session
core s = record s { unread = []; rng = none }

-- Nothing is delivered, and the session keeps its core.
abbrev Quiet : World → World → Type 0
Quiet w w' = (deliveries w'.trace ≡ deliveries w.trace) × (core w'.session ≡ core w.session)

send_receipts-Quiet : (c : Client) (m : Unread) (w : World) → Quiet w (send_receipts c m w)
unfolding send_receipts deliveries
send_receipts-Quiet c [] w = (refl, refl)
send_receipts-Quiet c ((k, t) ∷ m) w =
    send_receipts-Quiet c m (emit (mark_read c t.id k.chat k.sender) w)

mark_chat_read-Quiet : (c : Client) (to : Str) (w : World) → Quiet w (mark_chat_read c to w)
unfolding mark_chat_read
mark_chat_read-Quiet c to w =
    send_receipts-Quiet c (take_read to w.session.unread).0
      (update (λ s. record s { unread = (take_read to w.session.unread).1 }) w)

compose_again-Quiet :
    (c : Client) (to : Str) (left : ℕ) (w : World) → Quiet w (compose_again c to left w)
unfolding deliveries
compose_again-Quiet c to zero w = (refl, refl)
compose_again-Quiet c to (suc left) w = (refl, refl)

Quiet-trans : (u v w : World) → Quiet u v → Quiet v w → Quiet u w
Quiet-trans u v w (a, b) (c, d) = (c ∙ a, d ∙ b)

typing_loop-Quiet :
    (fuel : ℕ) (ends : ℕ → Slice) (k : ℕ) (c : Client) (to : Str) (remaining : ℕ) (w : World)
    → Quiet w (typing_loop fuel ends k c to remaining w).1
unfolding typing_loop
typing_loop-Quiet zero ends k c to remaining w = (refl, refl)
typing_loop-Quiet (suc fuel) ends k c to zero w = (refl, refl)
typing_loop-Quiet (suc fuel) ends k c to (suc r) w =
    let w' = compose_again c to (suc r - slice) w in
    let more = typing_loop fuel ends (suc k) c to (suc r - slice) w' in
    by_slice (ends k) (more) (
      Quiet-trans w w' more.1 (compose_again-Quiet c to (suc r - slice) w)
        (typing_loop-Quiet fuel ends (suc k) c to (suc r - slice) w'))
  where
    by_slice :
        (e : Slice) (more : Bool × World)
        → Quiet w more.1
        → Quiet w ((elim e as (λ x. Bool × World) [ elapsed ↦ more | interrupted ↦ (false, w) ]).1)
    by_slice elapsed more h = h
    by_slice interrupted more h = (refl, refl)

simulate_typing-Quiet :
    (ends : ℕ → Slice) (c : Client) (to : Str) (dur : ℕ) (w : World)
    → Quiet w (simulate_typing ends c to dur w).1
unfolding simulate_typing deliveries
simulate_typing-Quiet ends c to dur w =
    typing_loop-Quiet (suc (dur / slice)) ends 0 c to dur (emit (set_composing c to true) w)

-- One outcome, for the job, on top of what was delivered before; the session keeps its core.
abbrev pub Answers : SendJob → World → World → Type 0
Answers job w w' =
    (r : Result SendResult) × (deliveries w'.trace ≡ (job.ticket, r) ∷ deliveries w.trace)
    × (core w'.session ≡ core w.session)

deliveries-sends :
    (c : Client) (job : SendJob) (o : Option OutboundMedia) (es : List Effect)
    → deliveries (sends c job o ∷ es) ≡ deliveries es
unfolding deliveries
deliveries-sends c job none es = refl
deliveries-sends c job (some m) es = refl

commit-Answers :
    (c : Client) (job : SendJob) (a : JobAnswers) (typing_ms queued_ms : ℤ) (w w' : World)
    → Quiet w w'
    → Answers job w (commit c job a typing_ms queued_ms w')
unfolding commit deliveries
commit-Answers c job a typing_ms queued_ms w w' (e, f) =
    (outcome job a.sent typing_ms queued_ms, rw (deliveries-sends c job job.media w'.trace, e), f)

after_typing-Answers :
    (c : Client) (job : SendJob) (a : JobAnswers) (typing_ms queued_ms : ℤ) (w : World)
    (r : Bool × World)
    → Quiet w r.1
    → Answers job w (after_typing c job a typing_ms queued_ms r)
unfolding after_typing deliveries
after_typing-Answers c job a typing_ms queued_ms w (true, w') q =
    commit-Answers c job a typing_ms queued_ms w w' q
after_typing-Answers c job a typing_ms queued_ms w (false, w') (e, f) =
    (err (or_not_connected a.interrupted_by), rw e, f)

if-Answers :
    (job : SendJob) (w : World) (b : Bool) (x y : World)
    → Answers job w x
    → Answers job w y
    → Answers job w (if b then x else y)
if-Answers job w true x y h k = h
if-Answers job w false x y h k = k

process_with-Answers :
    (ops : FloatOps) (seeded : Rng) (c : Client) (job : SendJob) (a : JobAnswers) (w : World)
    → Answers job w (process_with ops seeded c job a w)
unfolding process_with
process_with-Answers ops seeded c job a w =
    let w1 = mark_chat_read c job.to w in
    let queued_ms = milliseconds (a.now -ℤ job.enqueued_at) in
    let (dur, rng') =
      duration ops seeded job.text (apply w.session.cfg.typing job.typing) w.session.rng in
    let w2 = update (λ s. record s { rng = rng' }) w1 in
    let same = mark_chat_read-Quiet c job.to w in
    if-Answers job w (is_nonpos dur) _ _ (commit-Answers c job a (pos 0) queued_ms w w2 same) (
      after_typing-Answers c job a (milliseconds dur) queued_ms w
        (simulate_typing a.slices c job.to (pos_part dur) w2)
        (Quiet-trans w w2 (simulate_typing a.slices c job.to (pos_part dur) w2).1 same
          (simulate_typing-Quiet a.slices c job.to (pos_part dur) w2)))

process_for-Answers :
    (ops : FloatOps) (seeded : Rng) (o : Option Client) (job : SendJob) (a : JobAnswers) (w : World)
    → Answers job w (process_for ops seeded o job a w)
unfolding process_for deliveries
process_for-Answers ops seeded none job a w = (err (sentinel not_connected), refl, refl)
process_for-Answers ops seeded (some c) job a w =
    elim (Bool-cases (is_connected w.session.status)) [
      | inl e ↦ rw e (process_with-Answers ops seeded c job a w)
      | inr e ↦ rw e (err (sentinel not_connected), refl, refl)
    ]

process_by-Answers :
    (ops : FloatOps) (seeded : Rng) (o : Option Error) (job : SendJob) (a : JobAnswers) (w : World)
    → Answers job w (process_by ops seeded o job a w)
unfolding process_by deliveries
process_by-Answers ops seeded none job a w = process_for-Answers ops seeded w.session.client job a w
process_by-Answers ops seeded (some x) job a w = (err x, refl, refl)

-- Whatever happens, the worker delivers exactly one outcome for the job that it carries out, and none
-- for any other job; of the session it changes only the unread messages and the generator.
pub process-deliveries :
    (ops : FloatOps) (seeded : Rng) (job : SendJob) (a : JobAnswers) (w : World)
    → Answers job w (process ops seeded job a w)
unfolding process
process-deliveries ops seeded job a w = process_by-Answers ops seeded a.before job a w
