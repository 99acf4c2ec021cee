-- ===== src/Session/Invariant.antt =====
-- session.go: what holds of a session after each of its operations.
use mathlib.Core.Path.{subst}
use wavonyx.Prelude.{
  is_empty, not, ◌&&◌, ℕ, zero, suc, ◌-◌, ◌/◌, ◌≤◌, ◌≡◌, refl, sym, ap, ◌∙◌, Bool, true, false,
  List, [], ◌∷◌, Option, none, some, Str, length, arith, if◌then◌else◌, length-append,
}
use wavonyx.Prelude.Int.{pos, is_nonpos, ◌-ℤ◌, ℤ, pos_part}
use wavonyx.Errors.{Error, Result, ok, err}
use wavonyx.Message.{Time, EventType, message, edit, revoke, InboundMessage}
use wavonyx.Typing.Options.{apply, FloatOps, Rng}
use wavonyx.Ring
use wavonyx.Ring.Inv
use wavonyx.Ring.Inv.{update-IsValid, append-IsValid}
use wavonyx.Typing.{duration}
use wavonyx.Session.Pairing.{is_connected}
use wavonyx.Session.State.{UnreadKey, Client, Session, SendJob, World, set_composing, emit, update}
use wavonyx.Session.Inbound.{
  Unread, take_read, mark_chat_read, track_unread, buffered, on_message, edited_by,
}
use wavonyx.Session.Sending.{
  milliseconds, Slice, elapsed, interrupted, slice, compose_again, typing_loop, simulate_typing,
  JobAnswers, commit, after_typing, process_with, process_for, process_by, process, work_on, work,
  enqueue, enqueue_checked,
}
use wavonyx.Session.Receipts.{Absent, IsMap, insert-IsMap, send_receipts-session}

-- The ring is valid, no sender of a chat has two unread messages, and the queue is within its bound.
abbrev pub WellFormed : Session → Type 0
WellFormed s =
    Ring.Inv.IsValid s.ring × IsMap s.unread × (length s.send_ch ≤ pos_part s.cfg.send_queue)

Absent-take_read :
    (to : Str) (k : UnreadKey) (m : Unread) → Absent k m → Absent k (take_read to m).1
unfolding take_read
Absent-take_read to k [] a = tt
Absent-take_read to k ((j, u) ∷ m) (e, a) = ground (arith, Absent-take_read to k m a)

IsMap-take_read : (to : Str) (m : Unread) → IsMap m → IsMap (take_read to m).1
unfolding take_read
IsMap-take_read to [] v = tt
IsMap-take_read to ((j, u) ∷ m) (a, v) =
    ground (arith, IsMap-take_read to m v, Absent-take_read to j m a)

compose_again-session :
    (c : Client) (to : Str) (left : ℕ) (w : World) → (compose_again c to left w).session ≡ w.session
compose_again-session c to zero w = refl
compose_again-session c to (suc left) w = refl

typing_loop-session :
    (fuel : ℕ) (ends : ℕ → Slice) (k : ℕ) (c : Client) (to : Str) (remaining : ℕ) (w : World)
    → (typing_loop fuel ends k c to remaining w).1.session ≡ w.session
unfolding typing_loop
typing_loop-session zero ends k c to remaining w = refl
typing_loop-session (suc fuel) ends k c to zero w = refl
typing_loop-session (suc fuel) ends k c to (suc r) w =
    let w' = compose_again c to (suc r - slice) w in
    let more = typing_loop fuel ends (suc k) c to (suc r - slice) w' in
    by_slice (ends k) more (
      typing_loop-session fuel ends (suc k) c to (suc r - slice) w'
      ∙ compose_again-session c to (suc r - slice) w)
  where
    by_slice :
        (e : Slice) (more : Bool × World)
        → more.1.session ≡ w.session
        → (elim e as (λ x. Bool × World) [ elapsed ↦ more | interrupted ↦ (false, w) ]).1.session
          ≡ w.session
    by_slice elapsed more h = h
    by_slice interrupted more h = refl

simulate_typing-session :
    (ends : ℕ → Slice) (c : Client) (to : Str) (dur : ℕ) (w : World)
    → (simulate_typing ends c to dur w).1.session ≡ w.session
unfolding simulate_typing
simulate_typing-session ends c to dur w =
    typing_loop-session (suc (dur / slice)) ends 0 c to dur (emit (set_composing c to true) w)

-- An operation keeps the session well formed.
abbrev pub KeepsForm {ℓ} : {A : Type ℓ} → (World → A × World) → Type 0
KeepsForm op = (w : World) → WellFormed w.session → WellFormed (op w).1.session

mark_chat_read-KeepsForm :
    (c : Client) (to : Str) (w : World)
    → WellFormed w.session
    → WellFormed (mark_chat_read c to w).session
unfolding mark_chat_read
mark_chat_read-KeepsForm c to w (r, u, q) =
    subst WellFormed (sym (send_receipts-session c (take_read to w.session.unread).0 _))
      (r, IsMap-take_read to w.session.unread u, q)

after_typing-session :
    (c : Client) (job : SendJob) (a : JobAnswers) (typing_ms queued_ms : ℤ) (r : Bool × World)
    → (after_typing c job a typing_ms queued_ms r).session ≡ r.1.session
unfolding after_typing commit
after_typing-session c job a typing_ms queued_ms (true, w) = refl
after_typing-session c job a typing_ms queued_ms (false, w) = refl

if-WellFormed :
    (b : Bool) (x y : World)
    → WellFormed x.session
    → WellFormed y.session
    → WellFormed (if b then x else y).session
if-WellFormed true x y h k = h
if-WellFormed false x y h k = k

if-Form : (b : Bool) (x y : Session) → WellFormed x → WellFormed y → WellFormed (if b then x else y)
if-Form true x y h k = h
if-Form false x y h k = k

module _ (ops : FloatOps) (seeded : Rng) where
  process_with-WellFormed :
      (c : Client) (job : SendJob) (a : JobAnswers) (w : World)
      → WellFormed w.session
      → WellFormed (process_with ops seeded c job a w).session
  unfolding process_with commit
  process_with-WellFormed c job a w v =
      let w1 = mark_chat_read c job.to w in
      let queued_ms = milliseconds (a.now -ℤ job.enqueued_at) in
      let (dur, rng') =
        duration ops seeded job.text (apply w.session.cfg.typing job.typing) w.session.rng in
      let w2 = update (λ s. record s { rng = rng' }) w1 in
      let v2 = mark_chat_read-KeepsForm c job.to w v in
      if-WellFormed (is_nonpos dur) (commit c job a (pos 0) queued_ms w2) _ v2 (
        subst WellFormed
          (sym (
            after_typing-session c job a (milliseconds dur) queued_ms
              (simulate_typing a.slices c job.to (pos_part dur) w2)
            ∙ simulate_typing-session a.slices c job.to (pos_part dur) w2))
          v2)

  process_for-WellFormed :
      (o : Option Client) (job : SendJob) (a : JobAnswers) (w : World)
      → WellFormed w.session
      → WellFormed (process_for ops seeded o job a w).session
  unfolding process_for
  process_for-WellFormed none job a w v = v
  process_for-WellFormed (some c) job a w v =
      if-WellFormed (is_connected w.session.status) (process_with ops seeded c job a w) _
        (process_with-WellFormed c job a w v) v

  process_by-WellFormed :
      (o : Option Error) (job : SendJob) (a : JobAnswers) (w : World)
      → WellFormed w.session
      → WellFormed (process_by ops seeded o job a w).session
  unfolding process_by
  process_by-WellFormed none job a w v = process_for-WellFormed w.session.client job a w v
  process_by-WellFormed (some e) job a w v = v

  work_on-WellFormed :
      (jobs : List SendJob) (a : JobAnswers) (w : World)
      → w.session.send_ch ≡ jobs
      → WellFormed w.session
      → WellFormed (work_on ops seeded jobs a w).session
  unfolding work_on process
  work_on-WellFormed [] a w e v = v
  work_on-WellFormed (job ∷ rest) a w e (r, u, q) =
      process_by-WellFormed a.before job a _ (r, u, ground (arith, q, ap length e))

  pub work-KeepsForm :
      (a : JobAnswers) (w : World) → WellFormed w.session → WellFormed (work ops seeded a w).session
  unfolding work
  work-KeepsForm a w v = work_on-WellFormed w.session.send_ch a w refl v

enqueue-WellFormed :
    (job : SendJob) (now : Time) (s : Session) → WellFormed s → WellFormed (enqueue job now s).1
unfolding enqueue
enqueue-WellFormed job now s (r, u, q) =
    ground (arith, r, u, q, length-append s.send_ch (record job { enqueued_at = now } ∷ []))

pub enqueue_checked-WellFormed :
    (job : Result SendJob) (now : Time) (s : Session)
    → WellFormed s
    → WellFormed (enqueue_checked job now s).1
unfolding enqueue_checked
enqueue_checked-WellFormed (err e) now s v = v
enqueue_checked-WellFormed (ok job) now s v = enqueue-WellFormed job now s v

buffered-WellFormed :
    (event : EventType) (m : InboundMessage) (s : Session)
    → WellFormed s
    → WellFormed (buffered event m s)
unfolding buffered track_unread
buffered-WellFormed message m s (r, u, q) =
    if-Form (not m.is_from_me && not (is_empty m.message_id)) _ _
      (append-IsValid m r, insert-IsMap _ _ s.unread u, q) (append-IsValid m r, u, q)
buffered-WellFormed edit m s (r, u, q) = (update-IsValid m.edited_id (edited_by m) s.ring r, u, q)
buffered-WellFormed revoke m s v = v

pub on_message-KeepsForm :
    (event : EventType) (m : InboundMessage) (now : Time) (w : World)
    → WellFormed w.session
    → WellFormed (on_message event m now w).session
unfolding on_message
on_message-KeepsForm event m now w v =
    let w' = update (buffered event m) w in
    if-WellFormed (m.is_from_me && not w.session.cfg.include_from_me) w _ v (
      if-WellFormed w'.session.has_hooks _ w' (buffered-WellFormed event m w.session v)
        (buffered-WellFormed event m w.session v))
