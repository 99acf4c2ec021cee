-- ===== src/Session/Sending.antt =====
-- session.go: sends are checked, queued, and carried out one after the other by the worker.
use wavonyx.Prelude.{
  ◌*◌, ℕ, zero, suc, ◌-◌, ◌/◌, Bool, true, false, not, ◌&&◌, List, [], ◌∷◌, ◌++◌, Option, none,
  some, Str, is_empty, length, ltb, if◌then◌else◌,
}
use wavonyx.Prelude.Int.{ℤ, pos, negsuc, pos_part, ◌-ℤ◌, ltb_ℤ, is_nonpos}
use wavonyx.Errors.{
  Error, sentinel, send_error, Result, ok, err, ◌>>=◌, ◌>>◌, guard, not_connected, queue_full,
  missing_media, media_too_large,
}
use wavonyx.Message.{
  Time, SendRequest, SendResult, MediaSendRequest, validate, validate_typing_override,
  media_kind_from_mimetype,
}
use wavonyx.Jid.{normalize_recipient}
use wavonyx.Typing.Options.{FloatOps, Rng, apply, second, millisecond}
use wavonyx.Typing.{duration}
use wavonyx.Session.State.{
  Client, OutboundMedia, SendJob, Session, Effect, set_composing, send_text, send_media, deliver,
  World, emit, update,
}
use wavonyx.Session.Pairing.{is_connected}
use wavonyx.Session.Inbound.{mark_chat_read}

-- `enqueue`, up to the wait for the outcome; `ticket` names the new `out` channel.
unfoldable pub enqueue : SendJob → Time → Session → Result ℕ × Session
enqueue job now s =
    if not (is_connected s.status)
    then (err (sentinel not_connected), s)
    else (if ltb (length s.send_ch) (pos_part s.cfg.send_queue)
        then (
          ok job.ticket,
          record s { send_ch = s.send_ch ++ record job { enqueued_at = now } ∷ [] },
        )
        else (err (sentinel queue_full), s))

unfoldable pub enqueue_checked : Result SendJob → Time → Session → Result ℕ × Session
enqueue_checked (err e) now s = (err e, s)
enqueue_checked (ok job) now s = enqueue job now s

module _ (ops : FloatOps) where
  unfoldable pub send_job : ℕ → SendRequest → Result SendJob
  send_job ticket req = do
    validate ops req
    to ← normalize_recipient req.to
    ok (record {
      ticket = ticket;
      to = to;
      text = req.text;
      typing = req.typing;
      media = none;
      enqueued_at = pos 0;
    })

  -- `send`
  unfoldable pub send : ℕ → SendRequest → Time → Session → Result ℕ × Session
  unfolding enqueue_checked
  send ticket req now s = enqueue_checked (send_job ticket req) now s

  abbrev pub too_large : Session → MediaSendRequest → Bool
  too_large s req =
      not (is_nonpos s.cfg.max_media_bytes) && ltb_ℤ s.cfg.max_media_bytes (pos (length req.bytes))

  unfoldable pub media_job : ℕ → MediaSendRequest → Session → Result SendJob
  media_job ticket req s = do
    guard (not (is_empty req.bytes)) missing_media
    guard (not (too_large s req)) media_too_large
    validate_typing_override ops req.typing
    to ← normalize_recipient req.to
    ok (record {
      ticket = ticket;
      to = to;
      text = req.caption;
      typing = req.typing;
      media = some (record {
        bytes = req.bytes;
        mimetype = req.mimetype;
        kind = media_kind_from_mimetype req.mimetype;
        caption = req.caption;
        filename = req.filename;
      });
      enqueued_at = pos 0;
    })

  -- `sendMedia`
  unfoldable pub send_media_request : ℕ → MediaSendRequest → Time → Session → Result ℕ × Session
  unfolding enqueue_checked
  send_media_request ticket req now s = enqueue_checked (media_job ticket req s) now s

-- How one slice of simulated typing ends: it runs out, or the session stops or the context is done.
pub data Slice : Type 0 where
  elapsed interrupted : Slice

-- `slice` in nanoseconds.
abbrev pub slice : ℕ
slice = 8 * second

abbrev pub compose_again : Client → Str → ℕ → World → World
compose_again c to zero w = w
compose_again c to (suc left) w = emit (set_composing c to true) w

-- The loop of `simulateTyping`, with fuel, over the time that remains; the k-th slice ends as `ends k`.
unfoldable pub typing_loop : ℕ → (ℕ → Slice) → ℕ → Client → Str → ℕ → World → Bool × World
typing_loop zero ends k c to remaining w = (true, w)
typing_loop (suc fuel) ends k c to zero w = (true, w)
typing_loop (suc fuel) ends k c to (suc r) w =
    let left = suc r - slice in
    let more = typing_loop fuel ends (suc k) c to left (compose_again c to left w) in
    elim (ends k) [ elapsed ↦ more | interrupted ↦ (false, w) ]

-- `simulateTyping`
unfoldable pub simulate_typing : (ℕ → Slice) → Client → Str → ℕ → World → Bool × World
unfolding typing_loop
simulate_typing ends c to dur w =
    let (finished, w') =
      typing_loop (suc (dur / slice)) ends 0 c to dur (emit (set_composing c to true) w) in
    (finished, emit (set_composing c to false) w')

-- `waSendResult`
pub record WaSendResult : Type 0 where
  pub id : Str
  pub timestamp : Time

-- What others answer while a job is carried out: the context's error before it and after an
-- interruption, how the slices end, the instant at which the wait in the queue is measured, and
-- what the client returns for the send.
pub record JobAnswers : Type 0 where
  pub before : Option Error
  pub interrupted_by : Option Error
  pub slices : ℕ → Slice
  pub now : Time
  pub sent : Result WaSendResult

-- `Milliseconds`, which truncates towards zero.
abbrev pub milliseconds : ℤ → ℤ
milliseconds (pos n) = pos (n / millisecond)
milliseconds (negsuc n) = elim (suc n / millisecond) [ zero ↦ pos 0 | suc m ↦ negsuc m ]

abbrev pub sends : Client → SendJob → Option OutboundMedia → Effect
sends c job none = send_text c job.to job.text
sends c job (some m) = send_media c job.to m

abbrev pub outcome : SendJob → Result WaSendResult → ℤ → ℤ → Result SendResult
outcome job (err e) typing_ms queued_ms = err (send_error job.to e)
outcome job (ok r) typing_ms queued_ms = ok (record {
  message_id = r.id;
  to = job.to;
  timestamp = r.timestamp;
  typing_ms = typing_ms;
  queued_ms = queued_ms;
})

abbrev pub or_not_connected : Option Error → Error
or_not_connected none = sentinel not_connected
or_not_connected (some e) = e

-- The last part of `process`: the send and its outcome.
unfoldable pub commit : Client → SendJob → JobAnswers → ℤ → ℤ → World → World
commit c job a typing_ms queued_ms w =
    emit (deliver job.ticket (outcome job a.sent typing_ms queued_ms))
      (emit (sends c job job.media) w)

unfoldable pub after_typing : Client → SendJob → JobAnswers → ℤ → ℤ → Bool × World → World
after_typing c job a typing_ms queued_ms (true, w) = commit c job a typing_ms queued_ms w
after_typing c job a typing_ms queued_ms (false, w) =
    emit (deliver job.ticket (err (or_not_connected a.interrupted_by))) w

module _ (ops : FloatOps) (seeded : Rng) where
  -- From the receipts on, for the client of a connected session.
  unfoldable pub process_with : Client → SendJob → JobAnswers → World → World
  unfolding after_typing
  process_with c job a w =
      let w1 = mark_chat_read c job.to w in
      let queued_ms = milliseconds (a.now -ℤ job.enqueued_at) in
      let (dur, rng') =
        duration ops seeded job.text (apply w.session.cfg.typing job.typing) w.session.rng in
      let w2 = update (λ s. record s { rng = rng' }) w1 in
      if is_nonpos dur
      then commit c job a (pos 0) queued_ms w2
      else after_typing c job a (milliseconds dur) queued_ms
          (simulate_typing a.slices c job.to (pos_part dur) w2)

  unfoldable pub process_for : Option Client → SendJob → JobAnswers → World → World
  process_for none job a w = emit (deliver job.ticket (err (sentinel not_connected))) w
  process_for (some c) job a w =
      if is_connected w.session.status
      then process_with c job a w
      else emit (deliver job.ticket (err (sentinel not_connected))) w

  unfoldable pub process_by : Option Error → SendJob → JobAnswers → World → World
  process_by (some e) job a w = emit (deliver job.ticket (err e)) w
  process_by none job a w = process_for w.session.client job a w

  -- `process`
  unfoldable pub process : SendJob → JobAnswers → World → World
  unfolding process_by
  process job a w = process_by a.before job a w

  unfoldable pub work_on : List SendJob → JobAnswers → World → World
  work_on [] a w = w
  work_on (job ∷ rest) a w = process job a (update (λ s. record s { send_ch = rest }) w)

  -- One round of `runWorker` that takes a job, if there is one.
  unfoldable pub work : JobAnswers → World → World
  unfolding work_on
  work a w = work_on w.session.send_ch a w
