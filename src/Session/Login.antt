-- ===== src/Session/Login.antt =====
-- session.go: `login`, `attach`, `logout` and `stop`.
use wavonyx.Prelude.{Bool, true, ◌||◌, Option, none, some, if◌then◌else◌}
use wavonyx.Errors.{
  Error, sentinel, Result, ok, err, already_connected, qr_not_available, not_logged_in,
}
use wavonyx.Message.{Time, Status, pairing, connected, disconnected, logged_out, QrInfo}
use wavonyx.Session.State.{
  Client, Pairing, set_handlers, pair_qr, connect, disconnect, logout, cancel_pairing, World, emit,
  emit_for, update,
}
use wavonyx.Session.Pairing.{
  or_not_available, current_qr_locked, clear_qr, is_connected, is_disconnected,
}

-- What the store and the new client answer to a login: the client, or why there is none; the errors
-- of `PairQR` and `Connect`, if any; and the number of this pairing.
pub record LoginAnswers : Type 0 where
  pub new_client : Result Client
  pub pair_error : Option Error
  pub connect_error : Option Error
  pub number : Pairing

-- A login that has returned, or one that waits for the first code.
pub data LoginStep : Type 0 where
  done : Result QrInfo → LoginStep
  waits : LoginStep

abbrev pub emit_cancel : Option Pairing → World → World
emit_cancel none w = w
emit_cancel (some p) w = emit (cancel_pairing p) w

-- The last critical section of a login, and the connection.
unfoldable pub start_pairing : Client → LoginAnswers → World → LoginStep × World
start_pairing c a w =
    let w1 = emit_cancel w.session.pair_cancel w in
    let w2 =
      update
        (λ s.
          clear_qr (record s { client = some c; status = pairing; pair_cancel = some a.number }))
        w1 in
    let w3 = emit (connect c) w2 in
    elim a.connect_error [
      | none ↦ (waits, w3)
      | some e ↦ (done (err e), emit (cancel_pairing a.number) w3)
    ]

unfoldable pub with_client : Result Client → LoginAnswers → World → LoginStep × World
unfolding start_pairing
with_client (err e) a w = (done (err e), w)
with_client (ok c) a w =
    let w1 = emit (pair_qr c) (emit (set_handlers c) w) in
    elim a.pair_error [
      | some e ↦ (done (err e), emit (cancel_pairing a.number) w1)
      | none ↦ start_pairing c a w1
    ]

unfoldable pub login_by : Status → LoginAnswers → Time → World → LoginStep × World
unfolding with_client
login_by connected a now w = (done (err (sentinel already_connected)), w)
login_by pairing a now w = (done (or_not_available (current_qr_locked w.session now)), w)
login_by _ a now w = with_client a.new_client a w

-- `login` up to the wait for the first code; `consume_qr` runs beside that wait.
unfoldable pub login_begin : LoginAnswers → Time → World → LoginStep × World
unfolding login_by
login_begin a now w = login_by w.session.status a now w

-- What ends the wait: the first signal, the caller's context, or the timer of 15 seconds.
pub data LoginWait : Type 0 where
  signalled : Option QrInfo → LoginWait
  cancelled : Error → LoginWait
  timed_out : LoginWait

unfoldable pub login_end : LoginStep → LoginWait → Result QrInfo
login_end (done r) wait = r
login_end waits (signalled qr) = or_not_available qr
login_end waits (cancelled e) = err e
login_end waits timed_out = err (sentinel qr_not_available)

-- `attach`; `loaded` is what the store answers. An error of `Connect` is only logged.
unfoldable pub attached : Result Client → World → Result (Unit {0}) × World
attached (err e) w = (err e, update (λ s. record s { status = logged_out }) w)
attached (ok c) w = (
  ok tt,
  emit (connect c) (
      update
        (λ s. record s {
          client = some c;
          status = if is_connected s.status then connected else disconnected;
        })
        (emit (set_handlers c) w)),
)

unfoldable pub attach : Result Client → World → Result (Unit {0}) × World
unfolding attached
attach loaded w = attached loaded w

abbrev pub is_paired : Status → Bool
is_paired s = is_connected s || is_disconnected s

unfoldable pub logged_out_by : Option Client → Option Error → World → Result (Unit {0}) × World
logged_out_by none e w = (err (sentinel not_logged_in), w)
logged_out_by (some c) e w =
    if is_paired w.session.status
    then (elim e [
      | some x ↦ (err x, emit (logout c) w)
      | none ↦
          (ok tt, update (λ s. clear_qr (record s { status = logged_out })) (emit (logout c) w))
    ])
    else (err (sentinel not_logged_in), w)

-- `logout`; the error is that of the client's `Logout`, if any.
unfoldable pub log_out : Option Error → World → Result (Unit {0}) × World
unfolding logged_out_by
log_out e w = logged_out_by w.session.client e w

-- `stop`; the wait for the worker is the end of its steps.
unfoldable pub stop : World → World
stop w =
    emit_for w.session.client disconnect
      (emit_cancel w.session.pair_cancel (update (λ s. record s { stopped = true }) w))
