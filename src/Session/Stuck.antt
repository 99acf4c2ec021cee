-- ===== src/Session/Stuck.antt =====
-- session.go: a login whose connection fails leaves a session that can no longer be paired.
use wavonyx.Prelude.{◌≡◌, refl, ◌≢◌, ap, ◌∙◌, [], Option, none, some, arith}
use wavonyx.Errors.{Error, Result, ok, err, sentinel, qr_not_available, not_logged_in}
use wavonyx.Message.{Time, Status, pairing, connected, created, disconnected, logged_out}
use wavonyx.Session.State.{Session, World, Client}
use wavonyx.Session.Pairing.{or_not_available, current_qr_locked}
use wavonyx.Session.Login.{
  logged_out_by, LoginAnswers, done, start_pairing, with_client, login_by, login_begin, log_out,
}

-- A session that may start a pairing.
abbrev pub CanPair : Status → Type 0
CanPair s = (s ≢ pairing) × (s ≢ connected)

-- The session waits for a scan, and there is no code.
abbrev pub IsStuck : Session → Type 0
IsStuck s = (s.status ≡ pairing) × (s.qr_code ≡ [])

with_client-fails :
    (a : LoginAnswers) (w : World) (n : Result Client) {c : Client} {x : Error}
    → n ≡ ok c
    → a.pair_error ≡ none
    → a.connect_error ≡ some x
    → let (r, w') = with_client n a w in (r ≡ done (err x)) × IsStuck w'.session
unfolding with_client start_pairing
with_client-fails a w (err y) n p e = absurd (cc)
with_client-fails a w (ok d) n p e = ground arith

login_by-fails :
    (s : Status) (a : LoginAnswers) (now : Time) (w : World) {c : Client} {x : Error}
    → CanPair s
    → a.new_client ≡ ok c
    → a.pair_error ≡ none
    → a.connect_error ≡ some x
    → let (r, w') = login_by s a now w in (r ≡ done (err x)) × IsStuck w'.session
unfolding login_by
login_by-fails pairing a now w (h, k) n p e = absurd (h refl)
login_by-fails connected a now w (h, k) n p e = absurd (k refl)
login_by-fails _ a now w (h, k) n p e = with_client-fails a w a.new_client n p e

by_status :
    (s : Status) (a : LoginAnswers) (now : Time) (w : World)
    → s ≡ pairing
    → login_by s a now w ≡ (done (or_not_available (current_qr_locked w.session now)), w)
unfolding login_by
by_status pairing a now w e = refl
by_status connected a now w e = absurd (cc)
by_status created a now w e = absurd (cc)
by_status disconnected a now w e = absurd (cc)
by_status logged_out a now w e = absurd (cc)

no_code : (s : Session) (now : Time) → s.qr_code ≡ [] → current_qr_locked s now ≡ none
unfolding current_qr_locked
no_code s now e = ground arith

stuck_login :
    (a : LoginAnswers) (now : Time) (w : World)
    → IsStuck w.session
    → login_begin a now w ≡ (done (err (sentinel qr_not_available)), w)
unfolding login_begin
stuck_login a now w (st, empty) =
    by_status w.session.status a now w st
    ∙ ap (λ o. (done (or_not_available o), w)) (no_code w.session now empty)

stuck_log_out :
    (o : Option Client) (x : Option Error) (w : World)
    → IsStuck w.session
    → logged_out_by o x w ≡ (err (sentinel not_logged_in), w)
unfolding logged_out_by
stuck_log_out none x w st = refl
stuck_log_out (some c) x w (st, empty) = ground arith

-- If a session may be paired and its new client cannot connect, `login` returns that error and leaves
-- the session `pairing` without a code. Until a callback or a pairing event comes, every later login
-- then fails with ErrQRNotAvailable without a new client being asked for, every logout fails with
-- ErrNotLoggedIn, and neither changes anything.
pub login_connect_error :
    (a : LoginAnswers) (now : Time) (w : World) (c : Client) (x : Error)
    → CanPair w.session.status
    → a.new_client ≡ ok c
    → a.pair_error ≡ none
    → a.connect_error ≡ some x
    → let (r, w') = login_begin a now w in
      (r ≡ done (err x))
      × ((b : LoginAnswers) (later : Time)
          → login_begin b later w' ≡ (done (err (sentinel qr_not_available)), w'))
      × ((y : Option Error) → log_out y w' ≡ (err (sentinel not_logged_in), w'))
unfolding login_begin log_out
login_connect_error a now w c x h n p e =
    let (r, stuck) = login_by-fails w.session.status a now w h n p e in
    (r, λ b later. stuck_login b later _ stuck, λ y. stuck_log_out _ y _ stuck)
