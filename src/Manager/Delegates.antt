-- ===== src/Manager/Delegates.antt =====
-- manager.go: the operations that are those of one session.
use wavonyx.Prelude.{ℕ, List, [], Option, none, some, Str}
use wavonyx.Prelude.Int.{ℤ}
use wavonyx.Errors.{Error, Result, ok, err, outside}
use wavonyx.Message.{
  Time, SessionInfo, QrInfo, SendRequest, SendResult, MediaSendRequest, MediaContent,
  InboundMessage,
}
use wavonyx.MediaRef.{Codec}
use wavonyx.Typing.Options.{FloatOps}
use wavonyx.Ring
use wavonyx.Session.State.{Session, World}
use wavonyx.Session.Pairing.{info, current_qr}
use wavonyx.Session.Login.{LoginAnswers, LoginWait, login_begin, login_end, log_out}
use wavonyx.Session.Sending
use wavonyx.Session.Sending.{WaSendResult}
use wavonyx.Session.Calls
use wavonyx.Manager.{Manager}
use wavonyx.Manager.Operations.{on_session}

-- An operation that makes no calls, on the session of a world.
abbrev pub within {ℓ} : {A : Type ℓ} → (Session → A × Session) → World → A × World
within f w = let (a, s) = f w.session in (a, record w { session = s })

abbrev pub info_of : Str → Session → Result SessionInfo × Session
info_of name s = let (s', i) = info name s in (ok i, s')

-- `Get`; `name` is the push name that the client answers.
unfoldable pub get : Str → Str → Manager → Result SessionInfo × Manager
get name id m = on_session id (within (info_of name)) m

abbrev pub login_whole : LoginAnswers → LoginWait → Time → World → Result QrInfo × World
login_whole a wait now w = let (step, w') = login_begin a now w in (login_end step wait, w')

-- `Login`; the items of the pairing are taken by `consume_qr`, beside it.
unfoldable pub login : LoginAnswers → LoginWait → Time → Str → Manager → Result QrInfo × Manager
login a wait now id m = on_session id (login_whole a wait now) m

-- `QR`
unfoldable pub qr : Time → Str → Manager → Result QrInfo × Manager
qr now id m = on_session id (within λ s. (current_qr s now, s)) m

-- `Logout`
unfoldable pub logout : Option Error → Str → Manager → Result (Unit {0}) × Manager
logout e id m = on_session id (log_out e) m

-- `Send` and `SendMedia`, up to the wait for the outcome
unfoldable pub send : FloatOps → ℕ → SendRequest → Time → Str → Manager → Result ℕ × Manager
send ops ticket req now id m = on_session id (within (Sending.send ops ticket req now)) m

unfoldable pub send_media :
    FloatOps → ℕ → MediaSendRequest → Time → Str → Manager → Result ℕ × Manager
send_media ops ticket req now id m =
    on_session id (within (Sending.send_media_request ops ticket req now)) m

-- `EditMessage` and `RevokeMessage`
unfoldable pub edit_message :
    Result WaSendResult → Str → Str → Str → Str → Manager → Result SendResult × Manager
edit_message sent id to message_id text m =
    on_session id (Calls.edit_message sent to message_id text) m

unfoldable pub revoke_message :
    Result WaSendResult → Str → Str → Str → Manager → Result SendResult × Manager
revoke_message sent id to message_id m = on_session id (Calls.revoke sent to message_id) m

-- A read out of range would panic; the ring of a session never has one.
abbrev pub read_ring : Option (List InboundMessage) → Result (List InboundMessage)
read_ring none = err (outside [])
read_ring (some ms) = ok ms

-- `Recent`
unfoldable pub recent : Str → ℤ → Manager → Result (List InboundMessage) × Manager
recent id limit m = on_session id (within λ s. (read_ring (Ring.recent s.ring limit), s)) m

-- `DownloadMedia`
unfoldable pub download_media :
    Codec → Result (List ℕ) → Str → Str → Manager → Result MediaContent × Manager
download_media codec fetched id token m = on_session id (Calls.download codec token fetched) m
