-- ===== src/Manager/Held.antt =====
-- session.go: what the operations of the connection leave alone.
use wavonyx.Prelude.{false, ℕ, ◌≡◌, refl, ap, List, [], Option, none, some, Str, arith}
use wavonyx.Prelude.Int.{pos}
use wavonyx.Errors.{Error, Result, ok, err}
use wavonyx.Message.{
  Time, Status, created, pairing, connected, disconnected, logged_out, SendResult,
}
use wavonyx.MediaRef.{MediaRef, Codec, decode_media_ref}
use wavonyx.Session.State.{Client, Pairing, Session, Effect, World}
use wavonyx.Session.Pairing.{
  Account, connected_with, mark_connected, on_disconnected, on_logged_out, fail_pairing, QrItem,
  code, success, failure, Consumer, consume_item, set_push_name, refresh_push_name, info,
}
use wavonyx.Session.Login.{
  LoginAnswers, LoginWait, attach, attached, start_pairing, with_client, login_by, login_begin,
  logged_out_by, log_out,
}
use wavonyx.Session.Sending.{WaSendResult}
use wavonyx.Session.Calls
use wavonyx.Session.Calls.{call, downloaded, connected_client, edit_target, revoke_target}
use wavonyx.Manager.Agree.{emit_for-session, emit_cancel-session}
use wavonyx.Manager.Delegates.{within, info_of, login_whole}

-- A session without what the connection changes: the URL, the ring, the unread messages, the queue
-- and the settings are still there.
abbrev pub held : Session → Session
held s = record s {
  status = created;
  jid = [];
  push_name = [];
  client = none;
  qr_code = [];
  qr_expires_at = pos 0;
  pair_cancel = none;
  stopped = false;
}

abbrev pub KeepsHeld : {A : Type 0} → (World → Result A × World) → Type 0
KeepsHeld op = (w : World) → held (op w).1.session ≡ held w.session

-- A change of a session that answers nothing.
abbrev pub silent : (World → World) → World → Result (Unit {0}) × World
silent f w = (ok tt, f w)

set_push_name-held :
    (c : Option Client) (name : Str) (s : Session) → held (set_push_name c name s) ≡ held s
set_push_name-held none name s = refl
set_push_name-held (some c) name s = refl

pub info-held : (name : Str) (s : Session) → held (info name s).0 ≡ held s
unfolding info refresh_push_name
info-held name s = set_push_name-held s.client name s

logged_out-held :
    (c : Option Client) (e : Option Error) (w : World)
    → held (logged_out_by c e w).1.session ≡ held w.session
unfolding logged_out_by
logged_out-held none e w = refl
logged_out-held (some c) e w = ground arith

pub log_out-KeepsHeld : (e : Option Error) → KeepsHeld (log_out e)
unfolding log_out
log_out-KeepsHeld e w = logged_out-held w.session.client e w

call-held :
    {A : Type 0} (r : Result A) (f : A → Effect) (g : A → Result SendResult) (w : World)
    → held (call r f g w).1.session ≡ held w.session
call-held (err e) f g w = refl
call-held (ok a) f g w = refl

downloaded-held :
    (r : Result MediaRef) (c : Result Client) (fetched : Result (List ℕ)) (w : World)
    → held (downloaded r c fetched w).1.session ≡ held w.session
unfolding downloaded
downloaded-held (err e) c fetched w = refl
downloaded-held (ok r) (err e) fetched w = refl
downloaded-held (ok r) (ok c) fetched w = refl

start_pairing-held :
    (c : Client) (a : LoginAnswers) (w : World)
    → held (start_pairing c a w).1.session ≡ held w.session
unfolding start_pairing
start_pairing-held c a w = ground (arith, ap held (emit_cancel-session w.session.pair_cancel w))

with_client-held :
    (c : Result Client) (a : LoginAnswers) (w : World)
    → held (with_client c a w).1.session ≡ held w.session
unfolding with_client
with_client-held (err e) a w = refl
with_client-held (ok c) a w = ground (arith, start_pairing-held c a _)

login_by-held :
    (s : Status) (a : LoginAnswers) (now : Time) (w : World)
    → held (login_by s a now w).1.session ≡ held w.session
unfolding login_by
login_by-held connected a now w = refl
login_by-held pairing a now w = refl
login_by-held created a now w = with_client-held a.new_client a w
login_by-held disconnected a now w = with_client-held a.new_client a w
login_by-held logged_out a now w = with_client-held a.new_client a w

pub login-KeepsHeld :
    (a : LoginAnswers) (wait : LoginWait) (now : Time) → KeepsHeld (login_whole a wait now)
unfolding login_begin
login-KeepsHeld a wait now w = login_by-held w.session.status a now w

pub get-KeepsHeld : (name : Str) → KeepsHeld (within (info_of name))
get-KeepsHeld name w = info-held name w.session

pub edit-KeepsHeld :
    (sent : Result WaSendResult) (to message_id text : Str)
    → KeepsHeld (Calls.edit_message sent to message_id text)
unfolding Calls.edit_message
edit-KeepsHeld sent to message_id text w = call-held (edit_target to text w.session) _ _ w

pub revoke-KeepsHeld :
    (sent : Result WaSendResult) (to message_id : Str) → KeepsHeld (Calls.revoke sent to message_id)
unfolding Calls.revoke
revoke-KeepsHeld sent to message_id w = call-held (revoke_target to w.session) _ _ w

pub download-KeepsHeld :
    (codec : Codec) (token : Str) (fetched : Result (List ℕ))
    → KeepsHeld (Calls.download codec token fetched)
unfolding Calls.download
download-KeepsHeld codec token fetched w =
    downloaded-held (decode_media_ref codec token) (connected_client w.session) fetched w

connected_with-held :
    (c : Option Client) (a : Account) (w : World)
    → held (connected_with c a w).session ≡ held w.session
unfolding connected_with
connected_with-held none a w = refl
connected_with-held (some c) a w = ground arith

pub mark_connected-KeepsHeld : (a : Account) → KeepsHeld (silent (mark_connected a))
unfolding mark_connected
mark_connected-KeepsHeld a w = connected_with-held w.session.client a w

pub on_disconnected-KeepsHeld : KeepsHeld (silent on_disconnected)
unfolding on_disconnected
on_disconnected-KeepsHeld w = ground arith

pub on_logged_out-KeepsHeld : KeepsHeld (silent on_logged_out)
unfolding on_logged_out
on_logged_out-KeepsHeld w = refl

fail_pairing-held : (w : World) → held (fail_pairing w).session ≡ held w.session
unfolding fail_pairing
fail_pairing-held w = ap held (emit_for-session w.session.client _ _)

pub pairing-KeepsHeld :
    (p : Pairing) (item : QrItem) (now : Time) (a : Account) (c : Consumer)
    → KeepsHeld (silent λ w. (consume_item p item now a (c, w)).1)
unfolding consume_item
pairing-KeepsHeld p (code qr timeout) now a c w = ground arith
pairing-KeepsHeld p success now a c w = ground (arith, mark_connected-KeepsHeld a w)
pairing-KeepsHeld p failure now a c w = ground (arith, fail_pairing-held w)

attached-held : (c : Result Client) (w : World) → held (attached c w).1.session ≡ held w.session
unfolding attached
attached-held (err e) w = refl
attached-held (ok c) w = refl

pub attach-KeepsHeld : (loaded : Result Client) → KeepsHeld (attach loaded)
unfolding attach
attach-KeepsHeld loaded w = attached-held loaded w
