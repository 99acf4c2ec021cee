-- ===== src/Manager/Events.antt =====
-- manager.go and session.go: what can happen to the session of an id.
use wavonyx.Prelude.{ℕ, ◌≡◌, refl, ap, List, [], ◌∷◌, Option, Str, arith}
use wavonyx.Prelude.Int.{ℤ}
use wavonyx.Errors.{Error, Result}
use wavonyx.Message.{
  Time, EventType, message, edit, revoke, InboundMessage, SendRequest, MediaSendRequest,
}
use wavonyx.MediaRef.{Codec}
use wavonyx.Typing.Options.{FloatOps, Rng}
use wavonyx.Ring
use wavonyx.Session.State.{Pairing, Session, SendJob, World}
use wavonyx.Session.Pairing.{
  Account, mark_connected, on_disconnected, on_logged_out, QrItem, Consumer, consume_item,
  current_qr,
}
use wavonyx.Session.Login.{LoginAnswers, LoginWait, log_out}
use wavonyx.Session.Inbound.{buffered, track_unread, on_message}
use wavonyx.Session.Sending
use wavonyx.Session.Sending.{JobAnswers, WaSendResult, work_on, work}
use wavonyx.Session.Calls
use wavonyx.Manager.Agree.{KeepsUrl}
use wavonyx.Manager.Delegates.{within, info_of, login_whole, read_ring}
use wavonyx.Manager.Held.{
  silent, get-KeepsHeld, login-KeepsHeld, log_out-KeepsHeld, edit-KeepsHeld, revoke-KeepsHeld,
  download-KeepsHeld, mark_connected-KeepsHeld, on_disconnected-KeepsHeld, on_logged_out-KeepsHeld,
  pairing-KeepsHeld,
}
use wavonyx.Manager.Urls.{send-KeepsUrl, send_media-KeepsUrl, process-url}

work_on-url :
    (ops : FloatOps) (seeded : Rng) (q : List SendJob) (a : JobAnswers) (w : World)
    → (work_on ops seeded q a w).session.webhook_url ≡ w.session.webhook_url
unfolding work_on
work_on-url ops seeded [] a w = refl
work_on-url ops seeded (job ∷ rest) a w = process-url ops seeded job a _

work-KeepsUrl :
    (ops : FloatOps) (seeded : Rng) (a : JobAnswers) → KeepsUrl (silent (work ops seeded a))
unfolding work
work-KeepsUrl ops seeded a w = work_on-url ops seeded w.session.send_ch a w

buffered-url :
    (event : EventType) (m : InboundMessage) (s : Session)
    → (buffered event m s).webhook_url ≡ s.webhook_url
unfolding buffered track_unread
buffered-url message m s = ground arith
buffered-url edit m s = refl
buffered-url revoke m s = refl

on_message-KeepsUrl :
    (event : EventType) (m : InboundMessage) (now : Time)
    → KeepsUrl (silent (on_message event m now))
unfolding on_message
on_message-KeepsUrl event m now w = ground (arith, buffered-url event m w.session)

-- What a manager, a worker, or a client's callback does to one session.
pub data Event : (A : Type 0) → (World → Result A × World) → Type 1 where
  gets : (name : Str) → Event _ (within (info_of name))
  logs_in : (a : LoginAnswers) (wait : LoginWait) (now : Time) → Event _ (login_whole a wait now)
  asks_qr : (now : Time) → Event _ (within λ s. (current_qr s now, s))
  logs_out : (e : Option Error) → Event _ (log_out e)
  sends :
      (ops : FloatOps) (ticket : ℕ) (req : SendRequest) (now : Time)
      → Event _ (within (Sending.send ops ticket req now))
  sends_media :
      (ops : FloatOps) (ticket : ℕ) (req : MediaSendRequest) (now : Time)
      → Event _ (within (Sending.send_media_request ops ticket req now))
  edits :
      (sent : Result WaSendResult) (to message_id text : Str)
      → Event _ (Calls.edit_message sent to message_id text)
  revokes :
      (sent : Result WaSendResult) (to message_id : Str) → Event _ (Calls.revoke sent to message_id)
  reads : (limit : ℤ) → Event _ (within λ s. (read_ring (Ring.recent s.ring limit), s))
  downloads :
      (codec : Codec) (token : Str) (fetched : Result (List ℕ))
      → Event _ (Calls.download codec token fetched)
  works : (ops : FloatOps) (seeded : Rng) (a : JobAnswers) → Event _ (silent (work ops seeded a))
  receives :
      (event : EventType) (m : InboundMessage) (now : Time)
      → Event _ (silent (on_message event m now))
  connects : (a : Account) → Event _ (silent (mark_connected a))
  disconnects : Event _ (silent on_disconnected)
  is_logged_out : Event _ (silent on_logged_out)
  pairs :
      (p : Pairing) (item : QrItem) (now : Time) (a : Account) (c : Consumer)
      → Event _ (silent λ w. (consume_item p item now a (c, w)).1)

pub Event-KeepsUrl :
    (A : Type 0) (op : World → Result A × World)
    → Event A op
    → (w : World) → (op w).1.session.webhook_url ≡ w.session.webhook_url
Event-KeepsUrl _ _ (gets name) w = ap (λ s. s.webhook_url) (get-KeepsHeld name w)
Event-KeepsUrl _ _ (logs_in a wait now) w = ap (λ s. s.webhook_url) (login-KeepsHeld a wait now w)
Event-KeepsUrl _ _ (asks_qr now) w = refl
Event-KeepsUrl _ _ (logs_out e) w = ap (λ s. s.webhook_url) (log_out-KeepsHeld e w)
Event-KeepsUrl _ _ (sends ops ticket req now) w = send-KeepsUrl ops ticket req now w
Event-KeepsUrl _ _ (sends_media ops ticket req now) w = send_media-KeepsUrl ops ticket req now w
Event-KeepsUrl _ _ (edits sent to message_id text) w =
    ap (λ s. s.webhook_url) (edit-KeepsHeld sent to message_id text w)
Event-KeepsUrl _ _ (revokes sent to message_id) w =
    ap (λ s. s.webhook_url) (revoke-KeepsHeld sent to message_id w)
Event-KeepsUrl _ _ (reads limit) w = refl
Event-KeepsUrl _ _ (downloads codec token fetched) w =
    ap (λ s. s.webhook_url) (download-KeepsHeld codec token fetched w)
Event-KeepsUrl _ _ (works ops seeded a) w = work-KeepsUrl ops seeded a w
Event-KeepsUrl _ _ (receives event m now) w = on_message-KeepsUrl event m now w
Event-KeepsUrl _ _ (connects a) w = ap (λ s. s.webhook_url) (mark_connected-KeepsHeld a w)
Event-KeepsUrl _ _ disconnects w = ap (λ s. s.webhook_url) (on_disconnected-KeepsHeld w)
Event-KeepsUrl _ _ is_logged_out w = ap (λ s. s.webhook_url) (on_logged_out-KeepsHeld w)
Event-KeepsUrl _ _ (pairs p item now a c) w =
    ap (λ s. s.webhook_url) (pairing-KeepsHeld p item now a c w)
