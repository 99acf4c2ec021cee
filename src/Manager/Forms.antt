-- ===== src/Manager/Forms.antt =====
-- manager.go and session.go: no event makes a session ill-formed.
use mathlib.Core.Path.{subst}
use wavonyx.Prelude.{sym}
use wavonyx.Errors.{Result}
use wavonyx.Session.State.{World}
use wavonyx.Session.Sending
use wavonyx.Session.Pairing.{mark_connected, on_disconnected, on_logged_out, consume_item}
use wavonyx.Session.Login.{log_out}
use wavonyx.Session.Calls
use wavonyx.Manager.Delegates.{within, info_of, login_whole}
use wavonyx.Session.Invariant.{
  WellFormed, work-KeepsForm, on_message-KeepsForm, enqueue_checked-WellFormed,
}
use wavonyx.Manager.Held.{
  KeepsHeld, silent, get-KeepsHeld, login-KeepsHeld, log_out-KeepsHeld, edit-KeepsHeld,
  revoke-KeepsHeld, download-KeepsHeld, mark_connected-KeepsHeld, on_disconnected-KeepsHeld,
  on_logged_out-KeepsHeld, pairing-KeepsHeld,
}
use wavonyx.Manager.Events.{
  Event, gets, logs_in, asks_qr, logs_out, sends, sends_media, edits, revokes, reads, downloads,
  works, receives, connects, disconnects, is_logged_out, pairs,
}

-- Whether a session is well formed can be seen without what the connection changes.
keeps :
    {A : Type 0} (op : World → Result A × World) (h : KeepsHeld op) (w : World)
    → WellFormed w.session
    → WellFormed (op w).1.session
keeps op h w v = subst WellFormed (sym (h w)) v

pub Event-KeepsForm :
    (A : Type 0) (op : World → Result A × World)
    → Event A op
    → (w : World) → WellFormed w.session
    → WellFormed (op w).1.session
unfolding Sending.send Sending.send_media_request
Event-KeepsForm _ _ (gets name) w = keeps (within (info_of name)) (get-KeepsHeld name) w
Event-KeepsForm _ _ (logs_in a wait now) w =
    keeps (login_whole a wait now) (login-KeepsHeld a wait now) w
Event-KeepsForm _ _ (asks_qr now) w = λ v. v
Event-KeepsForm _ _ (logs_out e) w = keeps (log_out e) (log_out-KeepsHeld e) w
Event-KeepsForm _ _ (sends ops ticket req now) w =
    enqueue_checked-WellFormed (Sending.send_job ops ticket req) now w.session
Event-KeepsForm _ _ (sends_media ops ticket req now) w =
    enqueue_checked-WellFormed (Sending.media_job ops ticket req w.session) now w.session
Event-KeepsForm _ _ (edits sent to message_id text) w =
    keeps (Calls.edit_message sent to message_id text) (edit-KeepsHeld sent to message_id text) w
Event-KeepsForm _ _ (revokes sent to message_id) w =
    keeps (Calls.revoke sent to message_id) (revoke-KeepsHeld sent to message_id) w
Event-KeepsForm _ _ (reads limit) w = λ v. v
Event-KeepsForm _ _ (downloads codec token fetched) w =
    keeps (Calls.download codec token fetched) (download-KeepsHeld codec token fetched) w
Event-KeepsForm _ _ (works ops seeded a) w = work-KeepsForm ops seeded a w
Event-KeepsForm _ _ (receives event m now) w = on_message-KeepsForm event m now w
Event-KeepsForm _ _ (connects a) w =
    keeps (silent (mark_connected a)) (mark_connected-KeepsHeld a) w
Event-KeepsForm _ _ disconnects w = keeps (silent on_disconnected) (on_disconnected-KeepsHeld) w
Event-KeepsForm _ _ is_logged_out w = keeps (silent on_logged_out) (on_logged_out-KeepsHeld) w
Event-KeepsForm _ _ (pairs p item now a c) w =
    keeps (silent λ v. (consume_item p item now a (c, v)).1) (pairing-KeepsHeld p item now a c) w
