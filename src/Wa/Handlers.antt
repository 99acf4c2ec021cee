-- ===== src/Wa/Handlers.antt =====
-- wa.go and session.go: the events of the WhatsApp library reach the session's callbacks.
use wavonyx.Prelude.{Option, none, some, Str}
use wavonyx.Message.{Time, EventType, InboundMessage}
use wavonyx.MediaRef.{Codec}
use wavonyx.Session.State.{World}
use wavonyx.Session.Pairing.{Account, mark_connected, on_disconnected, on_logged_out}
use wavonyx.Session.Inbound.{on_message}
use wavonyx.Wire.{WaJid, Content, MessageEvent}
use wavonyx.Parse.Events.{parse_message}

-- The events that `SetHandlers` tells apart; it ignores all others.
pub data WaEvent (Q : Type 0) : Type 0 where
  message_event : Option (MessageEvent (Content Q)) → WaEvent Q
  connected_event disconnected_event stream_replaced_event logged_out_event : WaEvent Q
  other_event : WaEvent Q

-- `waHandlers`: functions on a state, each of which may be nil.
pub record WaHandlers (S : Type 0) : Type 0 where
  pub on_message : Option (EventType → InboundMessage → S → S)
  pub on_connected : Option (S → S)
  pub on_disconnected : Option (S → S)
  pub on_logged_out : Option (S → S)

abbrev pub call_if : {S : Type 0} → Option (S → S) → S → S
call_if none s = s
call_if (some f) s = f s

abbrev pub deliver_if :
    {S : Type 0}
    → Option (EventType → InboundMessage → S → S)
    → Option (InboundMessage × EventType)
    → S
    → S
deliver_if none parsed s = s
deliver_if (some f) none s = s
deliver_if (some f) (some (m, e)) s = f e m s

-- The function that `SetHandlers` registers.
unfoldable pub handle : {S Q : Type 0} → Codec → (WaJid → Str) → WaHandlers S → WaEvent Q → S → S
handle codec non_ad h (message_event evt) s =
    deliver_if h.on_message (parse_message codec non_ad evt) s
handle codec non_ad h connected_event s = call_if h.on_connected s
handle codec non_ad h disconnected_event s = call_if h.on_disconnected s
handle codec non_ad h stream_replaced_event s = call_if h.on_disconnected s
handle codec non_ad h logged_out_event s = call_if h.on_logged_out s
handle codec non_ad h other_event s = s

-- `bindHandlers`: the session's callbacks, at an instant and with what its client answers.
unfoldable pub session_handlers : Time → Account → WaHandlers World
session_handlers now a = record {
  on_message = some λ e m w. on_message e m now w;
  on_connected = some (mark_connected a);
  on_disconnected = some on_disconnected;
  on_logged_out = some on_logged_out;
}
