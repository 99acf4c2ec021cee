-- ===== src/Wa/Dispatch.antt =====
-- wa.go and session.go: what the library's events do to a session.
use wavonyx.Prelude.{
  ◌≡◌, Bool, true, false, not, ◌&&◌, ◌||◌, Option, none, some, List, [], ◌∷◌, Str, take, length,
  is_empty, if◌then◌else◌,
}
use wavonyx.Message.{
  Time, Status, connected, disconnected, logged_out, EventType, message, edit, revoke,
  InboundMessage,
}
use wavonyx.MediaRef.{Codec}
use wavonyx.Prelude.Int.{pos}
use wavonyx.Ring
use wavonyx.Ring.Inv
use wavonyx.Ring.Refine.{contents}
use wavonyx.Session.State.{Client, Session, UnreadKey, Effect, World, enqueue_event}
use wavonyx.Session.Pairing.{Account}
use wavonyx.Session.Inbound.{lookup}
use wavonyx.Wire.{WaJid}
use wavonyx.Parse.Events.{parse_message}
use wavonyx.Wa.Handlers.{
  WaEvent, message_event, connected_event, disconnected_event, stream_replaced_event,
  logged_out_event, other_event,
}

abbrev key_of : InboundMessage → UnreadKey
key_of m = record { chat = m.chat; sender = m.sender }

-- What becomes of the buffer and of the message that is remembered for the chat and the sender: a new
-- message is the newest of the buffer, and remembered unless it is the account's own or has no id; an edit or
-- a revocation leaves the number of messages as it is, and what is remembered.
abbrev Buffers : EventType → InboundMessage → Session → Session → Type 0
Buffers message m s s' =
    (contents s'.ring ≡ take (length s.ring.buf) (m ∷ contents s.ring))
    × (lookup (key_of m) s'.unread ≡ (
        if m.is_from_me || is_empty m.message_id
        then lookup (key_of m) s.unread
        else some (record { id = m.message_id; phone = m.sender_phone })))
Buffers edit m s s' = (s'.ring.n ≡ s.ring.n) × (s'.unread ≡ s.unread)
Buffers revoke m s s' = (s'.ring ≡ s.ring) × (s'.unread ≡ s.unread)

-- The event for the webhook, if the session has one; it is the last call.
abbrev queued : EventType → InboundMessage → Time → World → List Effect
queued e m now w =
    if w.session.has_hooks
    then enqueue_event w.session.webhook_url
        (record { event = e; session_id = w.session.id; ts = now; message = m })
      ∷ w.trace
    else w.trace

-- What an inbound message does: nothing, if it was not accepted, or is the account's own and these are left
-- out; else it is buffered and queued for the webhook, and the connection is as it was.
abbrev Receives : Bool → EventType → InboundMessage → Time → World → World → Type 0
Receives true e m now w w' = w' ≡ w
Receives false e m now w w' =
    (w'.trace ≡ queued e m now w)
    × (w'.session.status ≡ w.session.status)
    × (w'.session.client ≡ w.session.client)
    × Buffers e m w.session w'.session

abbrev ReceivesIf : Option (InboundMessage × EventType) → Time → World → World → Type 0
ReceivesIf none now w w' = w' ≡ w
ReceivesIf (some (m, e)) now w w' =
    Receives (m.is_from_me && not w.session.cfg.include_from_me) e m now w w'

-- What a connection does to a session with that client.
abbrev Connects : Option Client → Account → World → World → Type 0
Connects none a w w' = w' ≡ w
Connects (some c) a w w' =
    (w'.session.status ≡ connected)
    × (w'.session.qr_code ≡ [])
    × (w'.session.jid ≡ (if is_empty a.jid then w.session.jid else a.jid))

-- The status after a connection is lost.
abbrev lost : Status → Status
lost connected = disconnected
lost s = s

-- What each event of the library does.
abbrev pub Does :
    {Q : Type 0} → Codec → (WaJid → Str) → Time → Account → WaEvent Q → World → World → Type 0
Does codec non_ad now a (message_event evt) w w' =
    ReceivesIf (parse_message codec non_ad evt) now w w'
Does codec non_ad now a connected_event w w' = Connects w.session.client a w w'
Does codec non_ad now a disconnected_event w w' =
    w' ≡ record w { session = record w.session { status = lost w.session.status } }
Does codec non_ad now a stream_replaced_event w w' =
    w' ≡ record w { session = record w.session { status = lost w.session.status } }
Does codec non_ad now a logged_out_event w w' =
    (w'.session.status ≡ logged_out)
    × (w'.session.qr_code ≡ [])
    × (w'.session.client ≡ w.session.client)
    × (w'.trace ≡ w.trace)
Does codec non_ad now a other_event w w' = w' ≡ w

-- A session without what a message changes.
abbrev bare : Session → Session
bare s = record s { ring = Ring.new_ring (pos 0); unread = [] }
