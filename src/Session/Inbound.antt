-- ===== src/Session/Inbound.antt =====
-- session.go: inbound messages, and the read receipts before a reply.
use wavonyx.Prelude.{
  Bool, not, ◌&&◌, ◌||◌, List, [], ◌∷◌, Option, none, some, Str, str_eq, is_empty, if◌then◌else◌,
}
use wavonyx.Message.{Time, EventType, message, edit, revoke, InboundMessage}
use wavonyx.Jid.{phone_from_jid}
use wavonyx.Ring
use wavonyx.Session.State.{
  Client, UnreadKey, ReadTarget, Session, mark_read, enqueue_event, World, emit, update,
}

abbrev pub key_eq : UnreadKey → UnreadKey → Bool
key_eq a b = str_eq a.chat b.chat && str_eq a.sender b.sender

-- The unread messages, by chat and sender.
abbrev pub Unread : Type 0
Unread = List (UnreadKey × ReadTarget)

-- `s.unread[k] = t`
unfoldable pub insert : UnreadKey → ReadTarget → Unread → Unread
insert k t [] = (k, t) ∷ []
insert k t ((j, u) ∷ m) = if key_eq j k then (k, t) ∷ m else (j, u) ∷ insert k t m

unfoldable pub lookup : UnreadKey → Unread → Option ReadTarget
lookup k [] = none
lookup k ((j, u) ∷ m) = if key_eq j k then some u else lookup k m

-- `trackUnread`
unfoldable pub track_unread : InboundMessage → Session → Session
track_unread m s = record s {
  unread =
      insert (record { chat = m.chat; sender = m.sender })
        (record { id = m.message_id; phone = m.sender_phone }) s.unread;
}

-- What an edit event changes in the buffered copy.
abbrev pub edited_by : InboundMessage → InboundMessage → InboundMessage
edited_by m e = record e { text = m.text; kind = m.kind; media = m.media }

unfoldable pub buffered : EventType → InboundMessage → Session → Session
buffered message m s =
    let s' = record s { ring = Ring.append s.ring m } in
    if not m.is_from_me && not (is_empty m.message_id) then track_unread m s' else s'
buffered edit m s = record s { ring = (Ring.update s.ring m.edited_id (edited_by m)).0 }
buffered revoke m s = s

-- `onMessage` at the instant `now`
unfoldable pub on_message : EventType → InboundMessage → Time → World → World
unfolding buffered
on_message event m now w =
    if m.is_from_me && not w.session.cfg.include_from_me
    then w
    else (let w' = update (buffered event m) w in
        if w'.session.has_hooks
        then emit
            (enqueue_event w'.session.webhook_url
              (record { event = event; session_id = w'.session.id; ts = now; message = m }))
            w'
        else w')

-- Whether a message of the chat `k` is read by opening the chat `to`.
abbrev pub opens : Str → UnreadKey → ReadTarget → Bool
opens to k t =
    str_eq k.chat to || (not (is_empty (phone_from_jid to)) && str_eq t.phone (phone_from_jid to))

-- The loop over the map: what is read, and what stays. The order of a Go map is not fixed; here it
-- is that of the list.
unfoldable pub take_read : Str → Unread → Unread × Unread
take_read to [] = ([], [])
take_read to ((k, t) ∷ m) =
    let (taken, left) = take_read to m in
    if opens to k t then ((k, t) ∷ taken, left) else (taken, (k, t) ∷ left)

-- The receipts, one for each target. Their errors are only logged.
unfoldable pub send_receipts : Client → Unread → World → World
send_receipts c [] w = w
send_receipts c ((k, t) ∷ m) w = send_receipts c m (emit (mark_read c t.id k.chat k.sender) w)

-- `markChatRead`
unfoldable pub mark_chat_read : Client → Str → World → World
unfolding take_read send_receipts
mark_chat_read c to w =
    let (taken, left) = take_read to w.session.unread in
    send_receipts c taken (update (λ s. record s { unread = left }) w)
