-- ===== src/Cli/Output.antt =====
-- cmd/wavonyx/output.go: how sessions and messages are shown. `clock` formats an instant.
use wavonyx.Prelude.{
  ℕ, ◌-◌, not, ◌&&◌, List, [], ◌∷◌, ◌++◌, map, Option, none, some, Str, codes, is_empty, length,
  leb, take, reverse, if◌then◌else◌,
}
use wavonyx.Message.{
  Time, Status, created, pairing, connected, disconnected, logged_out, Kind, unset, text, image,
  video, audio, voice, document, sticker, other, MediaInfo, InboundMessage, SessionInfo,
}
use wavonyx.Server.{replace}

-- `truncate`, on runes.
unfoldable pub truncate : Str → ℕ → Str
truncate s n =
    if leb (length s) n then s else (if leb n 1 then take n s else take (n - 1) s ++ codes "…")

-- `dash`
unfoldable pub dash : Str → Str
dash s = if is_empty s then codes "-" else s

-- `senderLabel`
unfoldable pub sender_label : InboundMessage → Str
sender_label m =
    if not (is_empty m.push_name) && not (is_empty m.sender_phone)
    then m.push_name ++ (codes " (" ++ m.sender_phone ++ codes ")")
    else if not (is_empty m.push_name)
    then m.push_name
    else if not (is_empty m.sender_phone)
    then m.sender_phone
    else m.sender

-- `chatLabel`
unfoldable pub chat_label : InboundMessage → Str
chat_label m = if m.is_group then codes "group" else codes "dm"

-- The text of a kind.
abbrev pub kind_text : Kind → Str
kind_text unset = []
kind_text text = codes "text"
kind_text image = codes "image"
kind_text video = codes "video"
kind_text audio = codes "audio"
kind_text voice = codes "voice"
kind_text document = codes "document"
kind_text sticker = codes "sticker"
kind_text (other s) = s

abbrev pub after_space : Str → Str
after_space s = if is_empty s then [] else codes " " ++ s

abbrev pub summary_by : Option MediaInfo → InboundMessage → Str → Str
summary_by none m body = if is_empty m.edited_id then body else codes "(edited) " ++ body
summary_by (some info) m body =
    codes "[" ++ kind_text m.kind ++ after_space info.filename ++ codes "]" ++ after_space body

-- `messageSummary`
unfoldable pub message_summary : InboundMessage → Str
unfolding replace
message_summary m = summary_by m.media m (replace 10 b' ' m.text)

-- The text of a status.
abbrev pub status_text : Status → Str
status_text created = codes "created"
status_text pairing = codes "pairing"
status_text connected = codes "connected"
status_text disconnected = codes "disconnected"
status_text logged_out = codes "logged_out"

module _ (clock : Time → Str) where
  -- `printSessions`: the cells of each line.
  unfoldable pub session_row : SessionInfo → List Str
  unfolding dash
  session_row s =
      s.id ∷ status_text s.status ∷ dash s.phone ∷ dash s.push_name ∷ clock s.created_at ∷ []

  abbrev pub session_head : List Str
  session_head = codes "ID" ∷ codes "STATUS" ∷ codes "PHONE" ∷ codes "NAME" ∷ codes "CREATED" ∷ []

  unfoldable pub session_table : List SessionInfo → List (List Str)
  unfolding session_row
  session_table [] = (codes "No sessions yet. Create one with: wavonyx connect <id>" ∷ []) ∷ []
  session_table (s ∷ ss) = session_head ∷ map session_row (s ∷ ss)

  -- `printSession`
  unfoldable pub session_detail : SessionInfo → List (List Str)
  unfolding dash
  session_detail s =
      (codes "ID" ∷ s.id ∷ [])
      ∷ (codes "Status" ∷ status_text s.status ∷ [])
      ∷ (codes "JID" ∷ dash s.jid ∷ [])
      ∷ (codes "Phone" ∷ dash s.phone ∷ [])
      ∷ (codes "Name" ∷ dash s.push_name ∷ [])
      ∷ (codes "Webhook" ∷ dash s.webhook_url ∷ [])
      ∷ (codes "Created" ∷ clock s.created_at ∷ [])
      ∷ []

  unfoldable pub message_row : InboundMessage → List Str
  unfolding sender_label chat_label message_summary
  message_row m = clock m.timestamp ∷ sender_label m ∷ chat_label m ∷ message_summary m ∷ []

  abbrev pub message_head : List Str
  message_head = codes "TIME" ∷ codes "FROM" ∷ codes "CHAT" ∷ codes "MESSAGE" ∷ []

  -- `printMessages`, oldest first.
  unfoldable pub message_table : List InboundMessage → List (List Str)
  unfolding message_row
  message_table [] = (codes "No messages buffered yet." ∷ []) ∷ []
  message_table (m ∷ ms) = message_head ∷ reverse (map message_row (m ∷ ms))

  -- The three parts of `printMessageLine`; the second is padded to 22 columns.
  unfoldable pub message_line : InboundMessage → List Str
  unfolding truncate sender_label message_summary
  message_line m = clock m.timestamp ∷ truncate (sender_label m) 22 ∷ message_summary m ∷ []
