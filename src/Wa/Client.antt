-- ===== src/Wa/Client.antt =====
-- wa.go: `realClient`, over a client of the WhatsApp library. `parse` is `types.ParseJID`; what the
-- library answers is an argument; each method returns the calls that it makes, in their order.
use wavonyx.Prelude.{ℕ, Bool, List, [], ◌∷◌, Option, none, some, Str, is_empty, if◌then◌else◌}
use wavonyx.Errors.{outside, Result, ok, err}
use wavonyx.Message.{Time}
use wavonyx.MediaRef.{MediaRef}
use wavonyx.Session.State.{OutboundMedia}
use wavonyx.Session.Pairing.{Account}
use wavonyx.Session.Sending.{WaSendResult}
use wavonyx.Wire.{WaJid, Content, empty_content}
use wavonyx.Wa.Media.{
  MediaType, media_type_for, UploadResponse, build_media_message, Downloadable,
  reconstruct_downloadable,
}

-- What `SendMessage` is given: a message, or one of the library's `BuildEdit` and `BuildRevoke`.
pub data Outgoing : Type 1 where
  plain : Content (Unit {0}) → Outgoing
  edit_of : WaJid → Str → Content (Unit {0}) → Outgoing
  revoke_of : WaJid → WaJid → Str → Outgoing

pub data Call : Type 1 where
  upload : List ℕ → MediaType → Call
  send_message : WaJid → Outgoing → Call
  send_presence_available : Call
  chat_presence : WaJid → Bool → Call
  mark_read : List Str → Time → WaJid → WaJid → Call
  download : Downloadable → Call

-- The zero `types.JID`, which is also `types.EmptyJID`.
abbrev pub zero_jid : WaJid
zero_jid = record { user = []; server = []; device = 0 }

-- `&waE2E.Message{Conversation: proto.String(text)}`
abbrev pub conversation_of : Str → Content (Unit {0})
conversation_of text = record empty_content { conversation = some text }

-- The calls of a method whose JID parses, and none of one whose JID does not.
abbrev pub with_jid :
    {A : Type 0} → Result WaJid → (WaJid → Result A × List Call) → Result A × List Call
with_jid (err e) next = (err e, [])
with_jid (ok j) next = next j

-- The call of `SendMessage`; `sent` is its answer.
abbrev pub sending : Result WaSendResult → WaJid → Outgoing → Result WaSendResult × List Call
sending sent j o = (sent, send_message j o ∷ [])

abbrev pub send_uploaded :
    Result UploadResponse
    → Result WaSendResult
    → WaJid
    → OutboundMedia
    → Result WaSendResult × List Call
send_uploaded (err e) sent j m = (err e, [])
send_uploaded (ok up) sent j m = sending sent j (plain (build_media_message m up))

abbrev pub sender_jid : (Str → Result WaJid) → Str → Result WaJid
sender_jid parse sender = if is_empty sender then ok zero_jid else parse sender

module _ (parse : Str → Result WaJid) where
  -- `SendText`
  unfoldable pub send_text : Result WaSendResult → Str → Str → Result WaSendResult × List Call
  send_text sent jid text = with_jid (parse jid) λ j. sending sent j (plain (conversation_of text))

  -- `SendMedia`
  unfoldable pub send_media :
      Result UploadResponse
      → Result WaSendResult
      → Str
      → OutboundMedia
      → Result WaSendResult × List Call
  send_media up sent jid m = with_jid (parse jid) λ j.
      (let (r, calls) = send_uploaded up sent j m in
        (r, upload m.bytes (media_type_for m.kind) ∷ calls))

  -- `EditText`
  unfoldable pub edit_text : Result WaSendResult → Str → Str → Str → Result WaSendResult × List Call
  edit_text sent jid message_id new_text =
      with_jid (parse jid) λ j. sending sent j (edit_of j message_id (conversation_of new_text))

  -- `RevokeMessage`
  unfoldable pub revoke_message : Result WaSendResult → Str → Str → Result WaSendResult × List Call
  revoke_message sent jid message_id =
      with_jid (parse jid) λ j. sending sent j (revoke_of j zero_jid message_id)

  -- `SetComposing`
  unfoldable pub set_composing : Result (Unit {0}) → Str → Bool → Result (Unit {0}) × List Call
  set_composing answer jid on = with_jid (parse jid) λ j. (answer, chat_presence j on ∷ [])

  abbrev pub marked :
      Result (Unit {0}) → List Str → Time → WaJid → Str → Result (Unit {0}) × List Call
  marked answer ids ts chat sender =
      with_jid (sender_jid parse sender) λ s. (answer, mark_read ids ts chat s ∷ [])

  -- `MarkRead`
  unfoldable pub mark_messages_read :
      Result (Unit {0}) → List Str → Time → Str → Str → Result (Unit {0}) × List Call
  mark_messages_read answer ids ts chat sender =
      if is_empty ids then (ok tt, []) else with_jid (parse chat) λ c. marked answer ids ts c sender

-- `SendAvailable`
unfoldable pub send_available : Result (Unit {0}) → Result (Unit {0}) × List Call
send_available answer = (answer, send_presence_available ∷ [])

abbrev pub download_of : Option Downloadable → Str → Result (List ℕ) → Result (List ℕ) × List Call
download_of none message answer = (err (outside message), [])
download_of (some d) message answer = (answer, download d ∷ [])

-- `DownloadMedia`; `message` is the text of the error that it formats itself.
unfoldable pub download_media : Str → Result (List ℕ) → MediaRef → Result (List ℕ) × List Call
unfolding reconstruct_downloadable
download_media message answer ref = download_of (reconstruct_downloadable ref) message answer

-- The part of a device of the library that the code reads: the store's JID, as a text, if the store
-- and the JID are there.
pub record Device : Type 0 where
  pub id : Option Str
  pub push_name : Str

abbrev pub text_or_none : Option Str → Str
text_or_none none = []
text_or_none (some s) = s

-- `JID` and `PushName`, of the client's store if there is one.
unfoldable pub account : Option Device → Account
account none = record { jid = []; push_name = [] }
account (some d) = record { jid = text_or_none d.id; push_name = d.push_name }
