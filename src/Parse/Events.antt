-- ===== src/Parse/Events.antt =====
-- parse.go: a message event of WhatsApp becomes an inbound message, or is skipped.
use wavonyx.Prelude.{
  not, Bool, true, false, ◌&&◌, [], Option, none, some, Str, is_empty, str_eq, if◌then◌else◌,
}
use wavonyx.Jid.{user_server}
use wavonyx.Message.{Kind, EventType, message, edit, revoke, MediaInfo, Quoted, InboundMessage}
use wavonyx.MediaRef.{Codec}
use wavonyx.Wire.{
  WaJid, FilePart, ContextInfo, TextMessage, ImageMessage, VideoMessage, DocumentMessage,
  AudioMessage, StickerMessage, Content, ProtocolMessage, MessageInfo, MessageEvent, text_of,
  number_of, flag_of,
}
use wavonyx.Wire
use wavonyx.Parse.Extract.{Extracted, extract_content}

-- `resolvePhone`
unfoldable pub resolve_phone : WaJid → WaJid → Str
resolve_phone sender sender_alt =
    if str_eq sender.server user_server
    then sender.user
    else (if str_eq sender_alt.server user_server then sender_alt.user else [])

-- `GetContextInfo` of a part that may be absent.
abbrev pub context_of {ℓ} :
    {A : Type ℓ} {Q : Type 0} → (A → Option (ContextInfo Q)) → Option A → Option (ContextInfo Q)
context_of get none = none
context_of get (some a) = get a

abbrev pub first_of {ℓ} : {A : Type ℓ} → Option A → Option A → Option A
first_of (some a) o = some a
first_of none o = o

-- `contextInfoOf`
unfoldable pub context_info_of : {Q : Type 0} → Content Q → Option (ContextInfo Q)
context_info_of c = first_of (context_of (λ m. m.context_info) c.extended_text_message) (
    first_of (context_of (λ m. m.context_info) c.image_message) (
      first_of (context_of (λ m. m.context_info) c.video_message)
        (context_of (λ m. m.context_info) c.document_message)))

module _ (codec : Codec) where
  -- The text of a quoted message, if it is there and has content.
  abbrev pub quoted_text : {Q : Type 0} → Option (Content Q) → Str
  quoted_text none = []
  quoted_text (some c) = elim (extract_content codec c) [ none ↦ [] | some x ↦ x.text ]

  abbrev pub is_absent {ℓ} : {A : Type ℓ} → Option A → Bool
  is_absent none = true
  is_absent (some a) = false

  abbrev pub quoted_by : {Q : Type 0} → Option (ContextInfo (Content Q)) → Option Quoted
  quoted_by none = none
  quoted_by (some ci) =
      if is_empty (text_of ci.stanza_id)
        && is_empty (text_of ci.participant)
        && is_absent ci.quoted_message
      then none
      else some (record {
        message_id = text_of ci.stanza_id;
        sender = text_of ci.participant;
        text = quoted_text ci.quoted_message;
      })

  -- `extractQuoted`
  unfoldable pub extract_quoted : {Q : Type 0} → Content (Content Q) → Option Quoted
  unfolding context_info_of
  extract_quoted c = quoted_by (context_info_of c)

  -- `ToNonAD().String()`, which is not the program's, is the parameter `non_ad`.
  module _ (non_ad : WaJid → Str) where
    abbrev pub quoted_of : {Q : Type 0} → Option (Content (Content Q)) → Option Quoted
    quoted_of none = none
    quoted_of (some c) = extract_quoted c

    -- `buildInbound`
    unfoldable pub build_inbound :
        {Q : Type 0}
        → MessageInfo
        → Kind
        → Str
        → Option MediaInfo
        → Option (Content (Content Q))
        → InboundMessage
    unfolding resolve_phone
    build_inbound info kind body media msg = record {
      message_id = info.id;
      chat = non_ad info.chat;
      sender = non_ad info.sender;
      sender_phone = resolve_phone info.sender info.sender_alt;
      push_name = info.push_name;
      is_group = info.is_group;
      is_from_me = info.is_from_me;
      timestamp = info.timestamp;
      kind = kind;
      text = body;
      edited_id = [];
      media = media;
      quoted = quoted_of msg;
    }

    abbrev pub edited_as :
        {Q : Type 0}
        → Option Extracted
        → MessageInfo
        → Content (Content Q)
        → Str
        → Option (InboundMessage × EventType)
    edited_as none info content id = none
    edited_as (some x) info content id =
        some (
          record (build_inbound info x.kind x.text x.media (some content)) { edited_id = id },
          edit,
        )

    -- `parseEdit`
    unfoldable pub parse_edit :
        {Q : Type 0} → MessageInfo → Content (Content Q) → Str → Option (InboundMessage × EventType)
    unfolding build_inbound
    parse_edit info content id = edited_as (extract_content codec content) info content id

    abbrev pub parse_protocol :
        {Q : Type 0}
        → MessageInfo
        → ProtocolMessage (Content Q)
        → Option (InboundMessage × EventType)
    parse_protocol {Q} info pm = elim pm.type [
      | Wire.message_edit ↦ elim pm.edited_message [
        | none ↦ none
        | some content ↦ parse_edit info content (text_of pm.key_id)
      ]
      | Wire.revoke ↦
          if not (is_empty (text_of pm.key_id))
          then some (
            record (build_inbound {Q = Q} info Kind.unset [] none none) {
              message_id = text_of pm.key_id;
            },
            revoke,
          )
          else none
      | Wire.other_protocol ↦ none
    ]

    abbrev pub parse_plain :
        {Q : Type 0}
        → Option Extracted
        → MessageInfo
        → Content (Content Q)
        → Option (InboundMessage × EventType)
    parse_plain none info content = none
    parse_plain (some x) info content =
        some (build_inbound info x.kind x.text x.media (some content), message)

    abbrev pub parse_body :
        {Q : Type 0}
        → MessageEvent (Content Q)
        → Wire.Message (Content Q)
        → Option (InboundMessage × EventType)
    parse_body evt m = elim m.protocol_message [
      | some pm ↦ parse_protocol evt.info pm
      | none ↦
          if evt.is_edit
          then parse_edit evt.info m.content evt.info.id
          else parse_plain (extract_content codec m.content) evt.info m.content
    ]

    -- `parseMessage`; `none` for an event is a nil pointer.
    unfoldable pub parse_message :
        {Q : Type 0} → Option (MessageEvent (Content Q)) → Option (InboundMessage × EventType)
    unfolding parse_edit
    parse_message none = none
    parse_message (some evt) = elim evt.message [ none ↦ none | some m ↦ parse_body evt m ]
