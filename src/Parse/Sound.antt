-- ===== src/Parse/Sound.antt =====
-- parse.go: what the program can rely on in a message that was parsed.
use mathlib.Core.Path.{subst}
use wavonyx.Prelude.{
  ◌≡◌, refl, Bool, true, false, not, [], Option, none, some, Str, is_empty, if◌then◌else◌,
}
use wavonyx.Message.{Kind, unset, EventType, message, edit, revoke, InboundMessage}
use wavonyx.MediaRef.{Codec}
use wavonyx.Wire
use wavonyx.Wire.{WaJid, Content, ProtocolMessage, ProtocolType, MessageInfo, MessageEvent, text_of}
use wavonyx.Parse.Extract.{Extracted, extract_content}
use wavonyx.Parse.Content.{IsContent, AllContent, extract_content-AllContent}
use wavonyx.Parse.Events.{
  resolve_phone, build_inbound, edited_as, parse_edit, parse_protocol, parse_plain, parse_body,
  parse_message,
}

-- The id of the message that a protocol message names, which is empty if it names none.
abbrev named_by : {Q : Type 0} → ProtocolMessage Q → Str
named_by pm = elim pm.key_id [ none ↦ [] | some id ↦ id ]

-- The message that an event is about: the one that its protocol message names, or else itself.
abbrev target_by : {Q : Type 0} → Option (ProtocolMessage Q) → MessageInfo → Str
target_by none info = info.id
target_by (some pm) info = named_by pm

abbrev pub target_id : {Q : Type 0} → MessageEvent Q → Str
target_id evt = elim evt.message [ none ↦ [] | some m ↦ target_by m.protocol_message evt.info ]

module _ (codec : Codec) (non_ad : WaJid → Str) where
  -- Who wrote the message, where and when, are the event's.
  abbrev pub IsFrom : MessageInfo → InboundMessage → Type 0
  IsFrom info m =
      (m.chat ≡ non_ad info.chat)
      × (m.sender ≡ non_ad info.sender)
      × (m.sender_phone ≡ resolve_phone info.sender info.sender_alt)
      × (m.push_name ≡ info.push_name)
      × (m.is_group ≡ info.is_group)
      × (m.is_from_me ≡ info.is_from_me)
      × (m.timestamp ≡ info.timestamp)

  -- What each type of event promises of its message; `target` is the id of the message that an edit or a
  -- revocation is about.
  abbrev pub IsParsed : MessageInfo → Str → InboundMessage → EventType → Type 0
  IsParsed info target m message =
      IsFrom info m
      × (m.message_id ≡ info.id)
      × (m.edited_id ≡ [])
      × IsContent codec m.kind m.text m.media
  IsParsed info target m edit =
      IsFrom info m
      × (m.message_id ≡ info.id)
      × (m.edited_id ≡ target)
      × IsContent codec m.kind m.text m.media
  IsParsed info target m revoke =
      IsFrom info m
      × (m.message_id ≡ target)
      × (is_empty m.message_id ≡ false)
      × (m.kind ≡ unset)
      × (m.text ≡ [])
      × (m.media ≡ none)
      × (m.quoted ≡ none)

  abbrev AllParsed : MessageInfo → Str → Option (InboundMessage × EventType) → Type 0
  AllParsed info target none = Unit
  AllParsed info target (some (m, e)) = IsParsed info target m e

  if-AllParsed :
      (b : Bool) (info : MessageInfo) (target : Str) (x y : Option (InboundMessage × EventType))
      → AllParsed info target x
      → AllParsed info target y
      → AllParsed info target (if b then x else y)
  if-AllParsed true info target x y h k = h
  if-AllParsed false info target x y h k = k

  module _ (Q : Type 0) where
    edited_as-AllParsed :
        (x : Option Extracted) (info : MessageInfo) (c : Content (Content Q)) (id : Str)
        → AllContent codec x
        → AllParsed info id (edited_as codec non_ad x info c id)
    unfolding build_inbound
    edited_as-AllParsed none info c id h = tt
    edited_as-AllParsed (some x) info c id h =
        ((refl, refl, refl, refl, refl, refl, refl), refl, refl, h)

    parse_edit-AllParsed :
        (info : MessageInfo) (c : Content (Content Q)) (id : Str)
        → AllParsed info id (parse_edit codec non_ad info c id)
    unfolding parse_edit
    parse_edit-AllParsed info c id =
        edited_as-AllParsed (extract_content codec c) info c id (extract_content-AllContent codec c)

    edited_message-AllParsed :
        (o : Option (Content (Content Q))) (info : MessageInfo) (id : Str)
        → AllParsed info id (elim o [ none ↦ none | some c ↦ parse_edit codec non_ad info c id ])
    edited_message-AllParsed none info id = tt
    edited_message-AllParsed (some c) info id = parse_edit-AllParsed info c id

    revoked-AllParsed :
        (b : Bool) (info : MessageInfo) (id : Str)
        → is_empty id ≡ b
        → AllParsed info id (
            if not b
            then some (
              record (build_inbound codec non_ad {Q = Q} info Kind.unset [] none none) {
                message_id = id;
              },
              revoke,
            )
            else none)
    unfolding build_inbound
    revoked-AllParsed true info id e = tt
    revoked-AllParsed false info id e =
        ((refl, refl, refl, refl, refl, refl, refl), refl, e, refl, refl, refl, refl)

    parse_protocol-AllParsed :
        (t : ProtocolType) (info : MessageInfo) (pm : ProtocolMessage (Content Q))
        → AllParsed info (named_by pm) (parse_protocol codec non_ad info (record pm { type = t }))
    parse_protocol-AllParsed Wire.message_edit info pm =
        edited_message-AllParsed pm.edited_message info (text_of pm.key_id)
    parse_protocol-AllParsed Wire.revoke info pm =
        revoked-AllParsed (is_empty (text_of pm.key_id)) info (text_of pm.key_id) refl
    parse_protocol-AllParsed Wire.other_protocol info pm = tt

    parse_plain-AllParsed :
        (x : Option Extracted) (info : MessageInfo) (target : Str) (c : Content (Content Q))
        → AllContent codec x
        → AllParsed info target (parse_plain codec non_ad x info c)
    unfolding build_inbound
    parse_plain-AllParsed none info target c h = tt
    parse_plain-AllParsed (some x) info target c h =
        ((refl, refl, refl, refl, refl, refl, refl), refl, refl, h)

    parse_body-AllParsed :
        (o : Option (ProtocolMessage (Content Q))) (evt : MessageEvent (Content Q))
        (m : Wire.Message (Content Q))
        → AllParsed evt.info
            (target_by o evt.info)
            (parse_body codec non_ad evt (record m { protocol_message = o }))
    parse_body-AllParsed (some pm) evt m = parse_protocol-AllParsed pm.type evt.info pm
    parse_body-AllParsed none evt m =
        if-AllParsed evt.is_edit evt.info evt.info.id _ _
          (parse_edit-AllParsed evt.info m.content evt.info.id)
          (parse_plain-AllParsed (extract_content codec m.content) evt.info evt.info.id m.content
            (extract_content-AllContent codec m.content))

    message-AllParsed :
        (o : Option (Wire.Message (Content Q))) (evt : MessageEvent (Content Q))
        → AllParsed evt.info
            (target_id (record evt { message = o }))
            (parse_message codec non_ad (some (record evt { message = o })))
    unfolding parse_message
    message-AllParsed none evt = tt
    message-AllParsed (some m) evt = parse_body-AllParsed m.protocol_message evt m

    -- An inbound message that the program accepts carries the sender, the chat and the instant of
    -- the event. A new message or an edit has the event's id, and is either a text that is not
    -- empty, with no attachment, or one attachment of a kind other than text, whose token stands
    -- for a file of that kind, with that type, size and name, that the library can be asked for. An
    -- edit says which message it changes: the one that its protocol message names (an empty id, if
    -- it names none), or, where the library has unwrapped the edit, the event's own. A revocation
    -- has the id of the message that its protocol message names, which is not empty, and no kind,
    -- text, attachment or quotation.
    pub parse_message-IsParsed :
        (evt : MessageEvent (Content Q)) (m : InboundMessage) (e : EventType)
        → parse_message codec non_ad (some evt) ≡ some (m, e)
        → IsParsed evt.info (target_id evt) m e
    parse_message-IsParsed evt m e h =
        subst (AllParsed evt.info (target_id evt)) h (message-AllParsed evt.message evt)
