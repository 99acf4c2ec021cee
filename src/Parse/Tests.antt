-- ===== src/Parse/Tests.antt =====
-- A message at work.
use wavonyx.Prelude.{◌≡◌, refl, [], Option, none, some, Str, codes, false, true}
use wavonyx.Prelude.Int.{pos}
use wavonyx.Message.{text, message, InboundMessage}
use wavonyx.MediaRef.Tests.{plain_codec}
use wavonyx.Wire
use wavonyx.Wire.{WaJid, Content, MessageInfo, MessageEvent, FilePart, empty_content}
use wavonyx.Parse.Extract.{extract_content}
use wavonyx.Parse.Events.{parse_message, build_inbound}
use wavonyx.Parse.Sound.{IsParsed, parse_message-IsParsed}

abbrev pub budi : WaJid
budi = record { user = codes "628"; server = codes "s.whatsapp.net"; device = 4 }

abbrev hidden : WaJid
hidden = record { user = codes "77"; server = codes "lid"; device = 0 }

abbrev pub bare : WaJid → Str
bare j = j.user

abbrev pub info : MessageInfo
info = record {
  id = codes "M1";
  chat = hidden;
  sender = hidden;
  sender_alt = budi;
  push_name = codes "Budi";
  is_group = false;
  is_from_me = false;
  timestamp = pos 5;
}

abbrev event_of :
    Option (Wire.ProtocolMessage (Content (Unit {0})))
    → Content (Content (Unit {0}))
    → MessageEvent (Content (Unit {0}))
event_of p c = record {
  info = info;
  message = some (record { protocol_message = p; content = c });
  is_edit = false;
}

abbrev pub hello : MessageEvent (Content (Unit {0}))
hello = event_of none (record empty_content { conversation = some (codes "hi") })

abbrev received : InboundMessage
received = record {
  message_id = codes "M1";
  chat = codes "77";
  sender = codes "77";
  sender_phone = codes "628";
  push_name = codes "Budi";
  is_group = false;
  is_from_me = false;
  timestamp = pos 5;
  kind = text;
  text = codes "hi";
  edited_id = [];
  media = none;
  quoted = none;
}

parse_hello : parse_message plain_codec bare (some hello) ≡ some (received, message)
unfolding parse_message extract_content wavonyx.Prelude.str_eq wavonyx.Parse.Events.extract_quoted
parse_hello = refl

parse_revoke :
    parse_message plain_codec bare (
      some (
        event_of
          (some (record { type = Wire.revoke; key_id = none; edited_message = none }))
          empty_content))
    ≡ none
unfolding parse_message
parse_revoke = refl

parse_message-IsParsed_example : IsParsed plain_codec bare info info.id received message
parse_message-IsParsed_example =
    parse_message-IsParsed plain_codec bare (Unit {0}) hello received message parse_hello
