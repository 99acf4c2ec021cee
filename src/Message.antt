-- ===== src/Message.antt =====
-- message.go: the types that the parts exchange, and the checks of a request.
use wavonyx.Prelude.{
  ℕ, Bool, true, false, ◌||◌, Option, none, some, Str, codes, starts_with, trim_space, is_empty,
  List, [], if◌then◌else◌,
}
use wavonyx.Prelude.Int.{ℤ, is_neg}
use wavonyx.Errors.{sentinel, empty_text, invalid_typing, Result, ok, err}
use wavonyx.Typing.Options.{Float, FloatOps, Mode, Override, zero_float}

-- Instants and durations in nanoseconds; the zero `time.Time` is `pos 0`.
abbrev pub Time : Type 0
Time = ℤ

pub data Status : Type 0 where
  created pairing connected disconnected logged_out : Status

-- `Kind` is a string of the source; `unset` is "" and `other` any text that is none of the kinds.
pub data Kind : Type 0 where
  unset text image video audio voice document sticker : Kind
  other : Str → Kind

pub data EventType : Type 0 where
  message edit revoke : EventType

pub record MediaInfo : Type 0 where
  pub mimetype : Str
  pub file_size : ℕ
  pub filename : Str
  pub width : ℕ
  pub height : ℕ
  pub duration : ℕ
  pub token : Str

pub record Quoted : Type 0 where
  pub message_id : Str
  pub sender : Str
  pub text : Str

pub record InboundMessage : Type 0 where
  pub message_id : Str
  pub chat : Str
  pub sender : Str
  pub sender_phone : Str
  pub push_name : Str
  pub is_group : Bool
  pub is_from_me : Bool
  pub timestamp : Time
  pub kind : Kind
  pub text : Str
  pub edited_id : Str
  pub media : Option MediaInfo
  pub quoted : Option Quoted

-- `InboundMessage{}`
abbrev pub zero_message : InboundMessage
zero_message = record {
  message_id = [];
  chat = [];
  sender = [];
  sender_phone = [];
  push_name = [];
  is_group = false;
  is_from_me = false;
  timestamp = ℤ.pos 0;
  kind = Kind.unset;
  text = [];
  edited_id = [];
  media = none;
  quoted = none;
}

pub record MediaContent : Type 0 where
  pub bytes : List ℕ
  pub mimetype : Str
  pub filename : Str

pub record SendRequest : Type 0 where
  pub to : Str
  pub text : Str
  pub typing : Option Override

pub record SendResult : Type 0 where
  pub message_id : Str
  pub to : Str
  pub timestamp : Time
  pub typing_ms : ℤ
  pub queued_ms : ℤ

pub record MediaSendRequest : Type 0 where
  pub to : Str
  pub caption : Str
  pub typing : Option Override
  pub bytes : List ℕ
  pub mimetype : Str
  pub filename : Str

pub record SessionInfo : Type 0 where
  pub id : Str
  pub status : Status
  pub jid : Str
  pub phone : Str
  pub push_name : Str
  pub webhook_url : Str
  pub created_at : Time

pub record QrInfo : Type 0 where
  pub code : Str
  pub expires_at : Time
  pub expires_in : ℤ

pub record Event : Type 0 where
  pub event : EventType
  pub session_id : Str
  pub ts : Time
  pub message : InboundMessage

-- `mediaKindFromMimetype`
unfoldable pub media_kind_from_mimetype : Str → Kind
media_kind_from_mimetype mt =
    if starts_with mt (codes "image/")
    then image
    else if starts_with mt (codes "video/")
    then video
    else if starts_with mt (codes "audio/")
    then audio
    else document

abbrev bad_mode : Option Mode → Bool
bad_mode none = false
bad_mode (some Mode.unset) = true
bad_mode (some (Mode.other s)) = true
bad_mode (some _) = false

abbrev bad_ms : Option ℤ → Bool
bad_ms none = false
bad_ms (some ms) = is_neg ms

module _ (ops : FloatOps) where
  abbrev bad_cps : Option Float → Bool
  bad_cps none = false
  bad_cps (some f) = ops.lt f zero_float

  -- `validateTypingOverride`
  unfoldable pub validate_typing_override : Option Override → Result (Unit {0})
  validate_typing_override none = ok tt
  validate_typing_override (some o) =
      if bad_mode o.mode
        || bad_ms o.per_char_ms
        || bad_ms o.max_total_ms
        || bad_cps o.min_cps
        || bad_cps o.max_cps
      then err (sentinel invalid_typing)
      else ok tt

  -- `SendRequest.Validate`
  unfoldable pub validate : SendRequest → Result (Unit {0})
  validate r =
      if is_empty (trim_space r.text)
      then err (sentinel empty_text)
      else validate_typing_override r.typing
