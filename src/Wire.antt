-- ===== src/Wire.antt =====
-- parse.go and wa.go: the messages of WhatsApp, in the fields that the code names. A field that may be
-- absent is an Option, whose getter gives the zero value, as those of the generated code do.
use wavonyx.Prelude.{ℕ, Bool, false, List, [], Option, none, some, Str}
use wavonyx.Message.{Time}

-- A `types.JID`, of which the code reads the user and the server.
pub record WaJid : Type 0 where
  pub user : Str
  pub server : Str
  pub device : ℕ

-- What the five types of attachment have in common: where the file is, and its keys.
pub record FilePart : Type 0 where
  pub url : Option Str
  pub direct_path : Option Str
  pub media_key : List ℕ
  pub file_enc_sha256 : List ℕ
  pub file_sha256 : List ℕ
  pub file_length : Option ℕ
  pub mimetype : Option Str

-- `Q` is what a message can quote. The code looks into a quoted message, and no deeper.
module _ (Q : Type 0) where
  pub record ContextInfo : Type 0 where
    pub stanza_id : Option Str
    pub participant : Option Str
    pub quoted_message : Option Q

  pub record TextMessage : Type 0 where
    pub text : Option Str
    pub context_info : Option ContextInfo

  pub record ImageMessage : Type 0 where
    pub file : FilePart
    pub caption : Option Str
    pub width : Option ℕ
    pub height : Option ℕ
    pub context_info : Option ContextInfo

  pub record VideoMessage : Type 0 where
    pub file : FilePart
    pub caption : Option Str
    pub width : Option ℕ
    pub height : Option ℕ
    pub seconds : Option ℕ
    pub context_info : Option ContextInfo

  pub record DocumentMessage : Type 0 where
    pub file : FilePart
    pub caption : Option Str
    pub file_name : Option Str
    pub context_info : Option ContextInfo

pub record AudioMessage : Type 0 where
  pub file : FilePart
  pub ptt : Option Bool
  pub seconds : Option ℕ

pub record StickerMessage : Type 0 where
  pub file : FilePart
  pub width : Option ℕ
  pub height : Option ℕ

-- A `waE2E.Message`, but for its protocol message.
pub record Content (Q : Type 0) : Type 0 where
  pub conversation : Option Str
  pub extended_text_message : Option (TextMessage Q)
  pub image_message : Option (ImageMessage Q)
  pub video_message : Option (VideoMessage Q)
  pub audio_message : Option AudioMessage
  pub document_message : Option (DocumentMessage Q)
  pub sticker_message : Option StickerMessage

-- `&waE2E.Message{}`
abbrev pub empty_content : {Q : Type 0} → Content Q
empty_content = record {
  conversation = none;
  extended_text_message = none;
  image_message = none;
  video_message = none;
  audio_message = none;
  document_message = none;
  sticker_message = none;
}

-- The type of a protocol message; the code ignores all but two.
pub data ProtocolType : Type 0 where
  revoke message_edit other_protocol : ProtocolType

pub record ProtocolMessage (Q : Type 0) : Type 0 where
  pub type : ProtocolType
  pub key_id : Option Str
  pub edited_message : Option (Content Q)

pub record Message (Q : Type 0) : Type 0 where
  pub protocol_message : Option (ProtocolMessage Q)
  pub content : Content Q

pub record MessageInfo : Type 0 where
  pub id : Str
  pub chat : WaJid
  pub sender : WaJid
  pub sender_alt : WaJid
  pub push_name : Str
  pub is_group : Bool
  pub is_from_me : Bool
  pub timestamp : Time

-- An `events.Message`.
pub record MessageEvent (Q : Type 0) : Type 0 where
  pub info : MessageInfo
  pub message : Option (Message Q)
  pub is_edit : Bool

-- The getters of optional fields.
abbrev pub text_of : Option Str → Str
text_of none = []
text_of (some s) = s

abbrev pub number_of : Option ℕ → ℕ
number_of none = 0
number_of (some n) = n

abbrev pub flag_of : Option Bool → Bool
flag_of none = false
flag_of (some b) = b
