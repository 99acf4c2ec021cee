-- ===== src/Parse/Extract.antt =====
-- parse.go: the kind, the text and the attachment of a message.
use wavonyx.Prelude.{not, Bool, [], Option, none, some, Str, is_empty, if◌then◌else◌}
use wavonyx.Message.{Kind, image, video, audio, voice, document, sticker, MediaInfo}
use wavonyx.MediaRef.{MediaRef, Codec, encode_media_ref}
use wavonyx.Wire.{
  FilePart, TextMessage, ImageMessage, VideoMessage, DocumentMessage, AudioMessage, StickerMessage,
  Content, text_of, number_of, flag_of,
}

-- The download reference of a file, as each of the five cases of `extractContent` builds it.
abbrev pub ref_of : Kind → FilePart → Str → MediaRef
ref_of kind f filename = record {
  kind = kind;
  url = text_of f.url;
  direct_path = text_of f.direct_path;
  media_key = f.media_key;
  enc_sha256 = f.file_enc_sha256;
  sha256 = f.file_sha256;
  file_length = number_of f.file_length;
  mimetype = text_of f.mimetype;
  filename = filename;
}

-- What `extractContent` returns when it is ok: kind, text and media.
pub record Extracted : Type 0 where
  pub kind : Kind
  pub text : Str
  pub media : Option MediaInfo

abbrev pub plain_text : Str → Extracted
plain_text s = record { kind = Kind.text; text = s; media = none }

-- `GetExtendedTextMessage().GetText()`
abbrev pub extended_text : {Q : Type 0} → Option (TextMessage Q) → Str
extended_text none = []
extended_text (some m) = text_of m.text

-- A sound that is marked as push-to-talk is a voice message.
abbrev pub sound_kind : Option Bool → Kind
sound_kind ptt = if flag_of ptt then voice else audio

module _ (codec : Codec) where
  abbrev pub from_image : {Q : Type 0} → ImageMessage Q → Extracted
  from_image im = record {
    kind = image;
    text = text_of im.caption;
    media = some (record {
      mimetype = text_of im.file.mimetype;
      file_size = number_of im.file.file_length;
      filename = [];
      width = number_of im.width;
      height = number_of im.height;
      duration = 0;
      token = encode_media_ref codec (ref_of image im.file []);
    });
  }

  abbrev pub from_video : {Q : Type 0} → VideoMessage Q → Extracted
  from_video vm = record {
    kind = video;
    text = text_of vm.caption;
    media = some (record {
      mimetype = text_of vm.file.mimetype;
      file_size = number_of vm.file.file_length;
      filename = [];
      width = number_of vm.width;
      height = number_of vm.height;
      duration = number_of vm.seconds;
      token = encode_media_ref codec (ref_of video vm.file []);
    });
  }

  abbrev pub from_audio : AudioMessage → Extracted
  from_audio am = record {
    kind = sound_kind am.ptt;
    text = [];
    media = some (record {
      mimetype = text_of am.file.mimetype;
      file_size = number_of am.file.file_length;
      filename = [];
      width = 0;
      height = 0;
      duration = number_of am.seconds;
      token = encode_media_ref codec (ref_of (sound_kind am.ptt) am.file []);
    });
  }

  abbrev pub from_document : {Q : Type 0} → DocumentMessage Q → Extracted
  from_document dm = record {
    kind = document;
    text = text_of dm.caption;
    media = some (record {
      mimetype = text_of dm.file.mimetype;
      file_size = number_of dm.file.file_length;
      filename = text_of dm.file_name;
      width = 0;
      height = 0;
      duration = 0;
      token = encode_media_ref codec (ref_of document dm.file (text_of dm.file_name));
    });
  }

  abbrev pub from_sticker : StickerMessage → Extracted
  from_sticker sm = record {
    kind = sticker;
    text = [];
    media = some (record {
      mimetype = text_of sm.file.mimetype;
      file_size = number_of sm.file.file_length;
      filename = [];
      width = number_of sm.width;
      height = number_of sm.height;
      duration = 0;
      token = encode_media_ref codec (ref_of sticker sm.file []);
    });
  }

  -- The cases of the attachments, in their order.
  unfoldable pub first_attachment :
      {Q : Type 0}
      → Option (ImageMessage Q)
      → Option (VideoMessage Q)
      → Option AudioMessage
      → Option (DocumentMessage Q)
      → Option StickerMessage
      → Option Extracted
  first_attachment (some im) vm am dm sm = some (from_image im)
  first_attachment none (some vm) am dm sm = some (from_video vm)
  first_attachment none none (some am) dm sm = some (from_audio am)
  first_attachment none none none (some dm) sm = some (from_document dm)
  first_attachment none none none none (some sm) = some (from_sticker sm)
  first_attachment none none none none none = none

  unfoldable pub attachment : {Q : Type 0} → Content Q → Option Extracted
  unfolding first_attachment
  attachment c =
      first_attachment c.image_message c.video_message c.audio_message c.document_message
        c.sticker_message

  -- `extractContent`
  unfoldable pub extract_content : {Q : Type 0} → Content Q → Option Extracted
  unfolding attachment
  extract_content c =
      if not (is_empty (text_of c.conversation))
      then some (plain_text (text_of c.conversation))
      else (if not (is_empty (extended_text c.extended_text_message))
          then some (plain_text (extended_text c.extended_text_message))
          else attachment c)
