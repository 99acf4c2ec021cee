-- ===== src/Wa/Media.antt =====
-- wa.go: the messages that carry an attachment, out and back.
use wavonyx.Prelude.{ℕ, Bool, true, List, Option, none, some, Str, is_empty, if◌then◌else◌}
use wavonyx.Message.{Kind, image, video, audio, voice, document, sticker}
use wavonyx.MediaRef.{MediaRef}
use wavonyx.Session.State.{OutboundMedia}
use wavonyx.Wire.{FilePart, Content, empty_content}

pub data MediaType : Type 0 where
  media_image media_video media_audio media_document : MediaType

-- `mediaTypeFor`
unfoldable pub media_type_for : Kind → MediaType
media_type_for video = media_video
media_type_for audio = media_audio
media_type_for voice = media_audio
media_type_for document = media_document
media_type_for _ = media_image

-- A `whatsmeow.UploadResponse`.
pub record UploadResponse : Type 0 where
  pub url : Str
  pub direct_path : Str
  pub media_key : List ℕ
  pub file_enc_sha256 : List ℕ
  pub file_sha256 : List ℕ
  pub file_length : ℕ

-- `strOrNil`
unfoldable pub str_or_nil : Str → Option Str
str_or_nil s = if is_empty s then none else some s

-- The fields that the four cases of `buildMediaMessage` fill alike.
abbrev pub uploaded : OutboundMedia → UploadResponse → FilePart
uploaded m up = record {
  url = some up.url;
  direct_path = some up.direct_path;
  media_key = up.media_key;
  file_enc_sha256 = up.file_enc_sha256;
  file_sha256 = up.file_sha256;
  file_length = some up.file_length;
  mimetype = some m.mimetype;
}

module _ {Q : Type 0} where
  abbrev pub build_video : OutboundMedia → UploadResponse → Content Q
  build_video m up = record empty_content {
    video_message = some (record {
      file = uploaded m up;
      caption = str_or_nil m.caption;
      width = none;
      height = none;
      seconds = none;
      context_info = none;
    });
  }

  abbrev pub build_audio : Option Bool → OutboundMedia → UploadResponse → Content Q
  build_audio ptt m up = record empty_content {
    audio_message = some (record { file = uploaded m up; ptt = ptt; seconds = none });
  }

  abbrev pub build_document : OutboundMedia → UploadResponse → Content Q
  build_document m up = record empty_content {
    document_message = some (record {
      file = uploaded m up;
      caption = str_or_nil m.caption;
      file_name = str_or_nil m.filename;
      context_info = none;
    });
  }

  abbrev pub build_image : OutboundMedia → UploadResponse → Content Q
  build_image m up = record empty_content {
    image_message = some (record {
      file = uploaded m up;
      caption = str_or_nil m.caption;
      width = none;
      height = none;
      context_info = none;
    });
  }

  abbrev pub build_by : Kind → OutboundMedia → UploadResponse → Content Q
  build_by video m up = build_video m up
  build_by audio m up = build_audio none m up
  build_by voice m up = build_audio (some true) m up
  build_by document m up = build_document m up
  build_by _ m up = build_image m up

  -- `buildMediaMessage`
  unfoldable pub build_media_message : OutboundMedia → UploadResponse → Content Q
  unfolding str_or_nil
  build_media_message m up = build_by m.kind m up

-- What the library is asked to download: one of five types of message, with the fields of the file.
pub data Downloadable : Type 0 where
  image_file video_file audio_file document_file sticker_file : FilePart → Downloadable

abbrev pub stored_file : MediaRef → FilePart
stored_file r = record {
  url = some r.url;
  direct_path = some r.direct_path;
  media_key = r.media_key;
  file_enc_sha256 = r.enc_sha256;
  file_sha256 = r.sha256;
  file_length = some r.file_length;
  mimetype = some r.mimetype;
}

abbrev pub downloadable_by : Kind → FilePart → Option Downloadable
downloadable_by image f = some (image_file f)
downloadable_by video f = some (video_file f)
downloadable_by audio f = some (audio_file f)
downloadable_by voice f = some (audio_file f)
downloadable_by document f = some (document_file f)
downloadable_by sticker f = some (sticker_file f)
downloadable_by _ f = none

-- `reconstructDownloadable`
unfoldable pub reconstruct_downloadable : MediaRef → Option Downloadable
reconstruct_downloadable r = downloadable_by r.kind (stored_file r)
