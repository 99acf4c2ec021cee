-- ===== src/Parse/Content.antt =====
-- parse.go: what an extracted content is.
use mathlib.Core.Bool.{true}
use wavonyx.Wire.{
  Content, FilePart, number_of, text_of, StickerMessage, DocumentMessage, VideoMessage,
  ImageMessage, AudioMessage,
}
use wavonyx.Parse.Extract.{
  sound_kind, extended_text, plain_text, attachment, extract_content, from_audio, ref_of, Extracted,
  first_attachment,
}
use wavonyx.Prelude.{
  refl, ◌∷◌, ℕ, not, [], if◌then◌else◌, Bool, ◌≡◌, false, Option, none, some, Str, is_empty,
}
use wavonyx.Message.{
  sticker, document, video, image, audio, voice, Kind, unset, text, other, MediaInfo,
}
use wavonyx.MediaRef.{MediaRef, Codec, encode_media_ref}
use wavonyx.Wa.Media.{Downloadable, reconstruct_downloadable}

-- What a media description says of its token: it stands for a file that the library can be asked for.
abbrev pub Refers : Codec → Kind → MediaInfo → Type 0
Refers codec k info =
    (r : MediaRef) × (d : Downloadable) × (info.token ≡ encode_media_ref codec r)
    × (reconstruct_downloadable r ≡ some d)
    × (r.kind ≡ k)
    × (r.mimetype ≡ info.mimetype)
    × (r.file_length ≡ info.file_size)
    × (r.filename ≡ info.filename)

-- A text has letters and no attachment; every other kind has one attachment.
abbrev pub IsContent : Codec → Kind → Str → Option MediaInfo → Type 0
IsContent codec text s media = (is_empty s ≡ false) × (media ≡ none)
IsContent codec unset s media = ⊥
IsContent codec (other k) s media = ⊥
IsContent codec k s media = (info : MediaInfo) × (media ≡ some info) × Refers codec k info

-- What was extracted, if anything was, is content.
abbrev pub AllContent : Codec → Option Extracted → Type 0
AllContent codec none = Unit
AllContent codec (some x) = IsContent codec x.kind x.text x.media

module _ (codec : Codec) where
  sound-IsContent :
      (ptt : Option Bool) (f : FilePart) (seconds : ℕ)
      → IsContent codec (sound_kind ptt) [] (
          some (record {
            mimetype = text_of f.mimetype;
            file_size = number_of f.file_length;
            filename = [];
            width = 0;
            height = 0;
            duration = seconds;
            token = encode_media_ref codec (ref_of (sound_kind ptt) f []);
          }))
  unfolding reconstruct_downloadable
  sound-IsContent none f s = (_, refl, (ref_of audio f [], _, refl, refl, refl, refl, refl, refl))
  sound-IsContent (some false) f s =
      (_, refl, (ref_of audio f [], _, refl, refl, refl, refl, refl, refl))
  sound-IsContent (some true) f s =
      (_, refl, (ref_of voice f [], _, refl, refl, refl, refl, refl, refl))

  sound-AllContent : (am : AudioMessage) → AllContent codec (some (from_audio codec am))
  sound-AllContent am = sound-IsContent am.ptt am.file (number_of am.seconds)

  first_attachment-AllContent :
      {Q : Type 0} (im : Option (ImageMessage Q)) (vm : Option (VideoMessage Q))
      (am : Option AudioMessage) (dm : Option (DocumentMessage Q)) (sm : Option StickerMessage)
      → AllContent codec (first_attachment codec im vm am dm sm)
  unfolding first_attachment reconstruct_downloadable
  first_attachment-AllContent (some im) vm am dm sm =
      (_, refl, (ref_of image im.file [], _, refl, refl, refl, refl, refl, refl))
  first_attachment-AllContent none (some vm) am dm sm =
      (_, refl, (ref_of video vm.file [], _, refl, refl, refl, refl, refl, refl))
  first_attachment-AllContent none none (some am) dm sm = sound-AllContent am
  first_attachment-AllContent none none none (some dm) sm = (
    _,
    refl,
    (ref_of document dm.file (text_of dm.file_name), _, refl, refl, refl, refl, refl, refl),
  )
  first_attachment-AllContent none none none none (some sm) =
      (_, refl, (ref_of sticker sm.file [], _, refl, refl, refl, refl, refl, refl))
  first_attachment-AllContent none none none none none = tt

  if-AllContent :
      (s : Str) (o : Option Extracted)
      → AllContent codec o
      → AllContent codec (if not (is_empty s) then some (plain_text s) else o)
  if-AllContent [] o h = h
  if-AllContent (c ∷ s) o h = (refl, refl)

  pub extract_content-AllContent :
      {Q : Type 0} (c : Content Q) → AllContent codec (extract_content codec c)
  unfolding extract_content attachment
  extract_content-AllContent c = if-AllContent (text_of c.conversation) _ (
      if-AllContent (extended_text c.extended_text_message) _ (
        first_attachment-AllContent c.image_message c.video_message c.audio_message
          c.document_message c.sticker_message))
