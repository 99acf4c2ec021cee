-- ===== src/Wa/RoundTrip.antt =====
-- wa.go, parse.go and mediaref.go: an attachment that is sent reads back as itself.
use wavonyx.Prelude.{◌≡◌, refl, ap, ◌∙◌, false, [], ◌∷◌, some, Str, arith, is_empty, if◌then◌else◌}
use wavonyx.Errors.{ok, err, sentinel, invalid_token}
use wavonyx.Message.{Kind, unset, text, image, video, audio, voice, document, sticker, other}
use wavonyx.MediaRef.{MediaRef, Codec, encode_media_ref, decode_media_ref, is_incomplete}
use wavonyx.MediaRef.RoundTrip.{IsCodec, decoded_by}
use wavonyx.Session.State.{OutboundMedia}
use wavonyx.Wire.{FilePart, text_of}
use wavonyx.Parse.Extract.{first_attachment, Extracted, extract_content, attachment}
use wavonyx.Wa.Media.{
  image_file, document_file, audio_file, video_file, UploadResponse, str_or_nil, build_by,
  build_media_message, Downloadable, reconstruct_downloadable,
}

-- The kind under which an attachment is sent: an image, unless it is one of four others.
abbrev pub sent_kind : Kind → Kind
sent_kind video = video
sent_kind audio = audio
sent_kind voice = voice
sent_kind document = document
sent_kind _ = image

-- Sounds have no caption, and only documents have a file name.
abbrev pub sent_caption : Kind → Str → Str
sent_caption audio s = []
sent_caption voice s = []
sent_caption _ s = s

abbrev pub sent_filename : Kind → Str → Str
sent_filename document s = s
sent_filename _ s = []

-- The reference of an attachment that was uploaded: each field is the answer's of that name.
abbrev pub sent_ref : OutboundMedia → UploadResponse → MediaRef
sent_ref m up = record {
  kind = sent_kind m.kind;
  url = up.url;
  direct_path = up.direct_path;
  media_key = up.media_key;
  enc_sha256 = up.file_enc_sha256;
  sha256 = up.file_sha256;
  file_length = up.file_length;
  mimetype = m.mimetype;
  filename = sent_filename m.kind m.filename;
}

-- The file that was uploaded, as the library is asked for it.
abbrev pub uploaded_file : OutboundMedia → UploadResponse → FilePart
uploaded_file m up = record {
  url = some up.url;
  direct_path = some up.direct_path;
  media_key = up.media_key;
  file_enc_sha256 = up.file_enc_sha256;
  file_sha256 = up.file_sha256;
  file_length = some up.file_length;
  mimetype = some m.mimetype;
}

abbrev pub read_back : Codec → OutboundMedia → UploadResponse → Extracted
read_back codec m up = record {
  kind = sent_kind m.kind;
  text = sent_caption m.kind m.caption;
  media = some (record {
    mimetype = m.mimetype;
    file_size = up.file_length;
    filename = sent_filename m.kind m.filename;
    width = 0;
    height = 0;
    duration = 0;
    token = encode_media_ref codec (sent_ref m up);
  });
}

-- The type of message that is asked for when the attachment is downloaded again.
abbrev pub sent_file : Kind → FilePart → Downloadable
sent_file video f = video_file f
sent_file audio f = audio_file f
sent_file voice f = audio_file f
sent_file document f = document_file f
sent_file _ f = image_file f

text_of-str_or_nil : (s : Str) → text_of (str_or_nil s) ≡ s
unfolding str_or_nil
text_of-str_or_nil [] = refl
text_of-str_or_nil (c ∷ s) = refl

module _ (Q : Type 0) (codec : Codec) (m : OutboundMedia) (up : UploadResponse) where
  build_by-extract_content :
      (k : Kind)
      → extract_content codec (build_by {Q = Q} k m up)
        ≡ some (read_back codec (record m { kind = k }) up)
  unfolding extract_content attachment first_attachment
  build_by-extract_content unset = rw (text_of-str_or_nil m.caption)
  build_by-extract_content text = rw (text_of-str_or_nil m.caption)
  build_by-extract_content image = rw (text_of-str_or_nil m.caption)
  build_by-extract_content video = rw (text_of-str_or_nil m.caption)
  build_by-extract_content audio = refl
  build_by-extract_content voice = refl
  build_by-extract_content document =
      rw (text_of-str_or_nil m.caption, text_of-str_or_nil m.filename)
  build_by-extract_content sticker = rw (text_of-str_or_nil m.caption)
  build_by-extract_content (other s) = rw (text_of-str_or_nil m.caption)

  sent_ref_complete :
      (k : Kind)
      → is_empty up.direct_path ≡ false
      → is_empty up.media_key ≡ false
      → is_incomplete (sent_ref (record m { kind = k }) up) ≡ false
  sent_ref_complete unset p q = ground (arith, p, q)
  sent_ref_complete text p q = ground (arith, p, q)
  sent_ref_complete image p q = ground (arith, p, q)
  sent_ref_complete video p q = ground (arith, p, q)
  sent_ref_complete audio p q = ground (arith, p, q)
  sent_ref_complete voice p q = ground (arith, p, q)
  sent_ref_complete document p q = ground (arith, p, q)
  sent_ref_complete sticker p q = ground (arith, p, q)
  sent_ref_complete (other s) p q = ground (arith, p, q)

  sent_ref_downloadable :
      (k : Kind)
      → reconstruct_downloadable (sent_ref (record m { kind = k }) up)
        ≡ some (sent_file k (uploaded_file m up))
  unfolding reconstruct_downloadable
  sent_ref_downloadable unset = refl
  sent_ref_downloadable text = refl
  sent_ref_downloadable image = refl
  sent_ref_downloadable video = refl
  sent_ref_downloadable audio = refl
  sent_ref_downloadable voice = refl
  sent_ref_downloadable document = refl
  sent_ref_downloadable sticker = refl
  sent_ref_downloadable (other s) = refl

  -- An attachment that is uploaded and sent reads back, as a message that is received, under the kind,
  -- the caption and the file name that it was sent with (an unknown kind as an image, a sound without
  -- a caption), with the size of the upload. If the upload has a path and a key, and the two encodings
  -- give back what they encode, the token of what was read decodes to a reference for which the
  -- library is asked for just the uploaded file.
  pub extract_content-build_media_message :
      IsCodec codec (sent_ref m up)
      → is_empty up.direct_path ≡ false
      → is_empty up.media_key ≡ false
      → (extract_content codec (build_media_message {Q = Q} m up) ≡ some (read_back codec m up))
        × (decode_media_ref codec (encode_media_ref codec (sent_ref m up)) ≡ ok (sent_ref m up))
        × (reconstruct_downloadable (sent_ref m up) ≡ some (sent_file m.kind (uploaded_file m up)))
  unfolding build_media_message
  extract_content-build_media_message law p k = (
    build_by-extract_content m.kind,
    decoded_by codec (sent_ref m up) law
        ∙ ap (λ b. if b then err (sentinel invalid_token) else ok (sent_ref m up))
            (sent_ref_complete m.kind p k),
    sent_ref_downloadable m.kind,
  )
