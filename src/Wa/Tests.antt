-- ===== src/Wa/Tests.antt =====
-- The adapter at work.
use wavonyx.Prelude.{◌≡◌, refl, [], ◌∷◌, some, codes}
use wavonyx.Prelude.Int.{pos}
use wavonyx.Errors.{ok}
use wavonyx.Message.{voice}
use wavonyx.MediaRef.{encode_media_ref, decode_media_ref}
use wavonyx.MediaRef.RoundTrip.{IsCodec}
use wavonyx.MediaRef.Tests.{plain_codec}
use wavonyx.Session.State.{OutboundMedia}
use wavonyx.Session.Tests.{start}
use wavonyx.Parse.Extract.{extract_content}
use wavonyx.Wa.Media.{UploadResponse, build_media_message, reconstruct_downloadable}
use wavonyx.Wa.RoundTrip.{
  sent_ref, read_back, sent_file, uploaded_file, extract_content-build_media_message,
}
use wavonyx.Ring.{new_ring}
use wavonyx.Session.State.{World}

abbrev brochure : OutboundMedia
brochure = record {
  bytes = 1 ∷ 2 ∷ [];
  mimetype = codes "application/pdf";
  kind = wavonyx.Message.document;
  caption = codes "see page 2";
  filename = codes "a.pdf";
}

abbrev answer : UploadResponse
answer = record {
  url = codes "https://mmg";
  direct_path = codes "/v/t62";
  media_key = 7 ∷ [];
  file_enc_sha256 = 8 ∷ [];
  file_sha256 = 9 ∷ [];
  file_length = 2;
}

plain_codec-brochure : IsCodec plain_codec (sent_ref brochure answer)
plain_codec-brochure = record { base64_back = λ b. refl; json_back = refl }

extract_content-build_media_message_example :
    (extract_content plain_codec (build_media_message {Q = Unit {0}} brochure answer)
      ≡ some (read_back plain_codec brochure answer))
    × (decode_media_ref plain_codec (encode_media_ref plain_codec (sent_ref brochure answer))
        ≡ ok (sent_ref brochure answer))
    × (reconstruct_downloadable (sent_ref brochure answer)
        ≡ some (sent_file wavonyx.Message.document (uploaded_file brochure answer)))
extract_content-build_media_message_example =
    extract_content-build_media_message (Unit {0}) plain_codec brochure answer plain_codec-brochure
      refl refl

abbrev ready : World
ready = record start { session = record start.session { ring = new_ring (pos 3) } }
