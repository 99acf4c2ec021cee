-- ===== src/MediaRef/Tests.antt =====
-- A token at work, with a codec that writes each field behind its length.
use wavonyx.Prelude.{
  ℕ, zero, suc, ◌≡◌, ◌↔◌, ◌⊎◌, refl, List, [], ◌∷◌, ◌++◌, Option, none, some, codes, length,
}
use wavonyx.Errors.{ok, err, sentinel, invalid_token}
use wavonyx.Message.{Kind, unset, image, video, audio, document}
use wavonyx.MediaRef.{MediaRef, Codec, encode_media_ref, decode_media_ref}
use wavonyx.MediaRef.RoundTrip.{IsCodec, IsComplete, decode-encode}

abbrev put : List ℕ → List ℕ → List ℕ
put xs rest = length xs ∷ xs ++ rest

abbrev split_at : ℕ → List ℕ → List ℕ × List ℕ
split_at zero xs = ([], xs)
split_at (suc n) [] = ([], [])
split_at (suc n) (x ∷ xs) = let (front, back) = split_at n xs in (x ∷ front, back)

abbrev get : List ℕ → List ℕ × List ℕ
get [] = ([], [])
get (n ∷ xs) = split_at n xs

abbrev kind_number : Kind → ℕ
kind_number image = 1
kind_number video = 2
kind_number audio = 3
kind_number document = 4
kind_number _ = 0

abbrev kind_of : ℕ → Kind
kind_of zero = unset
kind_of (suc zero) = image
kind_of (suc (suc zero)) = video
kind_of (suc (suc (suc zero))) = audio
kind_of _ = document

abbrev write : MediaRef → List ℕ
write r =
    kind_number r.kind
    ∷ r.file_length
    ∷ put r.url (
        put r.direct_path
          (put r.media_key (put r.enc_sha256 (put r.sha256 (put r.mimetype (put r.filename []))))))

abbrev read_fields : ℕ → ℕ → List ℕ → MediaRef
read_fields k n xs =
    let (a, xs1) = get xs in
    let (b, xs2) = get xs1 in
    let (c, xs3) = get xs2 in
    let (d, xs4) = get xs3 in
    let (e, xs5) = get xs4 in
    let (f, xs6) = get xs5 in
    record {
      kind = kind_of k;
      url = a;
      direct_path = b;
      media_key = c;
      enc_sha256 = d;
      sha256 = e;
      file_length = n;
      mimetype = f;
      filename = (get xs6).0;
    }

abbrev read : List ℕ → Option MediaRef
read (k ∷ n ∷ xs) = some (read_fields k n xs)
read _ = none

abbrev pub plain_codec : Codec
plain_codec = record {
  marshal = write;
  unmarshal = read;
  encode_base64 = λ b. b;
  decode_base64 = some;
}

abbrev pub photo : MediaRef
photo = record {
  kind = image;
  url = [];
  direct_path = codes "/v/t62";
  media_key = 7 ∷ [];
  enc_sha256 = [];
  sha256 = [];
  file_length = 5;
  mimetype = codes "image/png";
  filename = [];
}

plain_codec-IsCodec : IsCodec plain_codec photo
plain_codec-IsCodec = record { base64_back = λ b. refl; json_back = refl }

decode-encode_example :
    ((decode_media_ref plain_codec (encode_media_ref plain_codec photo) ≡ ok photo)
      ↔ IsComplete photo)
    × ((decode_media_ref plain_codec (encode_media_ref plain_codec photo) ≡ ok photo)
        ⊎ (decode_media_ref plain_codec (encode_media_ref plain_codec photo)
            ≡ err (sentinel invalid_token)))
decode-encode_example = decode-encode plain_codec photo plain_codec-IsCodec
