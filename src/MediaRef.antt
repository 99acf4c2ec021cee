-- ===== src/MediaRef.antt =====
-- mediaref.go: the download reference of an attachment and its token.
pub mod RoundTrip
pub mod Tests
use wavonyx.Prelude.{
  ℕ, Bool, true, false, ◌||◌, List, Option, none, some, Str, is_empty, if◌then◌else◌,
}
use wavonyx.Errors.{Error, sentinel, invalid_token, Result, ok, err, ◌>>=◌, ◌>>◌, guard}
use wavonyx.Message.{Kind}

pub record MediaRef : Type 0 where
  pub kind : Kind
  pub url : Str
  pub direct_path : Str
  pub media_key : List ℕ
  pub enc_sha256 : List ℕ
  pub sha256 : List ℕ
  pub file_length : ℕ
  pub mimetype : Str
  pub filename : Str

-- encoding/json on a `mediaRef`, and base64.RawURLEncoding: texts and bytes are lists of bytes.
pub record Codec : Type 0 where
  pub marshal : MediaRef → List ℕ
  pub unmarshal : List ℕ → Option MediaRef
  pub encode_base64 : List ℕ → Str
  pub decode_base64 : Str → Option (List ℕ)

abbrev pub is_unset : Kind → Bool
is_unset Kind.unset = true
is_unset _ = false

-- Whether a field that the download needs is missing.
abbrev pub is_incomplete : MediaRef → Bool
is_incomplete r = is_unset r.kind || is_empty r.direct_path || is_empty r.media_key

abbrev or_invalid {ℓ} : {A : Type ℓ} → Option A → Result A
or_invalid none = err (sentinel invalid_token)
or_invalid (some a) = ok a

module _ (c : Codec) where
  unfoldable pub encode_media_ref : MediaRef → Str
  encode_media_ref r = c.encode_base64 (c.marshal r)

  unfoldable pub decode_media_ref : Str → Result MediaRef
  decode_media_ref token = do
    raw ← or_invalid (c.decode_base64 token)
    r ← or_invalid (c.unmarshal raw)
    if is_incomplete r then err (sentinel invalid_token) else ok r
