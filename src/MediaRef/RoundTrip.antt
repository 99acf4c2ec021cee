-- ===== src/MediaRef/RoundTrip.antt =====
-- mediaref.go: a token gives back its reference.
use wavonyx.Prelude.{
  ℕ, Bool, true, false, ◌||◌, List, [], ◌∷◌, Str, ◌≡◌, refl, ◌≢◌, ◌↔◌, ◌⊎◌, inl, inr, some,
  is_empty, arith, if◌then◌else◌,
}
use wavonyx.Message.{Kind, text, image, video, audio, voice, document, sticker, other}
use wavonyx.Errors.{Result, ok, err, sentinel, invalid_token}
use wavonyx.MediaRef.{MediaRef, Codec, is_unset, is_incomplete, encode_media_ref, decode_media_ref}

-- The documented behaviour of the two encodings: base64 decoding gives back the bytes, and
-- unmarshalling gives back this reference, as it does when its texts are UTF-8.
pub record IsCodec (c : Codec) (r : MediaRef) : Type 0 where
  pub base64_back : (b : List ℕ) → c.decode_base64 (c.encode_base64 b) ≡ some b
  pub json_back : c.unmarshal (c.marshal r) ≡ some r

pub decoded_by :
    (c : Codec) (r : MediaRef)
    → IsCodec c r
    → decode_media_ref c (encode_media_ref c r)
      ≡ (if is_incomplete r then err (sentinel invalid_token) else ok r)
unfolding decode_media_ref encode_media_ref
decoded_by c r v = rw (v.base64_back, v.json_back)

-- A reference has what a download needs: a kind, a path and a key.
abbrev pub IsComplete : MediaRef → Type 0
IsComplete r = (r.kind ≢ Kind.unset) × (r.direct_path ≢ []) × (r.media_key ≢ [])

is_unset_iff : (k : Kind) → (is_unset k ≡ false) ↔ (k ≢ Kind.unset)
is_unset_iff Kind.unset = (λ h. absurd (cc), λ h. absurd (h refl))
is_unset_iff text = (λ h e. cc, λ h. refl)
is_unset_iff image = (λ h e. cc, λ h. refl)
is_unset_iff video = (λ h e. cc, λ h. refl)
is_unset_iff audio = (λ h e. cc, λ h. refl)
is_unset_iff voice = (λ h e. cc, λ h. refl)
is_unset_iff document = (λ h e. cc, λ h. refl)
is_unset_iff sticker = (λ h e. cc, λ h. refl)
is_unset_iff (other s) = (λ h e. cc, λ h. refl)

is_empty_iff : (s : Str) → (is_empty s ≡ false) ↔ (s ≢ [])
is_empty_iff [] = (λ h. absurd (cc), λ h. absurd (h refl))
is_empty_iff (c ∷ s) = (λ h e. cc, λ h. refl)

all_false : (a b c : Bool) → ((a || b || c) ≡ false) ↔ ((a ≡ false) × (b ≡ false) × (c ≡ false))
all_false a b c = (λ h. ground arith, λ h. ground arith)

is_incomplete_iff : (r : MediaRef) → (is_incomplete r ≡ false) ↔ IsComplete r
is_incomplete_iff r =
    let split = all_false (is_unset r.kind) (is_empty r.direct_path) (is_empty r.media_key) in
    (
      λ h.
          let (a, b, c) = split.0 h in
          (
            (is_unset_iff r.kind).0 a,
            (is_empty_iff r.direct_path).0 b,
            (is_empty_iff r.media_key).0 c,
          ),
      λ (a, b, c). split.1 (
        (is_unset_iff r.kind).1 a,
        (is_empty_iff r.direct_path).1 b,
        (is_empty_iff r.media_key).1 c,
      ),
    )

decided_by :
    (b : Bool) (r : MediaRef) (x : Result MediaRef)
    → (b ≡ false) ↔ IsComplete r
    → x ≡ (if b then err (sentinel invalid_token) else ok r)
    → ((x ≡ ok r) ↔ IsComplete r) × ((x ≡ ok r) ⊎ (x ≡ err (sentinel invalid_token)))
decided_by true r x i e = ((λ h. absurd (cc), λ c. absurd (ground (arith, i.1 c))), inr e)
decided_by false r x i e = ((λ h. i.0 refl, λ c. e), inl e)

-- Where the two encodings give back what they encode, the token of a reference decodes to that
-- reference if it has a kind, a path and a key, and only then; otherwise the token is refused as
-- an invalid token.
pub decode-encode :
    (c : Codec) (r : MediaRef)
    → IsCodec c r
    → ((decode_media_ref c (encode_media_ref c r) ≡ ok r) ↔ IsComplete r)
      × ((decode_media_ref c (encode_media_ref c r) ≡ ok r)
          ⊎ (decode_media_ref c (encode_media_ref c r) ≡ err (sentinel invalid_token)))
decode-encode c r v =
    decided_by (is_incomplete r) r (decode_media_ref c (encode_media_ref c r)) (is_incomplete_iff r)
      (decoded_by c r v)
