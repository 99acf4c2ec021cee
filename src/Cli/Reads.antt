-- ===== src/Cli/Reads.antt =====
-- cmd/wavonyx/client.go and server/server.go: the client reads what the server wrote.
use wavonyx.Prelude.{
  true, false, List, ◌≤◌, length, leb, ltb, take_of_length-le, ℕ, ◌≡◌, inl, inr, refl, none, some,
  arith,
}
use wavonyx.Prelude.Int.{ℤ}
use wavonyx.Server.Http.{Request, Payload, Body, data_body, error_body, file_body, Config, Lib}
use wavonyx.Server.Upload.{Parsed, MimeLib}
use wavonyx.Server.Api.{SessionApi}
use wavonyx.Server.Handlers.{Decoder, Route, serve}
use wavonyx.Server.Replies.{Fits, SafeHex}
use wavonyx.Server.Sound.{serve-IsSound}
use wavonyx.Cli.Client.{api_error, got, failed, Envelope, limit, decode_envelope, read_download}

-- The envelope that encoding/json makes of a body that is one; a file is none.
abbrev pub envelope_of : Body → Envelope Payload
envelope_of (data_body p) = record { value = some (got p); error = none }
envelope_of (error_body code m) = record { value = none; error = some (code, m) }
envelope_of (file_body ct name bytes) = record { value = none; error = none }

-- The standard library's part: the bytes of a body that is an envelope, and their decoding.
module _ (marshal : Body → List ℕ) (unmarshal : List ℕ → Envelope Payload) where
  -- The bytes of a body. A file is written as it is.
  abbrev pub bytes_of : Body → List ℕ
  bytes_of (file_body ct name bytes) = bytes
  bytes_of b = marshal b

  -- What is known of the bytes of a body: those of an envelope are decoded to what they encode, and are
  -- at most as many as the client reads. Of a file nothing is known.
  abbrev pub IsReadable : Body → Type 0
  IsReadable (file_body ct name bytes) = Unit
  IsReadable b = (unmarshal (marshal b) ≡ envelope_of b) × (length (marshal b) ≤ limit)

  -- What the client reads: the data, the error, or the bytes of the file.
  abbrev pub IsRead : ℕ → Body → Type 0
  IsRead status (data_body p) = decode_envelope unmarshal status (marshal (data_body p)) ≡ got p
  IsRead status (error_body code m) =
      let e = api_error (record { status = status; code = code; message = m }) in
      (decode_envelope unmarshal status (marshal (error_body code m)) ≡ failed e)
      × (read_download unmarshal status (marshal (error_body code m)) ≡ failed e)
  IsRead status (file_body ct name bytes) = read_download unmarshal status bytes ≡ got bytes

  body-IsRead : (status : ℕ) (b : Body) → Fits status b → IsReadable b → IsRead status b
  unfolding decode_envelope read_download
  body-IsRead status (data_body p) (inl e) (back, small) =
      rw (e, take_of_length-le limit (marshal (data_body p)) small, back) refl
  body-IsRead status (data_body p) (inr e) (back, small) =
      rw (e, take_of_length-le limit (marshal (data_body p)) small, back) refl
  body-IsRead status (error_body code m) (lo, hi, _) (back, small) =
      let late : leb 300 status ≡ true = ground (arith, lo) in
      let early : ltb status 200 ≡ false = ground (arith, lo) in
      rw (late, early, take_of_length-le limit (marshal (error_body code m)) small, back)
        (refl, refl)
  body-IsRead status (file_body ct name bytes) (e, _) r = rw e refl

  -- Whatever the request, the client reads from the server's answer just what the server put into its
  -- body: the data, an error with the status, the code and the message, or the bytes of a file; if
  -- encoding/json gives back the envelope that it wrote, and this has at most 8 MiB.
  pub serve-said :
      {S : Type 0} (api : SessionApi S) (cfg : Config) (lib : Lib) (mime : MimeLib) (dec : Decoder)
      (route : Route) (r : Request (ℤ → Parsed)) (s : S)
      → SafeHex lib.random_hex
      → IsReadable (serve api cfg lib mime dec route r s).0.body
      → IsRead
          (serve api cfg lib mime dec route r s).0.status
          (serve api cfg lib mime dec route r s).0.body
  serve-said api cfg lib mime dec route r s hex readable =
      body-IsRead (serve api cfg lib mime dec route r s).0.status
        (serve api cfg lib mime dec route r s).0.body
        (serve-IsSound api cfg lib mime dec route r s hex).0 readable
