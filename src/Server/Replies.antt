-- ===== src/Server/Replies.antt =====
-- server/server.go: what every answer of the server is.
use wavonyx.Prelude.{
  if◌then◌else◌, ℕ, ◌≤◌, ◌<◌, ◌≡◌, ◌⊎◌, inl, inr, refl, Bool, true, false, Bool-cases, List, [],
  ◌∷◌, Option, none, some, Str, codes, str_eq, is_empty, take, All, arith,
}
use wavonyx.Errors.{Error, Sentinel, is, as_send_error, as_media_error}
use wavonyx.Server.{Answer, cases, otherwise, classify, classify_by, sanitize_request_id}
use wavonyx.Server.Texts.{IsIdByte, IsQuotable, sanitize_request_id_lem}
use wavonyx.Server.Http.{
  decode_by, max_body_bytes, Request, Payload, Body, data_body, error_body, file_body, Response,
  Config, Lib, request_id, generated_id, Decoding, decoded, end_of_input, malformed, write_data,
  write_error, write_api_error, message_for, decode_json, auth,
}

-- The texts of the answers to errors that are not the client's.
abbrev pub IsFixed : Str → Type 0
IsFixed m =
    (m ≡ codes "internal error")
    ⊎ ((m ≡ codes "failed to send message") ⊎ (m ≡ codes "failed to download media"))

-- The status says what the body is.
abbrev pub Fits : ℕ → Body → Type 0
Fits status (data_body p) = (status ≡ 200) ⊎ (status ≡ 201)
Fits status (error_body code m) = (400 ≤ status) × (status < 600) × ((status < 500) ⊎ IsFixed m)
Fits status (file_body ct name bytes) = (status ≡ 200) × All IsQuotable name

abbrev pub IsSafe : Str → Type 0
IsSafe = All IsIdByte

-- A response whose status fits its body and whose request id may stand in a header.
abbrev pub IsSound : Response → Type 0
IsSound a = Fits a.status a.body × IsSafe a.request_id

abbrev pub SafeHex : Option Str → Type 0
SafeHex none = Unit
SafeHex (some h) = IsSafe h

-- An answer that fits whatever the error's text is.
abbrev FitsError : Answer → Type 0
FitsError a = (m : Str) → Fits a.status (error_body a.code (message_for a.code m))

otherwise-FitsError : (e : Error) → FitsError (otherwise e)
unfolding str_eq
otherwise-FitsError e m = elim (Bool-cases (as_send_error e)) [
  | inl h ↦ rw h (omega arith, omega arith, inr (inr (inl refl)))
  | inr h ↦ elim (Bool-cases (as_media_error e)) [
    | inl k ↦ rw (h, k) (omega arith, omega arith, inr (inr (inr refl)))
    | inr k ↦ rw (h, k) (omega arith, omega arith, inr (inl refl))
  ]
]

-- A case of the table that is the client's fault.
abbrev IsClient : Sentinel × Answer → Type 0
IsClient c = (400 ≤ c.1.status) × (c.1.status < 500)

classify_by-FitsError :
    (table : List (Sentinel × Answer)) (e : Error)
    → All IsClient table
    → FitsError (classify_by table e)
unfolding classify_by
classify_by-FitsError [] e h m = otherwise-FitsError e m
classify_by-FitsError ((s, a) ∷ rest) e ((lo, hi), h) m = elim (Bool-cases (is e s)) [
  | inl k ↦ rw k (lo, omega (arith, hi), inl hi)
  | inr k ↦ rw k (classify_by-FitsError rest e h m)
]

cases-IsClient : All IsClient cases
cases-IsClient = ground arith

module _ {F : Type 0} (lib : Lib) (r : Request F) (hex : SafeHex lib.random_hex) where
  generated_id-IsSafe : (o : Option Str) → SafeHex o → IsSafe (generated_id o)
  generated_id-IsSafe none h = ground arith
  generated_id-IsSafe (some s) h = (
    inl (omega arith, omega arith),
    (
      inl (omega arith, omega arith),
      (inl (omega arith, omega arith), (inr (inr (inr (inr (inl refl)))), h)),
    ),
  )

  or_generated-IsSafe :
      (id : Str) → IsSafe id → IsSafe (if is_empty id then generated_id lib.random_hex else id)
  or_generated-IsSafe [] h = generated_id-IsSafe lib.random_hex hex
  or_generated-IsSafe (c ∷ id) h = h

  pub request_id-IsSafe : (header : Str) → IsSafe (request_id lib header)
  unfolding request_id
  request_id-IsSafe header =
      or_generated-IsSafe (sanitize_request_id header) (sanitize_request_id_lem header).0

  pub write_data-IsSound :
      (code : ℕ) (p : Payload) → (code ≡ 200) ⊎ (code ≡ 201) → IsSound (write_data lib r code p)
  unfolding write_data
  write_data-IsSound code p h = (h, request_id-IsSafe r.request_id)

  pub write_error-IsSound :
      (code : ℕ) (name m : Str) → 400 ≤ code → code < 500 → IsSound (write_error lib r code name m)
  unfolding write_error
  write_error-IsSound code name m lo hi =
      ((lo, omega (arith, hi), inl hi), request_id-IsSafe r.request_id)

  pub write_api_error-IsSound : (e : Error) → IsSound (write_api_error lib r e)
  unfolding write_api_error write_error classify
  write_api_error-IsSound e = (
    classify_by-FitsError cases e cases-IsClient (lib.error_text e),
    request_id-IsSafe r.request_id,
  )

  pub if-IsSound :
      {S : Type 0} (b : Bool) (x y : Response × S)
      → IsSound x.0
      → IsSound y.0
      → IsSound (if b then x else y).0
  if-IsSound true x y h k = h
  if-IsSound false x y h k = k

  pub auth-IsSound :
      {S : Type 0} (cfg : Config) (next : S → Response × S) (s : S)
      → IsSound (next s).0
      → IsSound (auth lib r cfg next s).0
  unfolding auth
  auth-IsSound cfg next s h = if-IsSound (is_empty cfg.api_key) (next s) _ h (
      if-IsSound (str_eq r.api_key cfg.api_key) (next s) _ h (
        write_error-IsSound 401 (codes "unauthorized") (codes "missing or invalid X-API-Key")
          (omega arith) (omega arith)))

  decode_by-IsSound :
      {A S : Type 0} (d : Decoding A) (zero : A) (next : A → S → Response × S) (s : S)
      → ((a : A) (t : S) → IsSound (next a t).0)
      → IsSound (decode_by lib r d zero next s).0
  decode_by-IsSound (decoded a) zero next s h = h a s
  decode_by-IsSound end_of_input zero next s h = h zero s
  decode_by-IsSound malformed zero next s h =
      write_error-IsSound 400 _ _ (omega arith) (omega arith)

  pub decode_json-IsSound :
      {A S : Type 0} (decode : Str → Decoding A) (zero : A) (next : A → S → Response × S) (s : S)
      → ((a : A) (t : S) → IsSound (next a t).0)
      → IsSound (decode_json lib r decode zero next s).0
  unfolding decode_json
  decode_json-IsSound decode zero next s h =
      decode_by-IsSound (decode (take max_body_bytes r.body)) zero next s h
