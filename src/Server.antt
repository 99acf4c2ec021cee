-- ===== src/Server.antt =====
-- server/server.go: the answers to errors, and what is taken from a request's texts.
pub mod Errors
pub mod Texts
pub mod Http
pub mod Upload
pub mod Api
pub mod Handlers
pub mod Access
pub mod Replies
pub mod Sound
pub mod Managed
pub mod Tests
use wavonyx.Prelude.{
  ℕ, Bool, true, false, ◌&&◌, ◌||◌, List, [], ◌∷◌, Option, none, some, Str, codes, is_empty, take,
  leb, ◌==◌, if◌then◌else◌,
}
use wavonyx.Errors.{
  Error, Sentinel, is, as_send_error, as_media_error, invalid_session_id, session_not_found,
  session_exists, already_connected, not_connected, not_logged_in, qr_not_available, queue_full,
  invalid_recipient, empty_text, invalid_typing, invalid_token, missing_media, media_too_large,
  invalid_webhook,
}

-- The status and the code of an error answer.
pub record Answer : Type 0 where
  pub status : ℕ
  pub code : Str

abbrev pub answer : ℕ → Str → Answer
answer status code = record { status = status; code = code }

-- The cases of `classify` that test for a sentinel, in their order.
abbrev pub cases : List (Sentinel × Answer)
cases =
    (invalid_session_id, answer 400 (codes "invalid_session_id"))
    ∷ (empty_text, answer 400 (codes "missing_text"))
    ∷ (invalid_recipient, answer 400 (codes "invalid_recipient"))
    ∷ (invalid_typing, answer 400 (codes "invalid_typing"))
    ∷ (invalid_token, answer 400 (codes "invalid_token"))
    ∷ (missing_media, answer 400 (codes "missing_media"))
    ∷ (invalid_webhook, answer 400 (codes "invalid_webhook"))
    ∷ (media_too_large, answer 413 (codes "media_too_large"))
    ∷ (session_not_found, answer 404 (codes "session_not_found"))
    ∷ (qr_not_available, answer 404 (codes "qr_not_available"))
    ∷ (session_exists, answer 409 (codes "session_exists"))
    ∷ (already_connected, answer 409 (codes "already_connected"))
    ∷ (not_connected, answer 409 (codes "not_connected"))
    ∷ (not_logged_in, answer 409 (codes "not_logged_in"))
    ∷ (queue_full, answer 429 (codes "queue_full"))
    ∷ []

-- What follows the switch.
abbrev pub otherwise : Error → Answer
otherwise e =
    if as_send_error e
    then answer 502 (codes "send_failed")
    else if as_media_error e
    then answer 502 (codes "media_download_failed")
    else answer 500 (codes "internal")

unfoldable pub classify_by : List (Sentinel × Answer) → Error → Answer
classify_by [] e = otherwise e
classify_by ((s, a) ∷ rest) e = if is e s then a else classify_by rest e

-- `classify`
unfoldable pub classify : Error → Answer
classify e = classify_by cases e

abbrev between : ℕ → ℕ → ℕ → Bool
between lo hi c = leb lo c && leb c hi

-- The bytes that a request id may have.
abbrev pub is_id_byte : ℕ → Bool
is_id_byte c =
    between b'a' b'z' c
    || between b'A' b'Z' c
    || between b'0' b'9' c
    || c == b'-'
    || c == b'_'
    || c == b'.'

unfoldable pub keep : (ℕ → Bool) → Str → Str
keep p [] = []
keep p (c ∷ s) = if p c then c ∷ keep p s else keep p s

-- `sanitizeRequestID`, on bytes: a rune that is not ASCII is dropped with all its bytes.
unfoldable pub sanitize_request_id : Str → Str
unfolding keep
sanitize_request_id s = keep is_id_byte (take 128 s)

-- `strings.ReplaceAll` of one byte by another.
unfoldable pub replace : ℕ → ℕ → Str → Str
replace c d [] = []
replace c d (x ∷ s) = (if x == c then d else x) ∷ replace c d s

abbrev pub is_not_quote : ℕ → Bool
is_not_quote c = if c == b'"' then false else true

abbrev pub or_download : Str → Str
or_download s = if is_empty s then codes "download" else s

-- `sanitizeFilename`
unfoldable pub sanitize_filename : Str → Str
unfolding keep replace
sanitize_filename s = or_download (keep is_not_quote (replace 13 b' ' (replace 10 b' ' s)))
