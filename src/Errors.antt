-- ===== src/Errors.antt =====
-- errors.go and the sentinels of internal/registry/registry.go: errors as values.
use wavonyx.Prelude.{ℕ, Bool, true, false, ◌==◌}
use wavonyx.Prelude.{Str}

-- The sentinel errors, and the registry's two.
pub data Sentinel : Type 0 where
  invalid_session_id session_not_found session_exists already_connected not_connected : Sentinel
  not_logged_in qr_not_available queue_full invalid_recipient empty_text invalid_typing : Sentinel
  invalid_token missing_media media_too_large invalid_webhook : Sentinel
  registry_not_found registry_exists : Sentinel

-- `outside` is an error of code that is not the program's, by its text; the context's two errors
-- are among them.
pub data Error : Type 0 where
  sentinel : Sentinel → Error
  send_error : Str → Error → Error
  media_error : Error → Error
  outside : Str → Error

-- A result `(T, error)` of Go, of which one part is meaningful.
pub data Result {ℓ} (A : Type ℓ) : Type ℓ where
  ok : A → Result A
  err : Error → Result A

-- An early return of a sentinel unless a test holds.
abbrev pub guard : Bool → Sentinel → Result (Unit {0})
guard false t = err (sentinel t)
guard true t = ok tt

infixl 5 ◌>>=◌ ◌>>◌
abbrev pub ◌>>=◌ {ℓ κ} : {A : Type ℓ} {B : Type κ} → Result A → (A → Result B) → Result B
err x >>= next = err x
ok value >>= next = next value

abbrev pub ◌>>◌ {κ} : {B : Type κ} → Result (Unit {0}) → Result B → Result B
first >> second = first >>= λ _. second

abbrev pub number : Sentinel → ℕ
number invalid_session_id = 0
number session_not_found = 1
number session_exists = 2
number already_connected = 3
number not_connected = 4
number not_logged_in = 5
number qr_not_available = 6
number queue_full = 7
number invalid_recipient = 8
number empty_text = 9
number invalid_typing = 10
number invalid_token = 11
number missing_media = 12
number media_too_large = 13
number invalid_webhook = 14
number registry_not_found = 15
number registry_exists = 16

-- `errors.Is`: the error or what it unwraps to is the sentinel.
unfoldable pub is : Error → Sentinel → Bool
is (sentinel s) t = number s == number t
is (send_error to e) t = is e t
is (media_error e) t = is e t
is (outside text) t = false

-- `errors.As` with a `*SendError` and with a `*MediaError`.
unfoldable pub as_send_error : Error → Bool
as_send_error (sentinel s) = false
as_send_error (send_error to e) = true
as_send_error (media_error e) = as_send_error e
as_send_error (outside text) = false

unfoldable pub as_media_error : Error → Bool
as_media_error (sentinel s) = false
as_media_error (send_error to e) = as_media_error e
as_media_error (media_error e) = true
as_media_error (outside text) = false
