-- ===== src/Server/Texts.antt =====
-- server/server.go: what is left of a request id and of a file name.
use mathlib.Core.Path.{subst}
use mathlib.Core.Option
use wavonyx.Prelude.{
  ◌↔◌, ◌⊎◌, ◌||◌, ◌==◌, false, Option, none, some, is_empty, if◌then◌else◌, ℕ, ◌≤◌, ◌≡◌, refl, ap,
  ◌∙◌, ◌≢◌, true, Bool, [], ◌∷◌, Str, take, length, All, arith, take_of_length-le, length-take,
}
use wavonyx.Server.{
  is_id_byte, keep, sanitize_request_id, replace, is_not_quote, or_download, sanitize_filename,
}

keep-All : (p : ℕ → Bool) (s : Str) → All (λ c. p c ≡ true) (keep p s)
unfolding keep
keep-All p [] = tt
keep-All p (c ∷ s) = ground (arith, keep-All p s)

length-keep-le : (p : ℕ → Bool) (s : Str) → length (keep p s) ≤ length s
unfolding keep
length-keep-le p [] = omega arith
length-keep-le p (c ∷ s) = ground (arith, length-keep-le p s)

keep_of_All : (p : ℕ → Bool) (s : Str) → All (λ c. p c ≡ true) s → keep p s ≡ s
unfolding keep
keep_of_All p [] h = refl
keep_of_All p (c ∷ s) (h, k) = rw (h, keep_of_All p s k)

sanitized_length : (s : Str) → length (sanitize_request_id s) ≤ 128
unfolding sanitize_request_id
sanitized_length s = omega (arith, length-keep-le is_id_byte (take 128 s), length-take 128 s)

-- The bytes of an echoed id: a letter from a to z or A to Z, a digit, a dash, an underscore or a full stop.
abbrev pub IsIdByte : ℕ → Type 0
IsIdByte c =
    ((97 ≤ c) × (c ≤ 122))
    ⊎ ((65 ≤ c) × (c ≤ 90))
    ⊎ ((48 ≤ c) × (c ≤ 57))
    ⊎ (c ≡ 45)
    ⊎ (c ≡ 95)
    ⊎ (c ≡ 46)

safe : (c : ℕ) → is_id_byte c ≡ true → IsIdByte c
safe c h = ground arith

kept : (c : ℕ) → IsIdByte c → is_id_byte c ≡ true
kept c h = ground arith

All-safe : (s : Str) → All (λ c. is_id_byte c ≡ true) s → All IsIdByte s
All-safe [] h = tt
All-safe (c ∷ s) (h, k) = (safe c h, All-safe s k)

All-kept : (s : Str) → All IsIdByte s → All (λ c. is_id_byte c ≡ true) s
All-kept [] h = tt
All-kept (c ∷ s) (h, k) = (kept c h, All-kept s k)

-- A request id that is echoed has at most 128 bytes, each of them an ASCII letter, a digit, or one of
-- - _ and the full stop. An id stays as it is if it has at most 128 bytes and only such ones, and only then.
pub sanitize_request_id_lem :
    (s : Str)
    → All IsIdByte (sanitize_request_id s)
      × (length (sanitize_request_id s) ≤ 128)
      × ((sanitize_request_id s ≡ s) ↔ (All IsIdByte s × (length s ≤ 128)))
unfolding sanitize_request_id
sanitize_request_id_lem s =
    let all = All-safe (keep is_id_byte (take 128 s)) (keep-All is_id_byte (take 128 s)) in
    (
      all,
      sanitized_length s,
      (
        λ e. (subst (All IsIdByte) e all, subst (λ t. length t ≤ 128) e (sanitized_length s)),
        λ (h, l).
            ap (keep is_id_byte) (take_of_length-le 128 s l)
            ∙ keep_of_All is_id_byte s (All-kept s h),
      ),
    )

-- A byte that may stand in the quoted file name of a header.
abbrev pub IsQuotable : ℕ → Type 0
IsQuotable c = (c ≢ 10) × (c ≢ 13) × (c ≢ b'"')

cleaned : (s : Str) → All IsQuotable (keep is_not_quote (replace 13 b' ' (replace 10 b' ' s)))
unfolding keep replace
cleaned [] = tt
cleaned (c ∷ s) = ground (arith, cleaned s)

named : (s : Str) → All IsQuotable s → All IsQuotable (or_download s) × (or_download s ≢ [])
named [] h = (ground arith, λ e. cc)
named (c ∷ s) h = (h, λ e. cc)

pub sanitize_filename_clean :
    (s : Str) → All IsQuotable (sanitize_filename s) × (sanitize_filename s ≢ [])
unfolding sanitize_filename
sanitize_filename_clean s = named _ (cleaned s)

-- A quoted string of a header, read from behind its opening quote: a backslash takes the next byte as it
-- is, the closing quote must be the last byte, and no line break may stand in it.
unfoldable pub unquote : Bool → Str → Option Str
unquote escaped [] = none
unquote true (c ∷ s) = Option.map (λ t. c ∷ t) (unquote false s)
unquote false (c ∷ s) =
    let plain = unquote false s in
    let escaped = unquote true s in
    if c == 34
    then (if is_empty s then some [] else none)
    else (if c == 92
        then escaped
        else (if c == 10 || c == 13 then none else Option.map (λ t. c ∷ t) plain))
