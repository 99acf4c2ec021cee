-- ===== src/Jid.antt =====
-- jid.go, and `phoneFromJID` of session.go: the recipients of messages.
pub mod Laws
pub mod Refusals
mod Tests
use wavonyx.Prelude.{
  ℕ, ◌-◌, Bool, true, false, not, ◌&&◌, ◌||◌, List, [], ◌∷◌, ◌++◌, Option, none, some, length,
  is_empty, any, Str, codes, str_eq, contains, cut, trim_space, leb, ltb, ◌==◌, if◌then◌else◌,
}
use wavonyx.Errors.{Error, sentinel, invalid_recipient, Result, ok, err, ◌>>=◌, ◌>>◌, guard}

abbrev pub user_server : Str
user_server = codes "s.whatsapp.net"

abbrev group_server : Str
group_server = codes "g.us"

abbrev lid_server : Str
lid_server = codes "lid"

abbrev is_digit : ℕ → Bool
is_digit r = leb b'0' r && leb r b'9'

abbrev is_separator : ℕ → Bool
is_separator r = r == b'+' || r == b' ' || r == b'-' || r == b'.' || r == b'(' || r == b')'

-- The loop of `normalizePhone`: the digits, unless some rune is neither a digit nor a separator.
digits_of : Str → Option Str
digits_of [] = some []
digits_of (r ∷ s) =
    let rest = digits_of s in
    if is_digit r
    then elim rest [ none ↦ none | some ds ↦ some (r ∷ ds) ]
    else (if is_separator r then rest else none)

-- `digits[0] == '0'`, which the code reads after the length check.
abbrev starts_with_zero : Str → Bool
starts_with_zero [] = false
starts_with_zero (d ∷ ds) = d == b'0'

phone_result : Option Str → Result Str
phone_result none = err (sentinel invalid_recipient)
phone_result (some ds) =
    if ltb (length ds) 7 || ltb 15 (length ds) || starts_with_zero ds
    then err (sentinel invalid_recipient)
    else ok (ds ++ b'@' ∷ user_server)

unfoldable pub normalize_phone : Str → Result Str
unfolding digits_of phone_result
normalize_phone s = phone_result (digits_of s)

-- `strings.ContainsAny(s, " \t\r\n")`
abbrev is_blank : ℕ → Bool
is_blank c = c == b' ' || c == 9 || c == 13 || c == 10

abbrev is_known : Str → Bool
is_known server =
    str_eq server user_server || str_eq server group_server || str_eq server lid_server

-- The parts round the first '@'. Without one the source would panic: its caller has checked.
jid_result : Str → Option (Str × Str) → Result Str
jid_result s none = err (sentinel invalid_recipient)
jid_result s (some (user, server)) =
    if is_empty user || is_empty server || contains b'@' server
    then err (sentinel invalid_recipient)
    else (if is_known server then ok s else err (sentinel invalid_recipient))

unfoldable pub normalize_jid : Str → Result Str
unfolding jid_result
normalize_jid s =
    if any is_blank s then err (sentinel invalid_recipient) else jid_result s (cut b'@' s)

unfoldable pub normalize_trimmed : Str → Result Str
unfolding normalize_jid normalize_phone
normalize_trimmed s =
    if is_empty s
    then err (sentinel invalid_recipient)
    else (if contains b'@' s then normalize_jid s else normalize_phone s)

-- `NormalizeRecipient`
unfoldable pub normalize_recipient : Str → Result Str
unfolding normalize_trimmed
normalize_recipient input = normalize_trimmed (trim_space input)

-- `user[:colon]` for the first ':' of the user part, or the whole of it.
abbrev before_colon : Str → Option (Str × Str) → Str
before_colon user none = user
before_colon user (some (before, after)) = before

phone_of_parts : Option (Str × Str) → Str
phone_of_parts none = []
phone_of_parts (some (user, server)) =
    if is_empty user || not (str_eq server user_server)
    then []
    else before_colon user (cut b':' user)

-- `phoneFromJID`
unfoldable pub phone_from_jid : Str → Str
unfolding phone_of_parts
phone_from_jid jid = phone_of_parts (cut b'@' jid)
