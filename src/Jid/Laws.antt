-- ===== src/Jid/Laws.antt =====
-- jid.go: what `NormalizeRecipient` accepts and returns.
use wavonyx.Prelude.Trim.{trim_space_of_bare, trim_space_idem}
use mathlib.Core.List.{reverse-append}
use wavonyx.Prelude.{
  Bool, is_space, Bool-cases, str_eq_iff, trim_space, ◌⊎◌, is_empty, any, contains, ℕ, ◌≤◌, ◌≡◌,
  refl, inl, inr, true, false, [], ◌∷◌, ◌++◌, Option, none, some, length, arith, Str, str_eq_self,
  cut, All, Option-cases,
}
use wavonyx.Errors.{ok}
use wavonyx.Jid.{
  lid_server, group_server, is_blank, normalize_trimmed, jid_result, normalize_jid,
  normalize_recipient, user_server, is_digit, digits_of, phone_result, normalize_phone,
  phone_of_parts, phone_from_jid, starts_with_zero,
}

-- The text is made of digits.
abbrev AllDigits : Str → Type 0
AllDigits = All (λ c. is_digit c ≡ true)

abbrev Given : (Str → Type 0) → Option Str → Type 0
Given P none = Unit
Given P (some ds) = P ds

digits_of-AllDigits : (s : Str) → Given AllDigits (digits_of s)
unfolding digits_of
digits_of-AllDigits [] = tt
digits_of-AllDigits (r ∷ s) = elim (Option-cases (digits_of s)) [
  | inl e ↦ ground arith
  | inr (ds, e) ↦ ground (arith, digits_of-AllDigits s)
]

-- What `normalizePhone` returns: 7 to 15 digits without a leading zero, at the user server.
pub record IsPhone (jid : Str) : Type 0 where
  pub number : Str
  pub shape : jid ≡ number ++ b'@' ∷ user_server
  pub digits : AllDigits number
  pub long : 7 ≤ length number
  pub short : length number ≤ 15
  pub international : starts_with_zero number ≡ false

phone_result-IsPhone :
    (o : Option Str) {jid : Str} → Given AllDigits o → phone_result o ≡ ok jid → IsPhone jid
unfolding phone_result
phone_result-IsPhone none h e = absurd (cc)
phone_result-IsPhone (some ds) h e = record {
  number = ds;
  shape = ground arith;
  digits = h;
  long = ground arith;
  short = ground arith;
  international = ground arith;
}

normalize_phone-IsPhone : (s : Str) {jid : Str} → normalize_phone s ≡ ok jid → IsPhone jid
unfolding normalize_phone
normalize_phone-IsPhone s e = phone_result-IsPhone (digits_of s) (digits_of-AllDigits s) e

-- Digits come before any other character.
cut-digits :
    (c : ℕ) (ds rest : Str)
    → AllDigits ds
    → is_digit c ≡ false
    → cut c (ds ++ c ∷ rest) ≡ some (ds, rest)
unfolding cut
cut-digits c [] rest h k = ground arith
cut-digits c (d ∷ ds) rest h k = ground (arith, cut-digits c ds rest h.1 k)

cut-none-digits : (c : ℕ) (ds : Str) → AllDigits ds → is_digit c ≡ false → cut c ds ≡ none
unfolding cut
cut-none-digits c [] h k = refl
cut-none-digits c (d ∷ ds) h k = ground (arith, cut-none-digits c ds h.1 k)

-- A phone's JID gives back its number.
pub phone_from_jid-IsPhone : {jid : Str} (p : IsPhone jid) → phone_from_jid jid ≡ p.number
unfolding phone_from_jid phone_of_parts
phone_from_jid-IsPhone p =
    rw (p.shape, cut-digits b'@' p.number user_server p.digits refl)
      (ground (arith, p.long, str_eq_self user_server, cut-none-digits b':' p.number p.digits refl))

-- What `normalizeJID` accepts.
pub record IsJid (jid : Str) : Type 0 where
  pub user : Str
  pub server : Str
  pub shape : jid ≡ user ++ b'@' ∷ server
  pub user_bare : contains b'@' user ≡ false
  pub user_some : is_empty user ≡ false
  pub known : (server ≡ user_server) ⊎ (server ≡ group_server) ⊎ (server ≡ lid_server)
  pub no_blank : any is_blank jid ≡ false

cut-shape :
    (c : ℕ) (s : Str) {a b : Str}
    → cut c s ≡ some (a, b)
    → (s ≡ a ++ c ∷ b) × (contains c a ≡ false)
unfolding cut contains
cut-shape c [] e = absurd (cc)
cut-shape c (d ∷ s) {a} {b} e = elim (Option-cases (cut c s)) [
  | inl n ↦ ground arith
  | inr ((x, y), n) ↦ ground (arith, cut-shape c s n)
]

jid_result-IsJid :
    (s : Str) (o : Option (Str × Str)) {jid : Str}
    → any is_blank s ≡ false
    → cut b'@' s ≡ o
    → jid_result s o ≡ ok jid
    → (jid ≡ s) × IsJid s
unfolding jid_result
jid_result-IsJid s none h k e = absurd (cc)
jid_result-IsJid s (some (user, server)) h k e = (
  ground arith,
  record {
    user = user;
    server = server;
    shape = (cut-shape b'@' s k).0;
    user_bare = (cut-shape b'@' s k).1;
    user_some = ground arith;
    known = ground (
      arith,
      str_eq_iff server user_server,
      str_eq_iff server group_server,
      str_eq_iff server lid_server,
    );
    no_blank = h;
  },
)

normalize_jid-IsJid : (s : Str) {jid : Str} → normalize_jid s ≡ ok jid → (jid ≡ s) × IsJid s
unfolding normalize_jid
normalize_jid-IsJid s e = elim (Bool-cases (any is_blank s)) [
  | inl h ↦ absurd (ground arith)
  | inr h ↦ jid_result-IsJid s (cut b'@' s) h refl (ground arith)
]

-- An accepted recipient is a phone's JID, or the trimmed input itself, which is then a user, one '@'
-- and a known server with no blank in it.
pub normalize_recipient_sound :
    (input : Str) {jid : Str}
    → normalize_recipient input ≡ ok jid
    → IsPhone jid ⊎ ((jid ≡ trim_space input) × IsJid (trim_space input))
unfolding normalize_recipient normalize_trimmed
normalize_recipient_sound input {jid} e = elim (Bool-cases (contains b'@' (trim_space input))) [
  | inl at ↦ inr (normalize_jid-IsJid (trim_space input) (ground arith))
  | inr no_at ↦ inl (normalize_phone-IsPhone (trim_space input) (ground arith))
]

any-append :
    (p : ℕ → Bool) (xs ys : Str) → any p xs ≡ false → any p ys ≡ false → any p (xs ++ ys) ≡ false
any-append p [] ys h k = k
any-append p (x ∷ xs) ys h k = ground (arith, any-append p xs ys)

any_blank-digits : (ds : Str) → AllDigits ds → any is_blank ds ≡ false
any_blank-digits [] h = refl
any_blank-digits (d ∷ ds) h = ground (arith, any_blank-digits ds h.1)

contains-append : (c : ℕ) (xs ys : Str) → contains c (xs ++ c ∷ ys) ≡ true
unfolding contains
contains-append c [] ys = ground arith
contains-append c (x ∷ xs) ys = ground (arith, contains-append c xs ys)

digit-bare : (d : ℕ) → is_digit d ≡ true → is_space d ≡ false
unfolding is_space
digit-bare d h = ground arith

-- The number of a phone's JID is not empty, so the JID starts and ends with no white space.
trim_space-phone :
    (ds : Str)
    → AllDigits ds
    → 7 ≤ length ds
    → trim_space (ds ++ b'@' ∷ user_server) ≡ ds ++ b'@' ∷ user_server
trim_space-phone [] h k = absurd (omega arith)
trim_space-phone (d ∷ ds) h k =
    trim_space_of_bare (d ∷ ds ++ b'@' ∷ user_server) (digit-bare d h.0)
      (rw (reverse-append (d ∷ ds) (b'@' ∷ user_server)) (unfold is_space in refl))

normalize_jid-phone :
    (ds : Str)
    → AllDigits ds
    → 7 ≤ length ds
    → normalize_jid (ds ++ b'@' ∷ user_server) ≡ ok (ds ++ b'@' ∷ user_server)
unfolding normalize_jid jid_result
normalize_jid-phone [] h k = absurd (omega arith)
normalize_jid-phone (d ∷ ds) h k =
    rw
      (
        any-append is_blank (d ∷ ds) (b'@' ∷ user_server) (any_blank-digits (d ∷ ds) h) refl,
        cut-digits b'@' (d ∷ ds) user_server h refl,
        str_eq_self user_server,
      )
      (unfold contains in refl)

normalize_trimmed-phone :
    (ds : Str)
    → AllDigits ds
    → 7 ≤ length ds
    → normalize_trimmed (ds ++ b'@' ∷ user_server) ≡ ok (ds ++ b'@' ∷ user_server)
unfolding normalize_trimmed
normalize_trimmed-phone [] h k = absurd (omega arith)
normalize_trimmed-phone (d ∷ ds) h k =
    rw (contains-append b'@' (d ∷ ds) user_server) (normalize_jid-phone (d ∷ ds) h k)

-- Normalising an accepted recipient again changes nothing: what is sent to is itself accepted.
pub normalize_recipient_idem :
    (input : Str) {jid : Str}
    → normalize_recipient input ≡ ok jid
    → normalize_recipient jid ≡ ok jid
unfolding normalize_recipient
normalize_recipient_idem input {jid} e = elim (normalize_recipient_sound input e) [
  | inl p ↦
      rw (p.shape, trim_space-phone p.number p.digits p.long)
        (normalize_trimmed-phone p.number p.digits p.long)
  | inr (same, j) ↦ rw (same, trim_space_idem input) (rw same at e)
]
