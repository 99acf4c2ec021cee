-- ===== src/Jid/Refusals.antt =====
-- jid.go: the one error of a refused recipient.
use wavonyx.Prelude.{◌≡◌, Option, none, some, Str, arith, cut, trim_space}
use wavonyx.Errors.{Error, sentinel, invalid_recipient, err}
use wavonyx.Jid.{
  digits_of, phone_result, normalize_phone, jid_result, normalize_jid, normalize_trimmed,
  normalize_recipient,
}

phone_refused :
    (o : Option Str) {e : Error} → phone_result o ≡ err e → e ≡ sentinel invalid_recipient
unfolding phone_result
phone_refused none h = ground arith
phone_refused (some ds) h = ground arith

jid_refused :
    (s : Str) (o : Option (Str × Str)) {e : Error}
    → jid_result s o ≡ err e
    → e ≡ sentinel invalid_recipient
unfolding jid_result
jid_refused s none h = ground arith
jid_refused s (some (user, server)) h = ground arith

trimmed_refused :
    (s : Str) {e : Error} → normalize_trimmed s ≡ err e → e ≡ sentinel invalid_recipient
unfolding normalize_trimmed normalize_phone normalize_jid
trimmed_refused s h = ground (arith, phone_refused (digits_of s), jid_refused s (cut b'@' s))

pub normalize_recipient_refused :
    (s : Str) {e : Error} → normalize_recipient s ≡ err e → e ≡ sentinel invalid_recipient
unfolding normalize_recipient
normalize_recipient_refused s h = trimmed_refused (trim_space s) h
