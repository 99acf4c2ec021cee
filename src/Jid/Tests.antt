-- ===== src/Jid/Tests.antt =====
-- Recipients at work.
use wavonyx.Prelude.{true, All, arith, ℕ, ◌≡◌, refl, ◌⊎◌, codes, trim_space, Str}
use wavonyx.Errors.{ok, err, sentinel, invalid_recipient}
use wavonyx.Jid.{is_digit, normalize_recipient, phone_from_jid}
use wavonyx.Jid.Laws.{
  IsPhone, IsJid, normalize_recipient_sound, normalize_recipient_idem, phone_from_jid-IsPhone,
}

phone_with_separators :
    normalize_recipient (codes " +62 812-3456.78 ") ≡ ok (codes "62812345678@s.whatsapp.net")
unfolding normalize_recipient trim_space wavonyx.Prelude.contains
phone_with_separators = refl

group_kept : normalize_recipient (codes " 1203@g.us") ≡ ok (codes "1203@g.us")
unfolding normalize_recipient trim_space wavonyx.Prelude.contains wavonyx.Prelude.cut
    wavonyx.Prelude.str_eq
group_kept = refl

local_number_refused : normalize_recipient (codes "081234567890") ≡ err (sentinel invalid_recipient)
unfolding normalize_recipient trim_space wavonyx.Prelude.contains
local_number_refused = refl

device_number : phone_from_jid (codes "62812345678:12@s.whatsapp.net") ≡ codes "62812345678"
unfolding phone_from_jid wavonyx.Prelude.cut wavonyx.Prelude.str_eq
device_number = refl

phone_digits : All (λ c. is_digit c ≡ true) (codes "62812345678")
phone_digits = ground arith

abbrev phone : IsPhone (codes "62812345678@s.whatsapp.net")
phone = record {
  number = codes "62812345678";
  shape = refl;
  digits = phone_digits;
  long = omega arith;
  short = omega arith;
  international = refl;
}

normalize_recipient_sound_example :
    IsPhone (codes "1203@g.us")
    ⊎ ((codes "1203@g.us" ≡ trim_space (codes " 1203@g.us"))
        × IsJid (trim_space (codes " 1203@g.us")))
normalize_recipient_sound_example = normalize_recipient_sound (codes " 1203@g.us") group_kept

normalize_recipient_idem_example :
    normalize_recipient (codes "62812345678@s.whatsapp.net")
    ≡ ok (codes "62812345678@s.whatsapp.net")
normalize_recipient_idem_example =
    normalize_recipient_idem (codes " +62 812-3456.78 ") phone_with_separators

phone_from_jid-IsPhone_example :
    phone_from_jid (codes "62812345678@s.whatsapp.net") ≡ codes "62812345678"
phone_from_jid-IsPhone_example = phone_from_jid-IsPhone phone
