-- ===== src/Session/Receipts.antt =====
-- session.go: which unread messages a reply acknowledges.
use mathlib.Core.List.{append_assoc}
use mathlib.Core.Path.{subst}
use wavonyx.Jid.{phone_from_jid}
use wavonyx.Prelude.{
  Bool, is_empty, ◌≢◌, ◌⊎◌, ◌≡◌, refl, sym, ap, ◌∙◌, ◌↔◌, true, false, List, [], ◌∷◌, ◌++◌, Option,
  none, some, Str, arith, str_eq_iff, str_eq_self, All, if◌then◌else◌, Bool-cases, inl, inr,
}
use wavonyx.Session.State.{Client, UnreadKey, ReadTarget, Effect, mark_read, World, emit}
use wavonyx.Session.Inbound.{
  Unread, key_eq, insert, lookup, opens, take_read, send_receipts, mark_chat_read,
}

-- Keys are compared by their two texts.
key_eq_iff : (a b : UnreadKey) → (key_eq a b ≡ true) ↔ (a ≡ b)
key_eq_iff a b = (
  λ h. ground (arith, str_eq_iff a.chat b.chat, str_eq_iff a.sender b.sender),
  λ e. rw e (ground (arith, str_eq_self b.chat, str_eq_self b.sender)),
)

-- The map's law: the last message of a sender in a chat is the one that is remembered, and the others
-- stay.
pub lookup-insert :
    (k j : UnreadKey) (t : ReadTarget) (m : Unread)
    → lookup j (insert k t m) ≡ (if key_eq k j then some t else lookup j m)
unfolding lookup insert
lookup-insert k j t [] = refl
lookup-insert k j t ((i, u) ∷ m) =
    ground (arith, key_eq_iff k j, key_eq_iff i k, key_eq_iff i j, lookup-insert k j t m)

-- No key stands in the list.
abbrev pub Absent : UnreadKey → Unread → Type 0
Absent k = All (λ e. key_eq e.0 k ≡ false)

-- The list is a map: no key stands in it twice.
abbrev pub IsMap : Unread → Type 0
IsMap [] = Unit
IsMap ((k, t) ∷ m) = Absent k m × IsMap m

Absent-insert :
    (j k : UnreadKey) (t : ReadTarget) (m : Unread)
    → key_eq k j ≡ false
    → Absent j m
    → Absent j (insert k t m)
unfolding insert
Absent-insert j k t [] h a = (h, tt)
Absent-insert j k t ((i, u) ∷ m) h (e, a) = ground (arith, Absent-insert j k t m h a)

pub insert-IsMap : (k : UnreadKey) (t : ReadTarget) (m : Unread) → IsMap m → IsMap (insert k t m)
unfolding insert
insert-IsMap k t [] v = (tt, tt)
insert-IsMap k t ((i, u) ∷ m) (a, v) = elim (Bool-cases (key_eq i k)) [
  | inl e ↦ rw e (subst (λ j. Absent j m) ((key_eq_iff i k).0 e) a, v)
  | inr e ↦ rw e (
    Absent-insert i k t m (ground (arith, key_eq_iff i k, key_eq_iff k i)) a,
    insert-IsMap k t m v,
  )
]

-- The receipts that a list of targets calls for, the last one first.
abbrev pub receipts : Client → Unread → List Effect
receipts c [] = []
receipts c ((k, t) ∷ m) = receipts c m ++ mark_read c t.id k.chat k.sender ∷ []

send_receipts-trace :
    (c : Client) (m : Unread) (w : World) → (send_receipts c m w).trace ≡ receipts c m ++ w.trace
unfolding send_receipts
send_receipts-trace c [] w = refl
send_receipts-trace c ((k, t) ∷ m) w =
    send_receipts-trace c m (emit (mark_read c t.id k.chat k.sender) w)
    ∙ sym (append_assoc (receipts c m) (mark_read c t.id k.chat k.sender ∷ []) w.trace)

lookup-Absent : (k : UnreadKey) (m : Unread) → Absent k m → lookup k m ≡ none
unfolding lookup
lookup-Absent k [] a = refl
lookup-Absent k ((j, u) ∷ m) (e, a) = rw e (lookup-Absent k m a)

is_empty_of : (s : Str) → is_empty s ≡ false → s ≢ []
is_empty_of [] h e = cc
is_empty_of (c ∷ s) h e = cc

empty_of : (s : Str) → is_empty s ≡ true → s ≡ []
empty_of [] h = refl
empty_of (c ∷ s) h = absurd (cc)

-- What opening the chat `to` reads: a message of that chat, or of a sender with the phone number of `to`,
-- if it has one.
abbrev pub Concerns : Str → UnreadKey → ReadTarget → Type 0
Concerns to k t = (k.chat ≡ to) ⊎ ((phone_from_jid to ≢ []) × (t.phone ≡ phone_from_jid to))

concerned : (to : Str) (k : UnreadKey) (t : ReadTarget) → opens to k t ≡ true → Concerns to k t
concerned to k t h = ground (
  arith,
  str_eq_iff k.chat to,
  str_eq_iff t.phone (phone_from_jid to),
  is_empty_of (phone_from_jid to),
)

unconcerned : (to : Str) (k : UnreadKey) (t : ReadTarget) → opens to k t ≡ false → ¬ Concerns to k t
unconcerned to k t h (inl e) = ground (arith, str_eq_iff k.chat to)
unconcerned to k t h (inr (n, e)) =
    ground (arith, str_eq_iff t.phone (phone_from_jid to), empty_of (phone_from_jid to))

-- What is taken and what is left of a sender in a chat.
abbrev chosen : Bool → Str → UnreadKey → Option ReadTarget → Option ReadTarget
chosen b to k none = none
chosen true to k (some t) = if opens to k t then some t else none
chosen false to k (some t) = if opens to k t then none else some t

lookup-take_read :
    (to : Str) (k : UnreadKey) (m : Unread)
    → IsMap m
    → (lookup k (take_read to m).0 ≡ chosen true to k (lookup k m))
      × (lookup k (take_read to m).1 ≡ chosen false to k (lookup k m))
unfolding lookup take_read
lookup-take_read to k [] v = (refl, refl)
lookup-take_read to k ((j, u) ∷ m) (a, v) =
    ground (arith, lookup-take_read to k m v, key_eq_iff j k, lookup-Absent j m a)

Absent-taken : (to : Str) (k : UnreadKey) (m : Unread) → Absent k m → Absent k (take_read to m).0
unfolding take_read
Absent-taken to k [] a = tt
Absent-taken to k ((j, u) ∷ m) (e, a) = ground (arith, Absent-taken to k m a)

taken-IsMap : (to : Str) (m : Unread) → IsMap m → IsMap (take_read to m).0
unfolding take_read
taken-IsMap to [] v = tt
taken-IsMap to ((j, u) ∷ m) (a, v) = ground (arith, taken-IsMap to m v, Absent-taken to j m a)

some-inj : {t u : ReadTarget} → some t ≡ some u → t ≡ u
some-inj {t} {u} e = ap (λ o. elim o [ none ↦ t | some x ↦ x ]) e

taken_iff :
    (b : Bool) (to : Str) (k : UnreadKey) (t u : ReadTarget)
    → opens to k u ≡ b
    → ((if b then some u else none) ≡ some t) ↔ ((some u ≡ some t) × Concerns to k t)
taken_iff true to k t u h =
    (λ e. (e, subst (Concerns to k) (some-inj e) (concerned to k u h)), λ (e, c). e)
taken_iff false to k t u h = (
  λ e. absurd (cc),
  λ (e, c). absurd (unconcerned to k u h (subst (Concerns to k) (sym (some-inj e)) c)),
)

left_iff :
    (b : Bool) (to : Str) (k : UnreadKey) (t u : ReadTarget)
    → opens to k u ≡ b
    → ((if b then none else some u) ≡ some t) ↔ ((some u ≡ some t) × ¬ Concerns to k t)
left_iff true to k t u h = (
  λ e. absurd (cc),
  λ (e, n). absurd (n (subst (Concerns to k) (some-inj e) (concerned to k u h))),
)
left_iff false to k t u h =
    (λ e. (e, λ c. unconcerned to k u h (subst (Concerns to k) (sym (some-inj e)) c)), λ (e, n). e)

chosen_iff :
    (to : Str) (k : UnreadKey) (t : ReadTarget) (o : Option ReadTarget)
    → ((chosen true to k o ≡ some t) ↔ ((o ≡ some t) × Concerns to k t))
      × ((chosen false to k o ≡ some t) ↔ ((o ≡ some t) × ¬ Concerns to k t))
chosen_iff to k t none = ((λ e. absurd (cc), λ (e, c). e), (λ e. absurd (cc), λ (e, c). e))
chosen_iff to k t (some u) =
    (taken_iff (opens to k u) to k t u refl, left_iff (opens to k u) to k t u refl)

pub send_receipts-session :
    (c : Client) (m : Unread) (w : World) → (send_receipts c m w).session ≡ w.session
unfolding send_receipts
send_receipts-session c [] w = refl
send_receipts-session c ((k, t) ∷ m) w =
    send_receipts-session c m (emit (mark_read c t.id k.chat k.sender) w)

-- Opening a chat before a reply sends one receipt for each remembered message of that chat, or of a
-- sender with that phone number, and for no other; of the remembered messages exactly those are
-- forgotten.
pub mark_chat_read_lem :
    (c : Client) (to : Str) (w : World)
    → IsMap w.session.unread
    → (taken : Unread) × ((mark_chat_read c to w).trace ≡ receipts c taken ++ w.trace)
      × IsMap taken
      × ((k : UnreadKey) (t : ReadTarget)
          → (lookup k taken ≡ some t) ↔ ((lookup k w.session.unread ≡ some t) × Concerns to k t))
      × ((k : UnreadKey) (t : ReadTarget)
          → (lookup k (mark_chat_read c to w).session.unread ≡ some t)
            ↔ ((lookup k w.session.unread ≡ some t) × ¬ Concerns to k t))
unfolding mark_chat_read
mark_chat_read_lem c to w v =
    let taken = (take_read to w.session.unread).0 in
    (
      taken,
      send_receipts-trace c taken _,
      taken-IsMap to w.session.unread v,
      λ k t.
          rw (lookup-take_read to k w.session.unread v).0
            ((chosen_iff to k t (lookup k w.session.unread)).0),
      λ k t.
          subst (λ o. (o ≡ some t) ↔ ((lookup k w.session.unread ≡ some t) × ¬ Concerns to k t))
            (sym (
              ap (λ s. lookup k s.unread) (send_receipts-session c taken _)
              ∙ (lookup-take_read to k w.session.unread v).1))
            ((chosen_iff to k t (lookup k w.session.unread)).1),
    )
