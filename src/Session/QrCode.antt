-- ===== src/Session/QrCode.antt =====
-- session.go: when a pairing code is on offer.
use wavonyx.Prelude.{
  ◌/◌, ◌||◌, if◌then◌else◌, ◌+◌, ◌*◌, ◌≤◌, ◌<◌, ◌≡◌, refl, ap, ◌∙◌, true, false, List, [], ◌∷◌,
  Option, none, some, arith, Bool-cases, inl, inr, is_empty,
}
use wavonyx.Prelude.Int.{◌+ℤ◌, pos, pos_part, ◌-ℤ◌, ◌≤ℤ◌, is_nonpos}
use wavonyx.Errors.{ok}
use wavonyx.Message.{Time, QrInfo}
use wavonyx.Typing.Options.{second}
use wavonyx.Session.State.{cancel_pairing, emit, Session, World, Pairing}
use wavonyx.Session.Pairing.{
  failure, success, fail_pairing, mark_connected, code, or_not_available, current_qr_locked,
  current_qr, QrItem, Account, Consumer, consume_item, consume_qr,
}

-- A code that is offered at an instant is the session's, is not empty, expires later than that instant,
-- and the whole seconds until then are those that it states.
pub record IsLive (s : Session) (now : Time) (qr : QrInfo) : Type 0 where
  pub same_code : qr.code ≡ s.qr_code
  pub nonempty : is_empty qr.code ≡ false
  pub same_expiry : qr.expires_at ≡ s.qr_expires_at
  pub later : pos 1 ≤ℤ (qr.expires_at -ℤ now)
  pub whole : pos_part qr.expires_in * second ≤ pos_part (qr.expires_at -ℤ now)
  pub most : pos_part (qr.expires_at -ℤ now) < (pos_part qr.expires_in + 1) * second

drained :
    (p : Pairing) (item : QrItem) (now : Time) (a : Account) (c : Consumer) (w : World)
    → c.terminal ≡ true
    → consume_item p item now a (c, w) ≡ (c, w)
unfolding consume_item
drained p item now a c w e = ground arith

current_qr_locked-IsLive :
    (s : Session) (now : Time) {qr : QrInfo} → current_qr_locked s now ≡ some qr → IsLive s now qr
unfolding current_qr_locked
current_qr_locked-IsLive s now {qr} e = elim (Bool-cases (is_empty s.qr_code)) [
  | inl h ↦ absurd (ground arith)
  | inr h ↦ elim (Bool-cases (is_nonpos (s.qr_expires_at -ℤ now))) [
    | inl k ↦ absurd (ground arith)
    | inr k ↦ record {
      same_code = ground arith;
      nonempty = ground arith;
      same_expiry = ground arith;
      later = ground arith;
      whole = ground arith;
      most = ground arith;
    }
  ]
]

or_not_available-inv : (o : Option QrInfo) {qr : QrInfo} → or_not_available o ≡ ok qr → o ≡ some qr
or_not_available-inv none e = absurd (cc)
or_not_available-inv (some q) e = ground arith

-- A code that is offered at an instant is the session's and not empty, expires later than that instant,
-- and states the whole seconds until then.
pub current_qr-IsLive :
    (s : Session) (now : Time) {qr : QrInfo} → current_qr s now ≡ ok qr → IsLive s now qr
unfolding current_qr
current_qr-IsLive s now e =
    current_qr_locked-IsLive s now (or_not_available-inv (current_qr_locked s now) e)

-- The channel of a pairing that is over is drained and changes nothing.
consume_terminal :
    (p : Pairing) (items : List (QrItem × Time × Account)) (c : Consumer) (w : World)
    → c.terminal ≡ true
    → (consume_qr p items (c, w)).1 ≡ emit (cancel_pairing p) w
unfolding consume_qr
consume_terminal p [] c w e = refl
consume_terminal p ((item, now, a) ∷ items) c w e =
    ap (λ x. (consume_qr p items x).1) (drained p item now a c w e) ∙ consume_terminal p items c w e

-- What the first signal of a pairing is: the item's code, if it is not empty and has time left, with the
-- instant at which it expires and the whole seconds until then.
abbrev pub first_of_item : QrItem → Time → Option QrInfo
first_of_item (code qr timeout) now =
    if is_empty qr || is_nonpos timeout
    then none
    else some (record {
      code = qr;
      expires_at = now +ℤ timeout;
      expires_in = pos (pos_part timeout / second);
    })
first_of_item _ now = none

-- A consumer at the start of a pairing.
abbrev pub fresh : Consumer
fresh = record { first = none; terminal = false }

abbrev pub first_signal : List (QrItem × Time × Account) → Option QrInfo
first_signal [] = none
first_signal ((item, now, a) ∷ items) = first_of_item item now

-- What a terminal item does to the world.
abbrev pub ended_by : QrItem → Account → World → World
ended_by (code qr timeout) a w = w
ended_by success a w = mark_connected a w
ended_by failure a w = fail_pairing w

abbrev pub IsTerminal : QrItem → Type 0
IsTerminal (code qr timeout) = ⊥
IsTerminal _ = Unit

item-ends :
    (p : Pairing) (item : QrItem) (now : Time) (a : Account) (c : Consumer) (w : World)
    → IsTerminal item
    → c.terminal ≡ false
    → ((consume_item p item now a (c, w)).0.terminal ≡ true)
      × ((consume_item p item now a (c, w)).1 ≡ emit (cancel_pairing p) (ended_by item a w))
unfolding consume_item
item-ends p (code qr timeout) now a c w t e = absurd t
item-ends p success now a c w t e = ground arith
item-ends p failure now a c w t e = ground arith

-- After a success or a failure the rest of the channel is drained: the outcome is that of the terminal
-- item alone, and the pairing is cancelled.
pub consume_qr-terminal :
    (p : Pairing) (item : QrItem) (now : Time) (a : Account)
    (items : List (QrItem × Time × Account)) (c : Consumer) (w : World)
    → IsTerminal item
    → c.terminal ≡ false
    → (consume_qr p ((item, now, a) ∷ items) (c, w)).1
      ≡ emit (cancel_pairing p) (emit (cancel_pairing p) (ended_by item a w))
unfolding consume_qr
consume_qr-terminal p item now a items c w t e =
    let (over, same) = item-ends p item now a c w t e in
    consume_terminal p items (consume_item p item now a (c, w)).0
      (consume_item p item now a (c, w)).1 over
    ∙ ap (emit (cancel_pairing p)) same
