-- ===== src/Ring.antt =====
-- ring.go: the buffer of the last inbound messages of a session.
pub mod Inv
pub mod Refine
mod Tests
use wavonyx.Prelude.{
  ℕ, zero, suc, ◌+◌, ◌-◌, ◌%◌, ◌≡◌, Bool, true, false, List, [], ◌∷◌, Option, none, some, length,
  set, get_elem?, replicate, ltb, Str, str_eq, is_empty, if◌then◌else◌,
}
use wavonyx.Prelude.Int.{ℤ, pos_part, is_nonpos}
use wavonyx.Message.{InboundMessage, zero_message}

pub record Ring : Type 0 where
  pub buf : List InboundMessage
  pub next : ℕ
  pub n : ℕ

-- A capacity that is not positive counts as 1.
abbrev capacity_or_one : ℤ → ℕ
capacity_or_one capacity = if is_nonpos capacity then 1 else pos_part capacity

unfoldable pub new_ring : ℤ → Ring
new_ring capacity = record {
  buf = replicate (capacity_or_one capacity) zero_message;
  next = 0;
  n = 0;
}

-- `Cap` and `Len`
unfoldable pub cap : Ring → ℕ
cap r = length r.buf

unfoldable pub len : Ring → ℕ
len r = r.n

-- `Append`. A write out of range would panic; `next_in` of the invariant rules it out.
unfoldable pub append : Ring → InboundMessage → Ring
append r m = record {
  buf = set r.buf r.next m;
  next = (r.next + 1) % length r.buf;
  n = if ltb r.n (length r.buf) then r.n + 1 else r.n;
}

-- The loop of `Update` over the slots, in their order.
update_first :
    Str → (InboundMessage → InboundMessage) → List InboundMessage → List InboundMessage × Bool
update_first id apply [] = ([], false)
update_first id apply (m ∷ ms) =
    let (rest, found) = update_first id apply ms in
    if str_eq m.message_id id then (apply m ∷ ms, true) else (m ∷ rest, found)

-- `Update`
unfoldable pub update : Ring → Str → (InboundMessage → InboundMessage) → Ring × Bool
unfolding update_first
update r id apply =
    if is_empty id
    then (r, false)
    else (record r { buf = (update_first id apply r.buf).0 }, (update_first id apply r.buf).1)

-- The loop of `Recent` from round i, with the rounds that are left. The sum of the index is never
-- negative in the source either: i stays below the number of messages. `none` is an index out of
-- range, a panic.
recent_loop : Ring → ℕ → ℕ → Option (List InboundMessage)
recent_loop r zero i = some []
recent_loop r (suc left) i =
    let rest = recent_loop r left (suc i) in
    elim (get_elem? r.buf ((r.next + length r.buf - 1 - i) % length r.buf)) [
      | none ↦ none
      | some m ↦ elim rest [ none ↦ none | some ms ↦ some (m ∷ ms) ]
    ]

-- How many messages `Recent` returns.
abbrev pub effective : ℤ → ℕ → ℕ
effective limit n =
    if is_nonpos limit then n else if ltb n (pos_part limit) then n else pos_part limit

-- `Recent`
unfoldable pub recent : Ring → ℤ → Option (List InboundMessage)
unfolding recent_loop
recent r limit = recent_loop r (effective limit r.n) 0
