-- ===== src/Ring/Refine.antt =====
-- ring.go: a ring holds the last messages that were appended, newest first.
use native.Mathlib.Nat.{mod-eq_of_lt, mod-eq-sub-mod, mod-lt}
use native.Mathlib.Numerals.{add-one}
use mathlib.Core.List.{reverse-cons, append_assoc, append-nil}
use wavonyx.Prelude.{
  ◌⊎◌, length-replicate, ℕ, zero, suc, ◌+◌, ◌-◌, ◌%◌, ◌≤◌, ◌<◌, ◌≡◌, refl, ◌≢◌, sym, ap, ap₂, ◌∙◌,
  List, [], ◌∷◌, ◌++◌, Option, none, some, length, set, get_elem?, take, arith, dec_lt,
  take_of_length-le, take-take, get_elem?-set_self, get_elem?-set_ne, get_elem?_total, length-set,
  reverse, ltb, Bool-cases, inl, inr,
}
use wavonyx.Prelude.Int.{ℤ, pos}
use wavonyx.Message.{InboundMessage, zero_message}
use wavonyx.Ring.{Ring, capacity_or_one, new_ring, append, recent_loop, effective, recent}
use wavonyx.Ring.Inv.{IsValid, new_ring-IsValid, append-IsValid, length_buf-append}

abbrev or_zero : Option InboundMessage → InboundMessage
or_zero none = zero_message
or_zero (some m) = m

-- The index of the i-th newest message.
abbrev index : ℕ → ℕ → ℕ → ℕ
index c next i = (next + c - 1 - i) % c

-- `left` messages from the i-th newest on.
slots : List InboundMessage → ℕ → ℕ → ℕ → List InboundMessage
slots buf next zero i = []
slots buf next (suc left) i =
    or_zero (get_elem? buf (index (length buf) next i)) ∷ slots buf next left (suc i)

-- The messages that a ring holds, newest first.
pub contents : Ring → List InboundMessage
contents r = slots r.buf r.next r.n 0

length-slots : (buf : List InboundMessage) (p k i : ℕ) → length (slots buf p k i) ≡ k
unfolding slots
length-slots buf p zero i = refl
length-slots buf p (suc k) i = ap suc (length-slots buf p k (suc i))

take-slots :
    (buf : List InboundMessage) (p k n i : ℕ) → k ≤ n → take k (slots buf p n i) ≡ slots buf p k i
unfolding slots
take-slots buf p zero n i h = refl
take-slots buf p (suc k) zero i h = absurd (omega arith)
take-slots buf p (suc k) (suc n) i h = rw (take-slots buf p k n (suc i) (omega arith))

-- The remainder of a number below twice the modulus.
mod_below : (x c : ℕ) → x < c → x % c ≡ x
mod_below x c h = mod-eq_of_lt h

mod_above : (x c : ℕ) → c ≤ x → x < c + c → x % c ≡ x - c
mod_above x c h k =
    omega (arith, mod-eq-sub-mod {n = x} {m = c} h, mod-eq_of_lt {n = x - c} {m = c} (omega arith))

index_value :
    (c p i : ℕ)
    → p < c
    → i < c
    → ((i < p) × (index c p i + suc i ≡ p)) ⊎ ((p ≤ i) × (index c p i + suc i ≡ p + c))
index_value c p i h k = elim (dec_lt i p) [
  | yes a ↦ inl (a, omega (arith, mod_above (p + c - 1 - i) c (omega arith) (omega arith)))
  | no a ↦ inr (omega arith, omega (arith, mod_below (p + c - 1 - i) c (omega arith)))
]

next_value :
    (c p : ℕ) → p < c → ((p + 1 < c) × ((p + 1) % c ≡ p + 1)) ⊎ ((p + 1 ≡ c) × ((p + 1) % c ≡ 0))
next_value c p h = elim (dec_lt (p + 1) c) [
  | yes a ↦ inl (a, mod_below (p + 1) c a)
  | no a ↦ inr (omega arith, omega (arith, mod_above (p + 1) c (omega arith) (omega arith)))
]

-- One step of the write position moves every index by one.
index-next : (c p i : ℕ) → p < c → i + 2 ≤ c → index c ((p + 1) % c) (suc i) ≡ index c p i
index-next c p i h k = omega (
  arith,
  next_value c p h,
  index_value c ((p + 1) % c) (suc i) (mod-lt (p + 1) (omega arith)) (omega arith),
  index_value c p i h (omega arith),
)

index-ne : (c p i : ℕ) → p < c → i + 2 ≤ c → p ≢ index c p i
index-ne c p i h k = omega (arith, index_value c p i h (omega arith))

index_zero : (c p : ℕ) → p < c → index c ((p + 1) % c) 0 ≡ p
index_zero c p h = omega (
  arith,
  next_value c p h,
  index_value c ((p + 1) % c) 0 (mod-lt (p + 1) (omega arith)) (omega arith),
)

-- After a write the older messages stand one place further back.
slots-set :
    (buf : List InboundMessage) (m : InboundMessage) (p k i : ℕ)
    → p < length buf
    → k + i + 1 ≤ length buf
    → slots (set buf p m) ((p + 1) % length buf) k (suc i) ≡ slots buf p k i
unfolding slots
slots-set buf m p zero i h k = refl
slots-set buf m p (suc left) i h k = rw (
  length-set buf p m,
  index-next (length buf) p i h (omega arith),
  get_elem?-set_ne buf p (index (length buf) p i) m (index-ne (length buf) p i h (omega arith)),
  slots-set buf m p left (suc i) h (omega arith),
)

newest :
    (buf : List InboundMessage) (m : InboundMessage) (p : ℕ)
    → p < length buf
    → get_elem? (set buf p m) (index (length (set buf p m)) ((p + 1) % length buf) 0) ≡ some m
newest buf m p h =
    rw (length-set buf p m, index_zero (length buf) p h) (get_elem?-set_self buf p m h)

written :
    (buf : List InboundMessage) (m : InboundMessage) (p k : ℕ)
    → p < length buf
    → k < length buf
    → slots (set buf p m) ((p + 1) % length buf) (suc k) 0 ≡ m ∷ slots buf p k 0
unfolding slots
written buf m p k h j =
    ap₂ (λ o l. or_zero o ∷ l) (newest buf m p h) (slots-set buf m p k 0 h (omega arith))

written_room :
    (buf : List InboundMessage) (m : InboundMessage) (p n : ℕ)
    → p < length buf
    → n < length buf
    → slots (set buf p m) ((p + 1) % length buf) (n + 1) 0 ≡ take (length buf) (m ∷ slots buf p n 0)
written_room buf m p n h j =
    rw (add-one n, written buf m p n h j)
      (sym (
        take_of_length-le (length buf) (m ∷ slots buf p n 0)
          (omega (arith, length-slots buf p n 0))))

written_full :
    (buf : List InboundMessage) (m : InboundMessage) (p n : ℕ)
    → p < length buf
    → n ≡ length buf
    → slots (set buf p m) ((p + 1) % length buf) n 0 ≡ take (length buf) (m ∷ slots buf p n 0)
written_full buf m p zero h e = absurd (omega arith)
written_full buf m p (suc n) h e =
    written buf m p n h (omega arith)
    ∙ ap (λ l. m ∷ l) (sym (take-slots buf p n (suc n) 0 (omega arith)))
    ∙ ap (λ c. take c (m ∷ slots buf p (suc n) 0)) e

-- Appending puts the message in front and forgets what no longer fits.
pub append_refines :
    {r : Ring} (m : InboundMessage)
    → IsValid r
    → contents (append r m) ≡ take (length r.buf) (m ∷ contents r)
unfolding append contents
append_refines {r} m v = elim (Bool-cases (ltb r.n (length r.buf))) [
  | inl room ↦ rw room (written_room r.buf m r.next r.n v.next_in (ground arith))
  | inr full ↦ rw full (written_full r.buf m r.next r.n v.next_in (ground arith))
]

recent_loop_lem :
    {r : Ring} (k i : ℕ) → IsValid r → recent_loop r k i ≡ some (slots r.buf r.next k i)
unfolding recent_loop slots
recent_loop_lem zero i v = refl
recent_loop_lem {r} (suc k) i v =
    let (m, e) = get_elem?_total r.buf (index (length r.buf) r.next i) (mod-lt _ (omega arith)) in
    ground (arith, recent_loop_lem k (suc i) v, e)

-- Reading a valid ring never leaves the buffer, and gives the newest messages that it holds: all of
-- them if the limit is not positive or too large, else as many as the limit says.
pub recent_refines :
    {r : Ring} (limit : ℤ)
    → IsValid r
    → recent r limit ≡ some (take (effective limit r.n) (contents r))
unfolding recent contents
recent_refines {r} limit v =
    recent_loop_lem (effective limit r.n) 0 v
    ∙ ap some (sym (take-slots r.buf r.next (effective limit r.n) r.n 0 (ground arith)))

-- The messages of a list, appended in order.
unfoldable pub append_all : Ring → List InboundMessage → Ring
append_all r [] = r
append_all r (m ∷ ms) = append_all (append r m) ms

append_all-IsValid : (ms : List InboundMessage) {r : Ring} → IsValid r → IsValid (append_all r ms)
unfolding append_all
append_all-IsValid [] v = v
append_all-IsValid (m ∷ ms) v = append_all-IsValid ms (append-IsValid m v)

take-append-take :
    (c d : ℕ) (xs ys : List InboundMessage) → c ≤ d → take c (xs ++ take d ys) ≡ take c (xs ++ ys)
take-append-take c d [] ys h = take-take c d ys h
take-append-take zero d (x ∷ xs) ys h = refl
take-append-take (suc c) d (x ∷ xs) ys h = rw (take-append-take c d xs ys (omega arith))

append_all_refines :
    (ms : List InboundMessage) {r : Ring}
    → IsValid r
    → contents (append_all r ms) ≡ take (length r.buf) (reverse ms ++ contents r)
unfolding append_all
append_all_refines [] {r} v = sym (
    take_of_length-le (length r.buf) (contents r)
      (unfold contents in omega (arith, length-slots r.buf r.next r.n 0, v.n_in)))
append_all_refines (m ∷ ms) {r} v =
    append_all_refines ms (append-IsValid m v)
    ∙ ap₂ (λ c l. take c (reverse ms ++ l)) (length_buf-append r m) (append_refines m v)
    ∙ take-append-take (length r.buf) (length r.buf) (reverse ms) (m ∷ contents r) (omega arith)
    ∙ ap (take (length r.buf)) (
        sym (
          ap (λ l. l ++ contents r) (reverse-cons m ms)
          ∙ append_assoc (reverse ms) (m ∷ []) (contents r)))

length-contents : (r : Ring) → length (contents r) ≡ r.n
unfolding contents
length-contents r = length-slots r.buf r.next r.n 0

recent_all : {r : Ring} → IsValid r → recent r (pos 0) ≡ some (contents r)
recent_all {r} v =
    recent_refines (pos 0) v
    ∙ ap some (take_of_length-le r.n (contents r) (omega (arith, length-contents r)))

new_ring_start :
    (capacity : ℤ)
    → (length (new_ring capacity).buf ≡ capacity_or_one capacity)
      × (contents (new_ring capacity) ≡ [])
unfolding new_ring contents slots
new_ring_start capacity = (length-replicate (capacity_or_one capacity) zero_message, refl)

-- After any messages, appended to a new ring of any requested capacity, `Recent` with no limit gives
-- the last ones, newest first, as many as the ring holds (1 if the request was not positive).
pub recent-append_all :
    (capacity : ℤ) (ms : List InboundMessage)
    → recent (append_all (new_ring capacity) ms) (pos 0)
      ≡ some (take (capacity_or_one capacity) (reverse ms))
recent-append_all capacity ms =
    recent_all (append_all-IsValid ms (new_ring-IsValid capacity))
    ∙ ap some (
        append_all_refines ms (new_ring-IsValid capacity)
        ∙ ap₂ (λ c l. take c (reverse ms ++ l)) (new_ring_start capacity).0
            (new_ring_start capacity).1
        ∙ ap (take (capacity_or_one capacity)) (append-nil (reverse ms)))
