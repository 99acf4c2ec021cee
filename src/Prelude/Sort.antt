-- ===== src/Prelude/Sort.antt =====
-- `sort.Slice` and the ORDER BY of the database, with the order of Go strings.
use mathlib.Core.Path.{◌≡◌, refl}
use mathlib.Core.Bool.{Bool, true, false}
use mathlib.Core.List.{List, [], ◌∷◌, Perm}
use mathlib.Core.List.Perm
use mathlib.Core.Logic.{◌⊎◌, inl, inr}
use native.Mathlib.Omega.{arith}
use wavonyx.Prelude.Tests.{◌==◌, ltb, if◌then◌else◌, Bool-cases}
use wavonyx.Prelude.Lists.{All}
use wavonyx.Prelude.Text.{Str}

-- `s < t` on strings: byte by byte, which for UTF-8 is code point by code point.
unfoldable pub str_lt : Str → Str → Bool
str_lt [] [] = false
str_lt [] (b ∷ t) = true
str_lt (a ∷ s) [] = false
str_lt (a ∷ s) (b ∷ t) = let rest = str_lt s t in if a == b then rest else ltb a b

pub str_lt-asymm : (s t : Str) → str_lt s t ≡ true → str_lt t s ≡ false
unfolding str_lt
str_lt-asymm [] [] h = refl
str_lt-asymm [] (b ∷ t) h = refl
str_lt-asymm (a ∷ s) [] h = ground arith
str_lt-asymm (a ∷ s) (b ∷ t) h = ground (arith, str_lt-asymm s t)

pub str_lt-trans_not : (s t u : Str) → str_lt t s ≡ false → str_lt u t ≡ false → str_lt u s ≡ false
unfolding str_lt
str_lt-trans_not [] [] u h k = k
str_lt-trans_not [] (b ∷ t) [] h k = refl
str_lt-trans_not [] (b ∷ t) (c ∷ u) h k = refl
str_lt-trans_not (a ∷ s) [] u h k = ground arith
str_lt-trans_not (a ∷ s) (b ∷ t) [] h k = ground arith
str_lt-trans_not (a ∷ s) (b ∷ t) (c ∷ u) h k = ground (arith, str_lt-trans_not s t u)

pub str_lt-total : (s t : Str) → str_lt t s ≡ false → (str_lt s t ≡ true) ⊎ (s ≡ t)
unfolding str_lt
str_lt-total [] [] h = inr refl
str_lt-total [] (b ∷ t) h = inl refl
str_lt-total (a ∷ s) [] h = absurd (ground arith)
str_lt-total (a ∷ s) (b ∷ t) h = ground (arith, str_lt-total s t)

module _ {ℓ} {A : Type ℓ} (less : A → A → Bool) where
  unfoldable pub insert_by : A → List A → List A
  insert_by x [] = x ∷ []
  insert_by x (y ∷ ys) = let rest = insert_by x ys in if less y x then y ∷ rest else x ∷ y ∷ ys

  unfoldable pub sort_by : List A → List A
  unfolding insert_by
  sort_by [] = []
  sort_by (x ∷ xs) = insert_by x (sort_by xs)

  -- No element comes after one that it is less than.
  abbrev pub IsSorted : List A → Type 0
  IsSorted [] = Unit
  IsSorted (x ∷ xs) = All (λ y. less y x ≡ false) xs × IsSorted xs

  -- `less` is a strict weak order.
  pub record IsOrder : Type ℓ where
    pub asymm : (a b : A) → less a b ≡ true → less b a ≡ false
    pub trans_not : (a b c : A) → less b a ≡ false → less c b ≡ false → less c a ≡ false

  insert_by-Perm : (x : A) (xs : List A) → Perm (x ∷ xs) (insert_by x xs)
  unfolding insert_by
  insert_by-Perm x [] = Perm.refl (x ∷ [])
  insert_by-Perm x (y ∷ ys) = elim (Bool-cases (less y x)) [
    | inl e ↦ rw e (Perm.trans (Perm.swap y x ys) (Perm.cons y (insert_by-Perm x ys)))
    | inr e ↦ rw e (Perm.refl (x ∷ y ∷ ys))
  ]

  pub sort_by-Perm : (xs : List A) → Perm xs (sort_by xs)
  unfolding sort_by
  sort_by-Perm [] = Perm.refl []
  sort_by-Perm (x ∷ xs) = Perm.trans (Perm.cons x (sort_by-Perm xs)) (insert_by-Perm x (sort_by xs))

  module _ (o : IsOrder) where
    All-insert_by :
        (z x : A) (xs : List A)
        → less x z ≡ false
        → All (λ y. less y z ≡ false) xs
        → All (λ y. less y z ≡ false) (insert_by x xs)
    unfolding insert_by
    All-insert_by z x [] h v = (h, tt)
    All-insert_by z x (y ∷ ys) h (u, v) = ground (arith, All-insert_by z x ys h v)

    All-trans :
        (x y : A) (ys : List A)
        → less y x ≡ false
        → All (λ z. less z y ≡ false) ys
        → All (λ z. less z x ≡ false) ys
    All-trans x y [] h v = tt
    All-trans x y (z ∷ zs) h (u, v) = (o.trans_not x y z h u, All-trans x y zs h v)

    insert_by-IsSorted : (x : A) (xs : List A) → IsSorted xs → IsSorted (insert_by x xs)
    unfolding insert_by
    insert_by-IsSorted x [] v = (tt, tt)
    insert_by-IsSorted x (y ∷ ys) (u, v) = elim (Bool-cases (less y x)) [
      | inl e ↦ rw e (All-insert_by y x ys (o.asymm y x e) u, insert_by-IsSorted x ys v)
      | inr e ↦ rw e ((e, All-trans x y ys e u), (u, v))
    ]

    pub sort_by-IsSorted : (xs : List A) → IsSorted (sort_by xs)
    unfolding sort_by
    sort_by-IsSorted [] = tt
    sort_by-IsSorted (x ∷ xs) = insert_by-IsSorted x (sort_by xs) (sort_by-IsSorted xs)
