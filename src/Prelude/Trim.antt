-- ===== src/Prelude/Trim.antt =====
-- `strings.TrimSpace`: when it changes nothing.
use mathlib.Core.List.{reverse, reverse-append, reverse-reverse}
use wavonyx.Prelude.{
  ◌≡◌, refl, sym, ap, ◌∙◌, inl, inr, false, [], ◌∷◌, ◌++◌, Str, is_space, trim_left, trim_space,
  Bool-cases,
}

-- The text does not start with white space.
abbrev pub StartsBare : Str → Type 0
StartsBare [] = Unit
StartsBare (c ∷ s) = is_space c ≡ false

trim_left-StartsBare : (s : Str) → StartsBare (trim_left s)
unfolding trim_left
trim_left-StartsBare [] = tt
trim_left-StartsBare (c ∷ s) = elim (Bool-cases (is_space c)) [
  | inl e ↦ rw (e) (trim_left-StartsBare s)
  | inr e ↦ rw (e) e
]

trim_left_of_StartsBare : (s : Str) → StartsBare s → trim_left s ≡ s
unfolding trim_left
trim_left_of_StartsBare [] h = refl
trim_left_of_StartsBare (c ∷ s) h = rw (h)

-- What is trimmed off stands in front.
trim_left_suffix : (s : Str) → (p : Str) × (s ≡ p ++ trim_left s)
unfolding trim_left
trim_left_suffix [] = ([], refl)
trim_left_suffix (c ∷ s) = elim (Bool-cases (is_space c)) [
  | inl e ↦ let (p, q) = trim_left_suffix s in (c ∷ p, rw (e) (ap (λ l. c ∷ l) q))
  | inr e ↦ ([], rw (e) refl)
]

StartsBare-prefix : (s t : Str) → StartsBare (s ++ t) → StartsBare s
StartsBare-prefix [] t h = tt
StartsBare-prefix (c ∷ s) t h = h

pub trim_space_of_bare : (s : Str) → StartsBare s → StartsBare (reverse s) → trim_space s ≡ s
unfolding trim_space
trim_space_of_bare s h k =
    rw (trim_left_of_StartsBare s h, trim_left_of_StartsBare (reverse s) k) (reverse-reverse s)

-- The trimmed text starts and ends with no white space.
trimmed_prefix : (s : Str) → (t : Str) × (trim_left s ≡ trim_space s ++ t)
unfolding trim_space
trimmed_prefix s =
    let (p, split) = trim_left_suffix (reverse (trim_left s)) in
    (reverse p, sym (reverse-reverse (trim_left s)) ∙ ap reverse split ∙ reverse-append p _)

pub trim_space-StartsBare : (s : Str) → StartsBare (trim_space s)
trim_space-StartsBare s =
    let (t, e) = trimmed_prefix s in
    StartsBare-prefix (trim_space s) t (rw e at (trim_left-StartsBare s))

pub reverse-trim_space-StartsBare : (s : Str) → StartsBare (reverse (trim_space s))
unfolding trim_space
reverse-trim_space-StartsBare s = rw reverse-reverse (trim_left-StartsBare (reverse (trim_left s)))

-- Trimming twice changes nothing more.
pub trim_space_idem : (s : Str) → trim_space (trim_space s) ≡ trim_space s
trim_space_idem s =
    trim_space_of_bare (trim_space s) (trim_space-StartsBare s) (reverse-trim_space-StartsBare s)
