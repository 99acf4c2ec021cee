-- ===== src/Cli/Once.antt =====
-- cmd/wavonyx/cmd_message.go: `watch` prints each message once.
use mathlib.Core.List.{append_assoc, append-nil}
use wavonyx.Prelude.{
  ℕ, zero, suc, ◌-◌, ◌≤◌, ◌≡◌, refl, sym, Bool-cases, inl, inr, ap, ap₂, ◌∙◌, true, false, List, [],
  ◌∷◌, ◌++◌, Str, str_eq_self, length, take, All, arith,
}
use wavonyx.Errors.{Error, Result, ok, err}
use wavonyx.Message.{InboundMessage}
use wavonyx.Cli.Args.{one_of}
use wavonyx.Cli.Watch.{ids, is_new, printed, poll, watch}

-- Messages that come newest first, oldest first.
abbrev pub oldest_first : List InboundMessage → List InboundMessage
oldest_first [] = []
oldest_first (m ∷ ms) = oldest_first ms ++ m ∷ []

-- The messages' ids are not among those of others.
abbrev pub AreNew : List InboundMessage → List InboundMessage → Type 0
AreNew others = All (λ m. one_of (ids others) m.message_id ≡ false)

-- What the server answers to the rounds: an error, or the last `n` of all messages, newest first, of
-- which at most `n` are new and have new ids. The last index is what came, oldest first.
pub data Answers (n : ℕ)
    : List InboundMessage → List (Result (List InboundMessage)) → List InboundMessage → Type 0 where
  ends : {h : List InboundMessage} → Answers n h [] []
  fails :
      {h came : List InboundMessage} {rest : List (Result (List InboundMessage))} (e : Error)
      → Answers n h rest came
      → Answers n h (err e ∷ rest) came
  reads :
      {h came : List InboundMessage} {rest : List (Result (List InboundMessage))}
      (b : List InboundMessage)
      → AreNew h b
      → length b ≤ n
      → Answers n (b ++ h) rest came
      → Answers n h (ok (take n (b ++ h)) ∷ rest) (oldest_first b ++ came)

one_of-take :
    (n : ℕ) (h : List InboundMessage) (s : Str)
    → one_of (ids h) s ≡ false
    → one_of (ids (take n h)) s ≡ false
one_of-take zero h s e = refl
one_of-take (suc n) [] s e = refl
one_of-take (suc n) (m ∷ h) s e = ground (arith, one_of-take n h s, e)

printed-new :
    (n : ℕ) (h b : List InboundMessage) → AreNew h b → printed (ids (take n h)) b ≡ oldest_first b
unfolding printed
printed-new n h [] v = refl
printed-new n h (m ∷ b) (u, v) =
    rw (one_of-take n h m.message_id u) (ap (λ l. l ++ m ∷ []) (printed-new n h b v))

-- A message that stands among the seen ones is not printed.
printed-seen :
    (seen : List Str) (ms : List InboundMessage)
    → All (λ m. one_of seen m.message_id ≡ true) ms
    → printed seen ms ≡ []
unfolding printed
printed-seen seen [] v = refl
printed-seen seen (m ∷ ms) (u, v) = rw u (printed-seen seen ms v)

All-one_of-cons :
    (s : Str) (seen : List Str) (ms : List InboundMessage)
    → All (λ m. one_of seen m.message_id ≡ true) ms
    → All (λ m. one_of (s ∷ seen) m.message_id ≡ true) ms
All-one_of-cons s seen [] v = tt
All-one_of-cons s seen (m ∷ ms) (u, v) = (ground (arith, u), All-one_of-cons s seen ms v)

take-seen :
    (k n : ℕ) (h : List InboundMessage)
    → k ≤ n
    → All (λ m. one_of (ids (take n h)) m.message_id ≡ true) (take k h)
take-seen zero n h e = tt
take-seen (suc k) zero h e = absurd (omega arith)
take-seen (suc k) (suc n) [] e = tt
take-seen (suc k) (suc n) (m ∷ h) e = (
  ground (arith, str_eq_self m.message_id),
  All-one_of-cons m.message_id (ids (take n h)) (take k h) (take-seen k n h (omega arith)),
)

printed-append :
    (seen : List Str) (xs ys : List InboundMessage)
    → printed seen (xs ++ ys) ≡ printed seen ys ++ printed seen xs
unfolding printed
printed-append seen [] ys = sym (append-nil (printed seen ys))
printed-append seen (m ∷ xs) ys = elim (Bool-cases (is_new seen m)) [
  | inl e ↦ rw e (
      ap (λ l. l ++ m ∷ []) (printed-append seen xs ys)
      ∙ append_assoc (printed seen ys) (printed seen xs) (m ∷ []))
  | inr e ↦ rw e (printed-append seen xs ys)
]

take-append_le :
    (n : ℕ) (b h : List InboundMessage)
    → length b ≤ n
    → take n (b ++ h) ≡ b ++ take (n - length b) h
take-append_le n [] h e = ap (λ k. take k h) (omega arith)
take-append_le zero (m ∷ b) h e = absurd (omega arith)
take-append_le (suc n) (m ∷ b) h e =
    ap (λ l. m ∷ l) (take-append_le n b h (omega arith) ∙ ap (λ k. b ++ take k h) (omega arith))

printed-window :
    (n : ℕ) (h b : List InboundMessage)
    → AreNew h b
    → length b ≤ n
    → printed (ids (take n h)) (take n (b ++ h)) ≡ oldest_first b
printed-window n h b v e =
    ap (printed (ids (take n h))) (take-append_le n b h e)
    ∙ printed-append (ids (take n h)) b (take (n - length b) h)
    ∙ ap₂ (λ x y. x ++ y)
        (printed-seen (ids (take n h)) (take (n - length b) h)
          (take-seen (n - length b) n h (omega arith)))
        (printed-new n h b v)

-- If at most n messages, with new ids, come between two answers, each of them the last n messages,
-- then `watch` prints all the messages that come, each of them once and in the order in which they
-- came, however many of its requests fail in between.
pub watch-Answers :
    (n : ℕ) (h came : List InboundMessage) (answers : List (Result (List InboundMessage)))
    → Answers n h answers came
    → watch (ids (take n h)) answers ≡ came
unfolding watch poll
watch-Answers n h _ _ ends = refl
watch-Answers n h came _ (fails e rest) = watch-Answers n h came _ rest
watch-Answers n h _ _ (reads {came = came} b v e rest) =
    ap₂ (λ x y. x ++ y) (printed-window n h b v e) (watch-Answers n (b ++ h) came _ rest)
