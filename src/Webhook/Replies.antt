-- ===== src/Webhook/Replies.antt =====
-- webhook.go: what a reply means for the delivery.
use wavonyx.Prelude.{ℕ, zero, suc, ◌≤◌, ◌<◌, ◌≡◌, refl, ◌⊎◌, Bool, true, false, none, some, arith}
use wavonyx.Webhook.Delivery.{
  Reply, malformed, unreachable, status, Failure, of_status, attempt, World,
}

-- The endpoint has the event.
abbrev pub IsAccepted : Reply → Type 0
IsAccepted (status code) = (200 ≤ code) × (code < 300)
IsAccepted _ = ⊥

-- The failure may pass: the transport failed, the server did, or there were too many requests.
abbrev pub IsPassing : Reply → Type 0
IsPassing (malformed e) = ⊥
IsPassing (unreachable e) = Unit
IsPassing (status code) = (500 ≤ code) ⊎ (code ≡ 429)

pub attempt-accepted : (r : Reply) → IsAccepted r → attempt r ≡ (false, none)
unfolding attempt
attempt-accepted (malformed e) h = absurd h
attempt-accepted (unreachable e) h = absurd h
attempt-accepted (status code) h = ground arith

pub attempt-passing : (r : Reply) → IsPassing r → (f : Failure) × (attempt r ≡ (true, some f))
unfolding attempt
attempt-passing (malformed e) h = absurd h
attempt-passing (unreachable e) h = (_, refl)
attempt-passing (status code) h = (of_status code, ground arith)

pub IsAccepted-of_attempt : (r : Reply) {b : Bool} → attempt r ≡ (b, none) → IsAccepted r
unfolding attempt
IsAccepted-of_attempt (malformed e) h = absurd (cc)
IsAccepted-of_attempt (unreachable e) h = absurd (cc)
IsAccepted-of_attempt (status code) h = ground arith

-- From the k-th attempt on, m attempts meet a failure that may pass, the next is accepted, and the
-- context is not done meanwhile.
unfoldable pub IsClear : World → ℕ → ℕ → Type 0
IsClear w k zero = (w.done_before k ≡ false) × IsAccepted (w.reply k)
IsClear w k (suc m) =
    (w.done_before k ≡ false)
    × IsPassing (w.reply k)
    × (w.done_after k ≡ false)
    × IsClear w (suc k) m
