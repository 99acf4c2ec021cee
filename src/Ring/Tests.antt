-- ===== src/Ring/Tests.antt =====
-- A ring at work.
use wavonyx.Prelude.{◌≡◌, refl, [], ◌∷◌, some, arith, codes, take}
use wavonyx.Prelude.Int.{pos}
use wavonyx.Message.{InboundMessage, zero_message}
use wavonyx.Ring.{Ring, new_ring, append, recent}
use wavonyx.Ring.Inv.{IsValid, append-IsValid}
use wavonyx.Ring.Refine.{contents, append_refines, recent_refines, append_all, recent-append_all}

abbrev first_message : InboundMessage
first_message = record zero_message { message_id = codes "a" }

abbrev second_message : InboundMessage
second_message = record zero_message { message_id = codes "b" }

abbrev third_message : InboundMessage
third_message = record zero_message { message_id = codes "c" }

-- The third message has overwritten the first.
abbrev wrapped : Ring
wrapped = record { buf = third_message ∷ second_message ∷ []; next = 1; n = 2 }

wrapped-IsValid : IsValid wrapped
wrapped-IsValid = omega arith

wrapped_by_append :
    append_all (new_ring (pos 2)) (first_message ∷ second_message ∷ third_message ∷ []) ≡ wrapped
unfolding append_all append new_ring
wrapped_by_append = refl

recent_one : recent wrapped (pos 1) ≡ some (third_message ∷ [])
unfolding recent
recent_one = refl

append-IsValid_example : IsValid (append wrapped first_message)
append-IsValid_example = append-IsValid first_message wrapped-IsValid

append_refines_example :
    contents (append wrapped first_message) ≡ take 2 (first_message ∷ contents wrapped)
append_refines_example = append_refines first_message wrapped-IsValid

recent_refines_example : recent wrapped (pos 7) ≡ some (take 2 (contents wrapped))
recent_refines_example = recent_refines (pos 7) wrapped-IsValid

recent-append_all_example :
    recent
      (append_all (new_ring (pos 2)) (first_message ∷ second_message ∷ third_message ∷ []))
      (pos 0)
    ≡ some (third_message ∷ second_message ∷ [])
recent-append_all_example =
    recent-append_all (pos 2) (first_message ∷ second_message ∷ third_message ∷ [])
