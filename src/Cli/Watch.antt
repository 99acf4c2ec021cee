-- ===== src/Cli/Watch.antt =====
-- cmd/wavonyx/cmd_message.go: `watch` prints the messages as they arrive.
use wavonyx.Prelude.{Bool, not, List, [], ◌∷◌, ◌++◌, Str, if◌then◌else◌}
use wavonyx.Errors.{Result, ok, err}
use wavonyx.Message.{InboundMessage}
use wavonyx.Cli.Args.{one_of}

-- `seenIDs` of the messages of an answer, and `current`.
abbrev pub ids : List InboundMessage → List Str
ids [] = []
ids (m ∷ ms) = m.message_id ∷ ids ms

abbrev pub is_new : List Str → InboundMessage → Bool
is_new seen m = not (one_of seen m.message_id)

-- The loop that prints: from the last message to the first, those that were not seen.
unfoldable pub printed : List Str → List InboundMessage → List InboundMessage
printed seen [] = []
printed seen (m ∷ ms) = let rest = printed seen ms in if is_new seen m then rest ++ m ∷ [] else rest

-- One round of the loop of `runWatch`: what it prints, and what it has seen. An error is only shown.
unfoldable pub poll : List Str → Result (List InboundMessage) → List InboundMessage × List Str
unfolding printed
poll seen (err e) = ([], seen)
poll seen (ok ms) = (printed seen ms, ids ms)

-- The rounds, each with the server's answer; what they print.
unfoldable pub watch : List Str → List (Result (List InboundMessage)) → List InboundMessage
unfolding poll
watch seen [] = []
watch seen (answer ∷ answers) = let (out, seen') = poll seen answer in out ++ watch seen' answers
