-- ===== src/Cli/Tests.antt =====
-- The command line at work.
use wavonyx.Prelude.{
  ℕ, length, arith, All, if◌then◌else◌, ◌≡◌, refl, Bool, true, false, not, ◌&&◌, List, [], ◌∷◌,
  ◌++◌, Option, none, some, Str, codes, zero, suc, take,
}
use wavonyx.Errors.{Result, ok, err, outside}
use wavonyx.Message.{InboundMessage, zero_message}
use wavonyx.Cli.Args.{FlagSet, permute_flags}
use wavonyx.Cli.Order
use wavonyx.Cli.Dispatch.{is_answer, is_help, dispatch, command_by, commands, asks_flag}
use wavonyx.Cli.Help.{dispatch_answers}
use wavonyx.Cli.Watch.{ids, watch}
use wavonyx.Cli.Once.{Answers, ends, fails, reads, watch-Answers}
use wavonyx.Cli.Client.{Envelope, limit}
use wavonyx.Cli.Reads.{IsRead, serve-said}
use wavonyx.Server.Http.{Payload, Body, error_body, Response}
use wavonyx.Server.Handlers.{create_session, serve}
use wavonyx.Server.Managed.{manager_api}
use wavonyx.Server.Tests.{no_url, answers, locked, lib, mime, decoder, request, before}

abbrev leading : List Str
leading = codes "--url" ∷ codes "http://host" ∷ codes "--json" ∷ []

dispatch_answers_example :
    is_answer (dispatch 2 (codes "help") (codes "-h" ∷ []))
    ≡ not (is_help (command_by commands (codes "help")) && asks_flag (codes "-h" ∷ []))
dispatch_answers_example = dispatch_answers 0 (codes "help") (codes "-h" ∷ [])

abbrev hello : InboundMessage
hello = record zero_message { message_id = codes "a" }

abbrev again : InboundMessage
again = record zero_message { message_id = codes "b" }

abbrev polls : List (Result (List InboundMessage))
polls = ok (again ∷ hello ∷ []) ∷ err (outside (codes "timeout")) ∷ []

polls-Answers : Answers 2 (hello ∷ []) polls (again ∷ [])
unfolding wavonyx.Prelude.str_eq
polls-Answers =
    reads (again ∷ []) (refl, tt) (wavonyx.Prelude.leb→le 1 2 refl)
      (fails (outside (codes "timeout")) ends)

watch-Answers_example : watch (ids (take 2 (hello ∷ []))) polls ≡ again ∷ []
watch-Answers_example = watch-Answers 2 (hello ∷ []) (again ∷ []) polls polls-Answers

-- An encoding of errors: the code behind its length, and the message.
abbrev written : Body → List ℕ
written (error_body code m) = length code ∷ code ++ m
written _ = []

abbrev cut_at : ℕ → Str → Str × Str
cut_at zero s = ([], s)
cut_at (suc n) [] = ([], [])
cut_at (suc n) (c ∷ s) = let (front, back) = cut_at n s in (c ∷ front, back)

abbrev parsed : List ℕ → Envelope Payload
parsed [] = record { value = none; error = none }
parsed (n ∷ s) = record { value = none; error = some (cut_at n s) }

abbrev answer : Response
answer =
    (serve (manager_api no_url answers) locked lib mime decoder create_session request before).0

serve-said_example : IsRead written parsed answer.status answer.body
unfolding serve wavonyx.Server.Handlers.serve_route wavonyx.Server.Handlers.create_handler
    wavonyx.Server.Http.auth wavonyx.Prelude.str_eq
serve-said_example =
    serve-said written parsed (manager_api no_url answers) locked lib mime decoder create_session
      request before (ground arith) (refl, wavonyx.Prelude.leb→le 41 limit refl)

-- A flag without its value at the end, and what comes after two dashes.
abbrev flags : FlagSet
flags name = if wavonyx.Prelude.str_eq name (codes "o") then some false else none

permuted :
    permute_flags flags (codes "sales" ∷ codes "-o" ∷ codes "f" ∷ codes "--" ∷ codes "-x" ∷ [])
    ≡ codes "-o" ∷ codes "f" ∷ codes "sales" ∷ codes "-x" ∷ []
unfolding permute_flags wavonyx.Prelude.str_eq wavonyx.Prelude.starts_with wavonyx.Prelude.contains
permuted = refl

abbrev given : List Str
given = codes "sales" ∷ codes "-o" ∷ codes "f" ∷ codes "--json" ∷ codes "6281" ∷ []

abbrev options : List Str
options = codes "-o" ∷ codes "f" ∷ codes "--json" ∷ []

abbrev words : List Str
words = codes "sales" ∷ codes "6281" ∷ []
