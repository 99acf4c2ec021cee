-- ===== src/Cli/Dispatch.antt =====
-- cmd/wavonyx/main.go: which command a name stands for, and the help.
use wavonyx.Prelude.{
  ◌||◌, ℕ, zero, suc, Bool, true, false, List, [], ◌∷◌, Option, none, some, Str, codes, str_eq,
  if◌then◌else◌,
}
use wavonyx.Cli.Args.{one_of}

pub data Command : Type 0 where
  serve healthcheck connect list status webhook logout delete : Command
  send messages watch edit revoke media version help unknown : Command

-- The cases of `dispatch`, in their order.
abbrev pub commands : List (List Str × Command)
commands =
    (codes "serve" ∷ [], serve)
    ∷ (codes "healthcheck" ∷ [], healthcheck)
    ∷ (codes "connect" ∷ codes "login" ∷ [], connect)
    ∷ (codes "list" ∷ codes "ls" ∷ codes "sessions" ∷ [], list)
    ∷ (codes "status" ∷ [], status)
    ∷ (codes "webhook" ∷ [], webhook)
    ∷ (codes "logout" ∷ [], logout)
    ∷ (codes "delete" ∷ codes "rm" ∷ [], delete)
    ∷ (codes "send" ∷ [], send)
    ∷ (codes "messages" ∷ codes "msgs" ∷ [], messages)
    ∷ (codes "watch" ∷ codes "tail" ∷ [], watch)
    ∷ (codes "edit" ∷ [], edit)
    ∷ (codes "revoke" ∷ [], revoke)
    ∷ (codes "media" ∷ codes "download" ∷ [], media)
    ∷ (codes "version" ∷ codes "-v" ∷ codes "--version" ∷ [], version)
    ∷ (codes "help" ∷ codes "-h" ∷ codes "--help" ∷ [], help)
    ∷ []

unfoldable pub command_by : List (List Str × Command) → Str → Command
command_by [] name = unknown
command_by ((names, c) ∷ rest) name = if one_of names name then c else command_by rest name

-- What the program does: a command on its arguments, or a text that it prints.
pub data Action : Type 0 where
  runs : Command → List Str → Action
  prints_usage prints_version : Action
  prints_help : Command → Action
  rejects : Str → Action

-- The cases of `runHelp`.
abbrev pub help_cases : List (List Str × Command)
help_cases =
    (codes "serve" ∷ [], serve)
    ∷ (codes "healthcheck" ∷ [], healthcheck)
    ∷ (codes "version" ∷ codes "help" ∷ [], help)
    ∷ []

-- `runHelp`; `again` is the call of `dispatch`, with the name and `-h`.
abbrev pub help_by : Option Action → Command → Option Action
help_by again serve = some (prints_help serve)
help_by again healthcheck = some (prints_help healthcheck)
help_by again help = some prints_usage
help_by again _ = again

abbrev pub action_of : Command → Str → List Str → Action
action_of version name args = prints_version
action_of unknown name args = rejects name
action_of c name args = runs c args

abbrev pub is_help : Command → Bool
is_help help = true
is_help _ = false

-- `dispatch` and `runHelp`, which call each other, with fuel; none is no answer in that many rounds.
unfoldable pub dispatch : ℕ → Str → List Str → Option Action
unfolding command_by
dispatch zero name args = none
dispatch (suc fuel) name [] =
    if is_help (command_by commands name)
    then some prints_usage
    else some (action_of (command_by commands name) name [])
dispatch (suc fuel) name (a ∷ args) =
    let again = dispatch fuel a (codes "-h" ∷ []) in
    if is_help (command_by commands name)
    then help_by again (command_by help_cases a)
    else some (action_of (command_by commands name) name (a ∷ args))

-- The arguments of the help that name the help itself by a flag.
abbrev pub asks_flag : List Str → Bool
asks_flag [] = false
asks_flag (a ∷ args) = str_eq a (codes "-h") || str_eq a (codes "--help")

abbrev pub is_answer {ℓ} : {A : Type ℓ} → Option A → Bool
is_answer none = false
is_answer (some a) = true
