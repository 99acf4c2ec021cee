-- ===== src/Cli/Connect.antt =====
-- cmd/wavonyx/cmd_session.go: `connect` pairs a session and shows its codes until it is connected.
use wavonyx.Prelude.{
  Bool, true, false, List, [], ◌∷◌, Option, none, some, Str, codes, str_eq, if◌then◌else◌,
}
use wavonyx.Message.{Status, created, pairing, connected, SessionInfo, QrInfo}
use wavonyx.Cli.Client.{CliError, plain_error, Answer, empty, got, failed, code_is}
use wavonyx.Cli.Commands.{zero_info}

-- What the command shows, and how it ends.
pub data Shown : Type 0 where
  draws : Str → Shown
  already_connected connected_as prints_info : SessionInfo → Shown
  cancelled : Shown
  dies : CliError → Shown

-- What the loop waits for: an interrupt, the deadline, or a tick with the answers to its two requests
-- and whether the context is done.
pub data Wake : Type 0 where
  interrupted deadline : Wake
  tick : Bool → Answer SessionInfo → Answer (Option QrInfo) → Wake

-- A round shows something and ends, or goes on with the last code.
pub data Round : Type 0 where
  ended : List Shown → Round
  goes_on : List Shown → Str → Round

-- The rotated code, if any.
unfoldable pub next_code : Str → Answer (Option QrInfo) → Round
next_code last (got (some qr)) =
    if str_eq qr.code last then goes_on [] last else goes_on (draws qr.code ∷ []) qr.code
next_code last _ = goes_on [] last

abbrev pub connected_shown : Bool → SessionInfo → List Shown
connected_shown json info = connected_as info ∷ (if json then prints_info info ∷ [] else [])

unfoldable pub by_status : Bool → Str → Str → SessionInfo → Answer (Option QrInfo) → Status → Round
unfolding next_code
by_status json timeout last info qr connected = ended (connected_shown json info)
by_status json timeout last info qr pairing = next_code last qr
by_status json timeout last info qr _ = ended (dies (plain_error (codes "pairing ended")) ∷ [])

unfoldable pub on_info :
    Bool → Str → Str → Bool → Answer SessionInfo → Answer (Option QrInfo) → Round
unfolding by_status
on_info json timeout last done (failed e) qr = if done then ended [] else ended (dies e ∷ [])
on_info json timeout last done (got info) qr = by_status json timeout last info qr info.status
on_info json timeout last done empty qr = by_status json timeout last zero_info qr created

-- One round of the loop of `runConnect`; `timeout` is the text of its last error.
unfoldable pub connect_round : Bool → Str → Str → Wake → Round
unfolding on_info
connect_round json timeout last interrupted = ended (cancelled ∷ [])
connect_round json timeout last deadline = ended (dies (plain_error timeout) ∷ [])
connect_round json timeout last (tick done info qr) = on_info json timeout last done info qr

abbrev pub prepend : List Shown → List Shown → List Shown
prepend [] rest = rest
prepend (s ∷ ss) rest = s ∷ prepend ss rest

-- The loop, over what it waits for.
unfoldable pub connect_loop : Bool → Str → Str → List Wake → List Shown
unfolding connect_round
connect_loop json timeout last [] = []
connect_loop json timeout last (w ∷ ws) = elim (connect_round json timeout last w) [
  | ended out ↦ out
  | goes_on out code ↦ prepend out (connect_loop json timeout code ws)
]

-- The error of `createSession`, but that the session is there.
unfoldable pub create_error : Answer SessionInfo → Option CliError
create_error (failed e) = if code_is e (codes "session_exists") then none else some e
create_error _ = none

abbrev pub pair : Bool → Str → List Wake → Answer (Option QrInfo) → List Shown
pair json timeout wakes (failed e) = dies e ∷ []
pair json timeout wakes (got (some qr)) = draws qr.code ∷ connect_loop json timeout qr.code wakes
pair json timeout wakes _ = dies (plain_error (codes "server did not return a QR code")) ∷ []

abbrev pub is_connected : Status → Bool
is_connected connected = true
is_connected _ = false

abbrev pub after_get :
    Bool → Str → List Wake → Answer SessionInfo → Answer (Option QrInfo) → List Shown
after_get json timeout wakes (failed e) login = dies e ∷ []
after_get json timeout wakes (got info) login =
    if is_connected info.status then already_connected info ∷ [] else pair json timeout wakes login
after_get json timeout wakes empty login = pair json timeout wakes login

abbrev pub unless_error : Option CliError → List Shown → List Shown
unless_error none out = out
unless_error (some e) out = dies e ∷ []

-- `runConnect`: the answers to the creation, to the first look and to the login, and then the loop.
unfoldable pub run_connect :
    Bool
    → Str
    → Answer SessionInfo
    → Answer SessionInfo
    → Answer (Option QrInfo)
    → List Wake
    → List Shown
unfolding connect_loop create_error
run_connect json timeout creation first login wakes =
    unless_error (create_error creation) (after_get json timeout wakes first login)
