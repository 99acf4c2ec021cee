-- ===== src/Cli/Commands.antt =====
-- cmd/wavonyx/cmd_message.go and cmd_session.go: the commands, on the flags and arguments that the
-- standard library has parsed.
use wavonyx.Prelude.{
  ℕ, Bool, true, false, not, ◌&&◌, ◌||◌, List, [], ◌∷◌, ◌++◌, Option, none, some, Str, codes,
  is_empty, get_elem?, drop, trim_space, if◌then◌else◌,
}
use wavonyx.Prelude.Int.{ℤ, pos, is_nonpos}
use wavonyx.Message.{Time, SessionInfo, SendResult, created}
use wavonyx.Cli.Client
use wavonyx.Cli.Client.{HttpRequest, Escapes, CliError, plain_error, Answer, empty, got, failed}
use wavonyx.Cli.Output.{session_table, session_detail, message_table}

-- What a command does: it ends with an error, writes lines of cells or a value as JSON, saves bytes in
-- a file, or asks the server and goes on with the answer.
pub data Script : Type 1 where
  dies : CliError → Script
  prints : List (List Str) → Script
  prints_json : {A : Type 0} → A → Script
  saves : Str → List ℕ → Script
  asks : {A : Type 0} → HttpRequest → (Answer A → Script) → Script

-- `fs.Arg(n)`
abbrev pub arg : List Str → ℕ → Str
arg args n = elim (get_elem? args n) [ none ↦ [] | some s ↦ s ]

-- `argOr`
unfoldable pub arg_or : List Str → ℕ → Str → Str
arg_or args n default = let v = trim_space (arg args n) in if is_empty v then default else v

abbrev pub default_session_id : Str
default_session_id = codes "default"

-- `strings.Join(words, " ")`
unfoldable pub join_words : List Str → Str
join_words [] = []
join_words (w ∷ []) = w
join_words (w ∷ v ∷ ws) = w ++ (codes " " ++ join_words (v ∷ ws))

-- The value of an answer, where an answer without data leaves the zero value; an error ends the command.
abbrev pub with_value : {A : Type 0} → A → (A → Script) → Answer A → Script
with_value initial next empty = next initial
with_value initial next (got a) = next a
with_value initial next (failed e) = dies e

-- A request whose answer is shown, as JSON if that is asked for.
unfoldable pub shown : {A : Type 0} → Bool → A → (A → List (List Str)) → HttpRequest → Script
shown json initial show request =
    asks request (with_value initial λ a. if json then prints_json a else prints (show a))

abbrev pub message : Str → List (List Str)
message s = (s ∷ []) ∷ []

abbrev pub stops : Str → Script
stops text = dies (plain_error text)

abbrev pub zero_info : SessionInfo
zero_info = record {
  id = [];
  status = created;
  jid = [];
  phone = [];
  push_name = [];
  webhook_url = [];
  created_at = pos 0;
}

abbrev pub zero_result : SendResult
zero_result = record {
  message_id = [];
  to = [];
  timestamp = pos 0;
  typing_ms = pos 0;
  queued_ms = pos 0;
}

-- `fmt`: a quoted text, milliseconds as seconds, and an instant.
pub record Format : Type 0 where
  pub quoted : Str → Str
  pub seconds : ℤ → Str
  pub clock : Time → Str

module _ (lib : Escapes) (fmt : Format) (json : Bool) (args : List Str) where
  -- `runList`
  unfoldable pub run_list : Script
  unfolding shown
  run_list = shown json [] (session_table fmt.clock) (Client.list_sessions lib)

  -- `runStatus`
  unfoldable pub run_status : Script
  unfolding shown
  run_status =
      shown json zero_info (session_detail fmt.clock)
        (Client.get_session lib (arg_or args 0 default_session_id))

  abbrev pub webhook_text : Bool → Str → SessionInfo → Str
  webhook_text false id s =
      if is_empty s.webhook_url
      then codes "Session "
        ++ fmt.quoted id
        ++ codes " has no webhook of its own; it uses the server's global one."
      else codes "Session " ++ fmt.quoted id ++ codes " delivers to " ++ s.webhook_url
  webhook_text true id s =
      if is_empty s.webhook_url
      then codes "Cleared the webhook for "
        ++ fmt.quoted id
        ++ codes "; it now uses the server's global one."
      else codes "Session " ++ fmt.quoted id ++ codes " now delivers to " ++ s.webhook_url

  -- `runWebhook`, with its flag.
  unfoldable pub run_webhook : Bool → Script
  unfolding shown
  run_webhook clear =
      let id = arg args 0 in
      let setting = clear || not (is_empty (arg args 1)) in
      let target = if clear then [] else arg args 1 in
      if is_empty id
      then stops (codes "usage: wavonyx webhook <session-id> [url]")
      else shown json zero_info (λ s. message (webhook_text setting id s))
          (if setting then Client.update_webhook lib id target else Client.get_session lib id)

  -- `runLogout`
  unfoldable pub run_logout : Script
  run_logout =
      let id = arg_or args 0 default_session_id in
      asks (Client.logout lib id) (
        with_value tt λ (u : Unit {0}). prints (
          message (
            codes "Session "
            ++ fmt.quoted id
            ++ codes " logged out. Pair again with: wavonyx connect "
            ++ id)))

  -- `runDelete`
  unfoldable pub run_delete : Script
  run_delete =
      let id = arg args 0 in
      if is_empty id
      then stops (codes "usage: wavonyx delete <session-id>")
      else asks (Client.delete_session lib id) (
          with_value tt λ (u : Unit {0}).
            prints (message (codes "Session " ++ fmt.quoted id ++ codes " deleted.")))

  abbrev pub typed : ℤ → Str
  typed ms = if is_nonpos ms then [] else codes ", typed for " ++ fmt.seconds ms ++ codes "s"

  abbrev pub sent_text : SendResult → Str
  sent_text r =
      codes "Sent to " ++ r.to ++ codes " (id " ++ r.message_id ++ typed r.typing_ms ++ codes ")"

  -- The request of a send: a file, or a text.
  abbrev pub send_by : Str → Option (List ℕ) → Str → Str → Str → Script
  send_by file none id to text = stops (codes "open " ++ file)
  send_by file (some bytes) id to text =
      shown json zero_result (λ r. message (sent_text r))
        (Client.send_media lib id to text file bytes)

  -- `runSend`; `contents` is what opening and reading the file gives.
  unfoldable pub run_send : Str → Option (List ℕ) → Script
  unfolding shown join_words
  run_send file contents =
      let id = arg args 0 in
      let to = arg args 1 in
      let text = join_words (drop 2 args) in
      if is_empty id || is_empty to
      then stops (codes "usage: wavonyx send <session-id> <to> <text...>")
      else if is_empty file && is_empty (trim_space text)
      then stops (codes "nothing to send: provide message text, or --file to send an attachment")
      else if is_empty file
      then shown json zero_result (λ r. message (sent_text r)) (Client.send_text lib id to text)
      else send_by file contents id to text

  -- `runMessages`
  unfoldable pub run_messages : ℤ → Script
  unfolding shown
  run_messages limit =
      shown json [] (message_table fmt.clock)
        (Client.messages lib (arg_or args 0 default_session_id) limit)

  -- `runEdit`
  unfoldable pub run_edit : Script
  unfolding shown join_words
  run_edit =
      let id = arg args 0 in
      let to = arg args 1 in
      let message_id = arg args 2 in
      let text = join_words (drop 3 args) in
      if is_empty id || is_empty to || is_empty message_id
      then stops (codes "usage: wavonyx edit <session-id> <to> <message-id> <new text...>")
      else if is_empty (trim_space text)
      then stops (codes "provide the new message text")
      else shown json zero_result
          (λ r. message (codes "Edited " ++ message_id ++ codes " in " ++ r.to ++ codes "."))
          (Client.edit_message lib id to message_id text)

  -- `runRevoke`
  unfoldable pub run_revoke : Script
  unfolding shown
  run_revoke =
      let id = arg args 0 in
      let to = arg args 1 in
      let message_id = arg args 2 in
      if is_empty id || is_empty to || is_empty message_id
      then stops (codes "usage: wavonyx revoke <session-id> <to> <message-id>")
      else shown json zero_result
          (λ r. message (codes "Deleted " ++ message_id ++ codes " in " ++ r.to ++ codes "."))
          (Client.revoke_message lib id to message_id)

  abbrev pub file_name : Str → Str → Str
  file_name out suggested =
      if not (is_empty out)
      then out
      else if not (is_empty suggested)
      then suggested
      else codes "download"

  -- `runMedia`, with its flag; the answer is the bytes and the name that the server suggests.
  unfoldable pub run_media : Str → Script
  run_media out =
      let id = arg args 0 in
      let token = arg args 1 in
      if is_empty id || is_empty token
      then stops (codes "usage: wavonyx media <session-id> <token>")
      else asks (Client.download_media lib id token)
          (with_value ([], []) λ (a : List ℕ × Str). saves (file_name out a.1) a.0)
