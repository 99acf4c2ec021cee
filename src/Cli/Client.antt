-- ===== src/Cli/Client.antt =====
-- cmd/wavonyx/client.go: the requests of the client, and how it reads the answers.
use wavonyx.Prelude.{
  ◌^◌, take, ◌*◌, ℕ, Bool, false, ◌||◌, List, [], ◌∷◌, ◌++◌, Option, none, some, Str, codes, str_eq,
  is_empty, ltb, leb, if◌then◌else◌,
}
use wavonyx.Prelude.Int.{ℤ, pos, is_nonpos}
use wavonyx.Typing.Options.{second}

pub data Method : Type 0 where
  get post patch delete : Method

-- The body of a request: none, a JSON object of texts, or a multipart form with a file.
pub data Content : Type 0 where
  no_body : Content
  fields : List (Str × Str) → Content
  form : List (Str × Str) → Str → List ℕ → Content

pub record HttpRequest : Type 0 where
  pub method : Method
  pub path : Str
  pub content : Content

-- `client`; a timeout that is not positive is 30 seconds.
pub record HttpClient : Type 0 where
  pub base_url : Str
  pub api_key : Str
  pub timeout : ℤ

-- `newClient`
unfoldable pub new_client : Str → Str → ℤ → HttpClient
new_client base_url api_key timeout = record {
  base_url = base_url;
  api_key = api_key;
  timeout = if is_nonpos timeout then pos (30 * second) else timeout;
}

-- `net/url` and `strconv.Itoa`.
pub record Escapes : Type 0 where
  pub path_escape : Str → Str
  pub query_escape : Str → Str
  pub itoa : ℤ → Str
  pub base_name : Str → Str

-- `request`: the whole URL, and the headers that are set.
unfoldable pub full_url : HttpClient → HttpRequest → Str
full_url c r = c.base_url ++ r.path

abbrev pub header_if : Str → Str → List (Str × Str)
header_if name value = if is_empty value then [] else (name, value) ∷ []

unfoldable pub headers : HttpClient → Str → List (Str × Str)
headers c content_type =
    header_if (codes "Content-Type") content_type ++ header_if (codes "X-API-Key") c.api_key

module _ (lib : Escapes) where
  abbrev pub session_path : Str → Str
  session_path id = codes "/sessions/" ++ lib.path_escape id

  abbrev pub message_path : Str → Str → Str
  message_path id message_id = session_path id ++ (codes "/messages/" ++ lib.path_escape message_id)

  -- `listSessions`
  unfoldable pub list_sessions : HttpRequest
  list_sessions = record { method = get; path = codes "/sessions"; content = no_body }

  -- `getSession`
  unfoldable pub get_session : Str → HttpRequest
  get_session id = record { method = get; path = session_path id; content = no_body }

  -- `createSession`
  unfoldable pub create_session : Str → Str → HttpRequest
  create_session id url = record {
    method = post;
    path = codes "/sessions";
    content = fields ((codes "id", id) ∷ (codes "webhook_url", url) ∷ []);
  }

  -- `updateWebhook`
  unfoldable pub update_webhook : Str → Str → HttpRequest
  update_webhook id url = record {
    method = patch;
    path = session_path id;
    content = fields ((codes "webhook_url", url) ∷ []);
  }

  -- `login`
  unfoldable pub login : Str → HttpRequest
  login id = record { method = post; path = session_path id ++ codes "/login"; content = no_body }

  -- `qr`
  unfoldable pub qr : Str → HttpRequest
  qr id = record { method = get; path = session_path id ++ codes "/qr"; content = no_body }

  -- `logout`
  unfoldable pub logout : Str → HttpRequest
  logout id = record { method = post; path = session_path id ++ codes "/logout"; content = no_body }

  -- `deleteSession`
  unfoldable pub delete_session : Str → HttpRequest
  delete_session id = record { method = delete; path = session_path id; content = no_body }

  -- `sendText`
  unfoldable pub send_text : Str → Str → Str → HttpRequest
  send_text id to text = record {
    method = post;
    path = session_path id ++ codes "/messages";
    content = fields ((codes "to", to) ∷ (codes "text", text) ∷ []);
  }

  -- `sendMedia`; `bytes` are those of the file at `path`.
  unfoldable pub send_media : Str → Str → Str → Str → List ℕ → HttpRequest
  send_media id to caption path bytes = record {
    method = post;
    path = session_path id ++ codes "/messages";
    content =
        form ((codes "to", to) ∷ header_if (codes "caption") caption) (lib.base_name path) bytes;
  }

  -- `messages`
  unfoldable pub messages : Str → ℤ → HttpRequest
  messages id limit = record {
    method = get;
    path = session_path id ++ (codes "/messages?limit=" ++ lib.itoa limit);
    content = no_body;
  }

  -- `editMessage`
  unfoldable pub edit_message : Str → Str → Str → Str → HttpRequest
  edit_message id to message_id text = record {
    method = post;
    path = message_path id message_id ++ codes "/edit";
    content = fields ((codes "to", to) ∷ (codes "text", text) ∷ []);
  }

  -- `revokeMessage`
  unfoldable pub revoke_message : Str → Str → Str → HttpRequest
  revoke_message id to message_id = record {
    method = delete;
    path = message_path id message_id;
    content = fields ((codes "to", to) ∷ []);
  }

  -- `downloadMedia`
  unfoldable pub download_media : Str → Str → HttpRequest
  download_media id token = record {
    method = get;
    path = session_path id ++ (codes "/media?token=" ++ lib.query_escape token);
    content = no_body;
  }

-- `apiError`
pub record ApiError : Type 0 where
  pub status : ℕ
  pub code : Str
  pub message : Str

-- What a call of the client fails with: an error answer, or another error, by its text.
pub data CliError : Type 0 where
  api_error : ApiError → CliError
  plain_error : Str → CliError

-- What a call gives: nothing was there to decode, a value, or an error.
pub data Answer (A : Type 0) : Type 0 where
  empty : Answer A
  got : A → Answer A
  failed : CliError → Answer A

-- `Error` of an `apiError`; `digits` is the text of a number.
unfoldable pub error_text : (ℕ → Str) → ApiError → Str
error_text digits e =
    if is_empty e.code
    then codes "server returned status " ++ digits e.status
    else e.message ++ (codes " [" ++ e.code ++ codes "]")

-- `codeIs`
unfoldable pub code_is : CliError → Str → Bool
code_is (api_error e) code = str_eq e.code code
code_is (plain_error text) code = false

-- The envelope of an answer, whose data the standard library has decoded to a value or to the text of
-- an error; a body that is no JSON has neither part.
pub record Envelope (A : Type 0) : Type 0 where
  pub value : Option (Answer A)
  pub error : Option (Str × Str)

abbrev pub api_failure : {A : Type 0} → ℕ → Option (Str × Str) → Answer A
api_failure status none = failed (api_error (record { status = status; code = []; message = [] }))
api_failure status (some (code, message)) =
    failed (api_error (record { status = status; code = code; message = message }))

abbrev pub value_of : {A : Type 0} → Option (Answer A) → Answer A
value_of none = empty
value_of (some a) = a

abbrev is_failure : ℕ → Bool
is_failure status = ltb status 200 || leb 300 status

-- `io.LimitReader(resp.Body, 8<<20)`
abbrev pub limit : ℕ
limit = 8 * 2 ^ 20

-- `decodeEnvelope`: `unmarshal` is encoding/json's, which gives neither part if the bytes are no JSON, and
-- `body` is what comes of the body before it ends or its reading fails, which is ignored.
unfoldable pub decode_envelope : {A : Type 0} → (List ℕ → Envelope A) → ℕ → List ℕ → Answer A
decode_envelope unmarshal status body =
    let env = unmarshal (take limit body) in
    if is_failure status then api_failure status env.error else value_of env.value

-- How `downloadMedia` reads its answer; the body of a file is not limited.
unfoldable pub read_download : {A : Type 0} → (List ℕ → Envelope A) → ℕ → List ℕ → Answer (List ℕ)
read_download unmarshal status body =
    if is_failure status then api_failure status (unmarshal (take limit body)).error else got body
