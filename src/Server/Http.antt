-- ===== src/Server/Http.antt =====
-- server/server.go: requests and responses, the envelope, the API key and JSON bodies.
use wavonyx.Prelude.{
  ℕ, ◌^◌, List, ◌++◌, Option, none, some, Str, codes, str_eq, is_empty, take, if◌then◌else◌,
}
use wavonyx.Prelude.Int.{ℤ}
use wavonyx.Errors.{Error}
use wavonyx.Message.{SessionInfo, QrInfo, SendResult, InboundMessage}
use wavonyx.Server.{classify, sanitize_request_id}

-- What the handlers read of a request: three headers, two path values, three query values, the body,
-- and the multipart form that the body may be.
pub record Request (F : Type 0) : Type 0 where
  pub api_key : Str
  pub request_id : Str
  pub content_type : Str
  pub id : Str
  pub message_id : Str
  pub limit : Str
  pub token : Str
  pub to : Str
  pub body : Str
  pub form : F

-- The payloads of the success envelope.
pub data Payload : Type 0 where
  healthy : Payload
  session_info : SessionInfo → Payload
  sessions : List SessionInfo → Payload
  pairing_qr : QrInfo → Payload
  current_qr : QrInfo → Payload
  logged_out_id : Str → Payload
  deleted : Payload
  sent : SendResult → Payload
  messages : List InboundMessage → ℕ → Payload

-- A body is an envelope with data or with an error's code and message, or the bytes of a file with its
-- type and name.
pub data Body : Type 0 where
  data_body : Payload → Body
  error_body : Str → Str → Body
  file_body : Str → Str → List ℕ → Body

pub record Response : Type 0 where
  pub status : ℕ
  pub request_id : Str
  pub body : Body

pub record Config : Type 0 where
  pub api_key : Str
  pub max_upload_bytes : ℤ

-- What is asked of other code for one request: the hexadecimal text of twelve random bytes, if there
-- are any, the text of an error, and the number that a text stands for.
pub record Lib : Type 0 where
  pub random_hex : Option Str
  pub error_text : Error → Str
  pub atoi : Str → Option ℤ

abbrev pub generated_id : Option Str → Str
generated_id none = codes "req_unknown"
generated_id (some hex) = codes "req_" ++ hex

-- `requestID`
unfoldable pub request_id : Lib → Str → Str
request_id lib header =
    let id = sanitize_request_id header in if is_empty id then generated_id lib.random_hex else id

-- `err` in `decodeJSON`: none, the end of the input, or another.
pub data Decoding (A : Type 0) : Type 0 where
  decoded : A → Decoding A
  end_of_input : Decoding A
  malformed : Decoding A

abbrev pub max_body_bytes : ℕ
max_body_bytes = 2 ^ 20

abbrev invalid_json_text : Str
invalid_json_text = codes "request body is not valid JSON"

-- The text of an error answer: that of the error, but for three codes.
abbrev pub message_for : Str → Str → Str
message_for code text =
    if str_eq code (codes "internal")
    then codes "internal error"
    else if str_eq code (codes "send_failed")
    then codes "failed to send message"
    else if str_eq code (codes "media_download_failed")
    then codes "failed to download media"
    else text

module _ {F : Type 0} (lib : Lib) (r : Request F) where
  -- `writeData`
  unfoldable pub write_data : ℕ → Payload → Response
  unfolding request_id
  write_data code payload = record {
    status = code;
    request_id = request_id lib r.request_id;
    body = data_body payload;
  }

  -- `writeError`
  unfoldable pub write_error : ℕ → Str → Str → Response
  unfolding request_id
  write_error code error_code message = record {
    status = code;
    request_id = request_id lib r.request_id;
    body = error_body error_code message;
  }

  -- `writeAPIError`
  unfoldable pub write_api_error : Error → Response
  unfolding write_error
  write_api_error e =
      let a = classify e in write_error a.status a.code (message_for a.code (lib.error_text e))

  abbrev pub decode_by : {A S : Type 0} → Decoding A → A → (A → S → Response × S) → S → Response × S
  decode_by (decoded a) zero next s = next a s
  decode_by end_of_input zero next s = next zero s
  decode_by malformed zero next s = (write_error 400 (codes "invalid_json") invalid_json_text, s)

  -- `decodeJSON`, with what follows it; `zero` is the variable that it fills, before that.
  unfoldable pub decode_json :
      {A S : Type 0} → (Str → Decoding A) → A → (A → S → Response × S) → S → Response × S
  unfolding write_error
  decode_json decode zero next s = decode_by (decode (take max_body_bytes r.body)) zero next s

  -- `auth`, with what follows it. The comparison in constant time is that of the two texts.
  unfoldable pub auth : {S : Type 0} → Config → (S → Response × S) → S → Response × S
  unfolding write_error
  auth cfg next s =
      if is_empty cfg.api_key
      then next s
      else (if str_eq r.api_key cfg.api_key
          then next s
          else (write_error 401 (codes "unauthorized") (codes "missing or invalid X-API-Key"), s))
