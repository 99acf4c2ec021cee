-- ===== src/Server/Tests.antt =====
-- Answers and texts at work.
use wavonyx.Server.Http.{Config, Lib, Request, decoded, malformed}
use wavonyx.Server.Upload.{MimeLib, Parsed, refused}
use wavonyx.Server.Handlers.{Decoder, create_session, serve}
use wavonyx.Server.Access.{unauthorized, serve-unauthorized}
use wavonyx.Server.Replies.{IsSound}
use wavonyx.Server.Sound.{serve-IsSound}
use wavonyx.Server.Managed.{ApiAnswers, manager_api}
use wavonyx.Manager.{Manager, Url}
use wavonyx.Config.{default_config}
use wavonyx.MediaRef.Tests.{plain_codec}
use wavonyx.Session.Login.{signalled}
use wavonyx.Typing.Options.{second}
use wavonyx.Prelude.{
  inr, ◌↔◌, ◌∷◌, arith, Option, Str, false, ◌≡◌, refl, [], none, some, codes, All, true, ◌≤◌,
  length,
}
use wavonyx.Prelude.Int.{ℤ, pos}
use wavonyx.Errors.{
  media_too_large, ok, Error, sentinel, empty_text, send_error, not_connected, outside, err,
}
use wavonyx.Typing.Tests.{whole_floats}
use wavonyx.Config.{default_config}
use wavonyx.Manager.{new_session}
use wavonyx.Manager.Reach.{empty_manager}
use wavonyx.Message.{MediaSendRequest}
use wavonyx.Session.Sending.{send}
use wavonyx.Server.{classify, answer, sanitize_request_id, sanitize_filename}
use wavonyx.Server.Errors.{sent, IsRefusal, send-IsRefusal}
use wavonyx.Server.Texts.{IsIdByte, sanitize_request_id_lem}

-- An attachment that is larger than the limit of the manager's one session.
abbrev limited : Manager
limited = record (empty_manager (record default_config { max_media_bytes = pos 1 }) false) {
  sessions =
      (
        codes "a",
        new_session (empty_manager (record default_config { max_media_bytes = pos 1 }) false) none
            (codes "a") [] [] (pos 1),
      )
      ∷ [];
}

abbrev two_bytes : MediaSendRequest
two_bytes = record {
  to = codes "6281234567890";
  bytes = 1 ∷ 2 ∷ [];
  mimetype = codes "image/png";
  filename = [];
  caption = [];
  typing = none;
}

large_is_refused :
    (sent whole_floats 1 (inr two_bytes) (pos 0) (codes "a") limited).0
    ≡ err (sentinel media_too_large)
unfolding wavonyx.Manager.Delegates.send_media wavonyx.Manager.Operations.on_session
    wavonyx.Manager.session wavonyx.Manager.session_of wavonyx.Prelude.str_eq
    wavonyx.Session.Sending.send_media_request wavonyx.Session.Sending.media_job new_session
large_is_refused = refl

send-IsRefusal_example : IsRefusal (inr two_bytes) (classify (sentinel media_too_large)).status
send-IsRefusal_example =
    send-IsRefusal whole_floats 1 (inr two_bytes) (pos 0) (codes "a") limited
      (sentinel media_too_large) large_is_refused

wrapped_failure :
    classify (send_error (codes "628") (outside (codes "timeout")))
    ≡ answer 502 (codes "send_failed")
unfolding classify wavonyx.Server.classify_by wavonyx.Errors.is wavonyx.Errors.as_send_error
wrapped_failure = refl

cut_header : sanitize_request_id (codes "ab c\n-1") ≡ codes "abc-1"
unfolding sanitize_request_id
cut_header = refl

plain_name : sanitize_filename (codes "a\"b\n.txt") ≡ codes "ab .txt"
unfolding sanitize_filename
plain_name = refl

sanitize_request_id_lem_example :
    All IsIdByte (sanitize_request_id (codes "a b"))
    × (length (sanitize_request_id (codes "a b")) ≤ 128)
    × ((sanitize_request_id (codes "a b") ≡ codes "a b")
        ↔ (All IsIdByte (codes "a b") × (length (codes "a b") ≤ 128)))
sanitize_request_id_lem_example = sanitize_request_id_lem (codes "a b")

abbrev pub no_url : Str → Option Url
no_url raw = none

abbrev pub answers : ApiAnswers
answers = record {
  generated = codes "s_1";
  now = pos second;
  rng = none;
  refused = none;
  name = λ id. [];
  login = record { new_client = ok 4; pair_error = none; connect_error = none; number = 1 };
  wait = signalled none;
  logout_error = none;
  ops = whole_floats;
  ticket = 1;
  outcome = λ t. err (sentinel not_connected);
  sent = err (sentinel not_connected);
  codec = plain_codec;
  fetched = err (sentinel not_connected);
}

abbrev pub lib : Lib
lib = record { random_hex = some (codes "0a1b"); error_text = λ e. codes "text"; atoi = λ s. none }

abbrev pub mime : MimeLib
mime = record {
  ext = λ s. s;
  type_by_extension = λ s. [];
  detect_content_type = λ b. codes "text/plain; charset=utf-8";
  unmarshal_override = λ s. none;
}

-- A body is the id of a new session.
abbrev pub decoder : Decoder
decoder = record {
  create_body = λ s. decoded (record { id = s; webhook_url = [] });
  webhook_body = λ s. malformed;
  send_body = λ s. malformed;
  edit_body = λ s. malformed;
  to_body = λ s. malformed;
}

abbrev pub locked : Config
locked = record { api_key = codes "secret"; max_upload_bytes = pos 0 }

abbrev pub request : Request (ℤ → Parsed)
request = record {
  api_key = [];
  request_id = codes "r-1";
  content_type = [];
  id = [];
  message_id = [];
  limit = [];
  token = [];
  to = [];
  body = codes "sales";
  form = λ limit. refused (record { is_max_bytes = false; text = [] });
}

abbrev pub before : Manager
before = empty_manager default_config true

serve-unauthorized_example :
    serve (manager_api no_url answers) locked lib mime decoder create_session request before
    ≡ (unauthorized lib request, before)
unfolding wavonyx.Prelude.str_eq
serve-unauthorized_example =
    serve-unauthorized (manager_api no_url answers) locked lib mime decoder create_session request
      before refl refl refl

serve-IsSound_example :
    IsSound
      (serve (manager_api no_url answers) locked lib mime decoder create_session request before).0
serve-IsSound_example =
    serve-IsSound (manager_api no_url answers) locked lib mime decoder create_session request before
      (ground arith)
