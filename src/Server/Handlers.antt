-- ===== src/Server/Handlers.antt =====
-- server/server.go: the handlers, and the routes that `New` registers.
use wavonyx.Prelude.{
  ℕ, ◌*◌, ◌^◌, [], Option, none, some, Str, codes, is_empty, starts_with, length, if◌then◌else◌,
}
use wavonyx.Prelude.Int.{ℤ, pos, ◌+ℤ◌, is_neg, is_nonpos}
use wavonyx.Errors.{Result, ok, err}
use wavonyx.Message.{SendRequest, MediaSendRequest, MediaContent}
use wavonyx.Typing.Options.{Override}
use wavonyx.Server.{sanitize_filename}
use wavonyx.Server.Http.{
  Request, Payload, healthy, session_info, sessions, pairing_qr, current_qr, logged_out_id, deleted,
  sent, messages, file_body, Response, Config, Lib, request_id, Decoding, write_data, write_error,
  write_api_error, decode_json, auth,
}
use wavonyx.Server.Upload.{
  BodyError, Upload, Form, Parsed, parsed, refused, is_body_too_large, MimeLib, detect_mimetype,
  TypingField, absent, given, invalid, typing_field,
}
use wavonyx.Server.Api.{SessionApi}

-- The bodies of the handlers that take JSON.
pub record CreateBody : Type 0 where
  pub id : Str
  pub webhook_url : Str

pub record EditBody : Type 0 where
  pub to : Str
  pub text : Str

-- `encoding/json` for each type of body.
pub record Decoder : Type 0 where
  pub create_body : Str → Decoding CreateBody
  pub webhook_body : Str → Decoding (Option Str)
  pub send_body : Str → Decoding SendRequest
  pub edit_body : Str → Decoding EditBody
  pub to_body : Str → Decoding Str

-- The routes that `New` registers; which of them a request takes is for `http.ServeMux`.
pub data Route : Type 0 where
  health create_session list_sessions get_session update_session login qr logout : Route
  delete_session send_message recent_messages download_media edit_message revoke_message : Route
  not_found : Route

abbrev pub with_default : Config → Config
with_default cfg = record cfg {
  max_upload_bytes =
      if is_nonpos cfg.max_upload_bytes then pos (64 * 2 ^ 20) else cfg.max_upload_bytes;
}

-- The limit of the body of a media send, which the form is read under.
abbrev pub multipart_overhead : ℕ
multipart_overhead = 2 ^ 20

abbrev pub default_mimetype : Str → Str
default_mimetype ct = if is_empty ct then codes "application/octet-stream" else ct

module _ {S : Type 0} (api : SessionApi S) (cfg : Config) (lib : Lib) (mime : MimeLib)
    (dec : Decoder) (r : Request (ℤ → Parsed)) where
  -- The answer to a result of the API.
  unfoldable pub reply : {A : Type 0} → ℕ → (A → Payload) → Result A × S → Response × S
  reply code payload (err e, s) = (write_api_error lib r e, s)
  reply code payload (ok a, s) = (write_data lib r code (payload a), s)

  -- `health`; the time is left out.
  unfoldable pub health_check : S → Response × S
  health_check s = (write_data lib r 200 healthy, s)

  -- `createSession`
  unfoldable pub create_handler : S → Response × S
  create_handler = auth lib r cfg (
      decode_json lib r dec.create_body (record { id = []; webhook_url = [] })
        λ b s. reply 201 session_info (api.create b.id b.webhook_url s))

  -- `listSessions`
  unfoldable pub list_handler : S → Response × S
  list_handler =
      auth lib r cfg λ s. (let (l, s') = api.list s in (write_data lib r 200 (sessions l), s'))

  -- `getSession`
  unfoldable pub get_handler : S → Response × S
  get_handler = auth lib r cfg λ s. reply 200 session_info (api.get r.id s)

  abbrev pub update_by : Option Str → S → Response × S
  update_by none s = (
    write_error lib r 400 (codes "missing_webhook_url")
        (codes "body must set \"webhook_url\" (use \"\" to clear it)"),
    s,
  )
  update_by (some url) s = reply 200 session_info (api.update_webhook r.id url s)

  -- `updateSession`
  unfoldable pub update_handler : S → Response × S
  update_handler = auth lib r cfg (decode_json lib r dec.webhook_body none update_by)

  -- `login`
  unfoldable pub login_handler : S → Response × S
  login_handler = auth lib r cfg λ s. reply 200 pairing_qr (api.login r.id s)

  -- `qr`
  unfoldable pub qr_handler : S → Response × S
  qr_handler = auth lib r cfg λ s. reply 200 current_qr (api.qr r.id s)

  -- `logout`
  unfoldable pub logout_handler : S → Response × S
  logout_handler = auth lib r cfg λ s. reply 200 (λ u. logged_out_id r.id) (api.logout r.id s)

  -- `deleteSession`
  unfoldable pub delete_handler : S → Response × S
  delete_handler = auth lib r cfg λ s. reply 200 (λ u. deleted) (api.delete r.id s)

  -- `writeMediaBodyError`
  unfoldable pub write_media_body_error : BodyError → Response
  write_media_body_error e =
      if is_body_too_large e
      then write_error lib r 413 (codes "media_too_large")
          (codes "media file exceeds the size limit")
      else write_error lib r 400 (codes "invalid_multipart") (codes "invalid multipart form")

  abbrev pub media_request : Form → Upload → Option Override → MediaSendRequest
  media_request f u typing = record {
    to = f.to;
    caption = f.caption;
    typing = typing;
    bytes = u.bytes;
    mimetype = detect_mimetype mime u;
    filename = u.filename;
  }

  abbrev pub send_upload : Form → Upload → TypingField → S → Response × S
  send_upload f u absent s = reply 201 sent (api.send_media r.id (media_request f u none) s)
  send_upload f u (given o) s = reply 201 sent (api.send_media r.id (media_request f u (some o)) s)
  send_upload f u invalid s =
      (write_error lib r 400 (codes "invalid_typing") (codes "typing field is not valid JSON"), s)

  abbrev pub send_read : Form → Upload → Option BodyError → S → Response × S
  send_read f u (some e) s = (write_media_body_error e, s)
  send_read f u none s = send_upload f u (typing_field mime f.typing) s

  abbrev pub send_file : Form → Option Upload → S → Response × S
  send_file f none s =
      (write_error lib r 400 (codes "missing_file") (codes "missing 'file' part"), s)
  send_file f (some u) s = send_read f u u.read_error s

  abbrev pub send_form : Parsed → S → Response × S
  send_form (refused e) s = (write_media_body_error e, s)
  send_form (parsed f) s = send_file f f.file s

  -- `sendMediaMessage`
  unfoldable pub send_media_handler : S → Response × S
  unfolding write_media_body_error
  send_media_handler s = send_form (r.form (cfg.max_upload_bytes +ℤ pos multipart_overhead)) s

  -- `sendMessage`
  unfoldable pub send_handler : S → Response × S
  unfolding send_media_handler
  send_handler = auth lib r cfg λ s.
      (if starts_with r.content_type (codes "multipart/form-data")
        then send_media_handler s
        else decode_json lib r dec.send_body (record { to = []; text = []; typing = none })
            (λ req t. reply 201 sent (api.send r.id req t)) s)

  abbrev pub recent_by : ℤ → S → Response × S
  recent_by limit s = reply 200 (λ ms. messages ms (length ms)) (api.recent r.id limit s)

  abbrev pub recent_parsed : Option ℤ → S → Response × S
  recent_parsed none s = (
    write_error lib r 400 (codes "invalid_limit") (codes "limit must be a non-negative integer"),
    s,
  )
  recent_parsed (some n) s =
      if is_neg n
      then (
        write_error lib r 400 (codes "invalid_limit")
            (codes "limit must be a non-negative integer"),
        s,
      )
      else recent_by n s

  -- `recentMessages`
  unfoldable pub recent_handler : S → Response × S
  recent_handler =
      auth lib r cfg
        λ s. (if is_empty r.limit then recent_by (pos 50) s else recent_parsed (lib.atoi r.limit) s)

  abbrev pub file_response : MediaContent → Response
  file_response c = record {
    status = 200;
    request_id = request_id lib r.request_id;
    body = file_body (default_mimetype c.mimetype) (sanitize_filename c.filename) c.bytes;
  }

  abbrev pub file_reply : Result MediaContent × S → Response × S
  file_reply (err e, s) = (write_api_error lib r e, s)
  file_reply (ok c, s) = (file_response c, s)

  -- `downloadMedia`
  unfoldable pub download_handler : S → Response × S
  download_handler = auth lib r cfg λ s.
      (if is_empty r.token
        then (write_error lib r 400 (codes "invalid_token") (codes "missing media token"), s)
        else file_reply (api.download_media r.id r.token s))

  -- `editMessage`
  unfoldable pub edit_handler : S → Response × S
  edit_handler = auth lib r cfg (
      decode_json lib r dec.edit_body (record { to = []; text = [] })
        λ b s. reply 200 sent (api.edit_message r.id b.to r.message_id b.text s))

  abbrev pub revoke_to : Str → S → Response × S
  revoke_to to s = reply 200 sent (api.revoke_message r.id to r.message_id s)

  -- `revokeMessage`
  unfoldable pub revoke_handler : S → Response × S
  revoke_handler = auth lib r cfg λ s.
      (if is_empty r.to then decode_json lib r dec.to_body [] revoke_to s else revoke_to r.to s)

  -- `notFound`
  unfoldable pub unknown_route : S → Response × S
  unknown_route s = (write_error lib r 404 (codes "unknown_route") (codes "no such endpoint"), s)

  -- The routes of `New`, for a configuration that has its default.
  unfoldable pub serve_route : Route → S → Response × S
  unfolding health_check create_handler list_handler get_handler update_handler login_handler
      qr_handler logout_handler delete_handler send_handler recent_handler download_handler
      edit_handler revoke_handler unknown_route reply
  serve_route health s = health_check s
  serve_route create_session s = create_handler s
  serve_route list_sessions s = list_handler s
  serve_route get_session s = get_handler s
  serve_route update_session s = update_handler s
  serve_route login s = login_handler s
  serve_route qr s = qr_handler s
  serve_route logout s = logout_handler s
  serve_route delete_session s = delete_handler s
  serve_route send_message s = send_handler s
  serve_route recent_messages s = recent_handler s
  serve_route download_media s = download_handler s
  serve_route edit_message s = edit_handler s
  serve_route revoke_message s = revoke_handler s
  serve_route not_found s = unknown_route s

-- A request to the handler that `New` returns.
unfoldable pub serve :
    {S : Type 0}
    → SessionApi S
    → Config
    → Lib
    → MimeLib
    → Decoder
    → Route
    → Request (ℤ → Parsed)
    → S
    → Response × S
unfolding serve_route
serve api cfg lib mime dec route r s = serve_route api (with_default cfg) lib mime dec r route s
