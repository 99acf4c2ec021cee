-- ===== src/Server/Sound.antt =====
-- server/server.go: the answers of all handlers.
use wavonyx.Prelude.{
  Bool-cases, ℕ, ◌≡◌, ◌⊎◌, inl, inr, refl, [], Option, none, some, Str, codes, is_empty, arith,
  length, starts_with,
}
use wavonyx.Prelude.Int.{ℤ, pos, is_neg}
use wavonyx.Errors.{Result, ok, err}
use wavonyx.Message.{MediaContent}
use wavonyx.Server.Texts.{sanitize_filename_clean}
use wavonyx.Server.Http.{
  deleted, logged_out_id, current_qr, messages, pairing_qr, Request, Payload, session_info,
  sessions, healthy, sent, Config, Lib, write_error, auth, decode_json,
}
use wavonyx.Server.Upload.{
  BodyError, Upload, Form, Parsed, parsed, refused, is_body_too_large, MimeLib, TypingField, absent,
  given, invalid, typing_field,
}
use wavonyx.Server.Api.{SessionApi}
use wavonyx.Server.Handlers
use wavonyx.Server.Handlers.{
  Decoder, Route, health, create_session, list_sessions, get_session, update_session, login, qr,
  logout, delete_session, send_message, recent_messages, download_media, edit_message,
  revoke_message, not_found, serve, serve_route, with_default,
}
use wavonyx.Server.Replies.{
  IsSound, SafeHex, request_id-IsSafe, write_data-IsSound, write_error-IsSound,
  write_api_error-IsSound, if-IsSound, auth-IsSound, decode_json-IsSound,
}

module _ {S : Type 0} (api : SessionApi S) (cfg : Config) (lib : Lib) (mime : MimeLib)
    (dec : Decoder) (r : Request (ℤ → Parsed)) (hex : SafeHex lib.random_hex) where
  reply-IsSound :
      {A : Type 0} (code : ℕ) (payload : A → Payload) (x : Result A × S)
      → (code ≡ 200) ⊎ (code ≡ 201)
      → IsSound (Handlers.reply api cfg lib mime dec r code payload x).0
  unfolding Handlers.reply
  reply-IsSound code payload (err e, s) h = write_api_error-IsSound lib r hex e
  reply-IsSound code payload (ok a, s) h = write_data-IsSound lib r hex code (payload a) h

  refusal-IsSound : (name m : Str) → IsSound (write_error lib r 400 name m)
  refusal-IsSound name m = write_error-IsSound lib r hex 400 name m (omega arith) (omega arith)

  update_by-IsSound :
      (o : Option Str) (s : S) → IsSound (Handlers.update_by api cfg lib mime dec r o s).0
  update_by-IsSound none s = refusal-IsSound (codes "missing_webhook_url") _
  update_by-IsSound (some url) s =
      reply-IsSound 200 session_info (api.update_webhook r.id url s) (inl refl)

  media_error-IsSound :
      (e : BodyError) → IsSound (Handlers.write_media_body_error api cfg lib mime dec r e)
  unfolding Handlers.write_media_body_error
  media_error-IsSound e = elim (Bool-cases (is_body_too_large e)) [
    | inl h ↦ rw h (
        write_error-IsSound lib r hex 413 (codes "media_too_large")
          (codes "media file exceeds the size limit") (omega arith) (omega arith))
    | inr h ↦ rw h (refusal-IsSound (codes "invalid_multipart") (codes "invalid multipart form"))
  ]

  send_upload-IsSound :
      (f : Form) (u : Upload) (t : TypingField) (s : S)
      → IsSound (Handlers.send_upload api cfg lib mime dec r f u t s).0
  send_upload-IsSound f u absent s = reply-IsSound 201 sent _ (inr refl)
  send_upload-IsSound f u (given o) s = reply-IsSound 201 sent _ (inr refl)
  send_upload-IsSound f u invalid s =
      refusal-IsSound (codes "invalid_typing") (codes "typing field is not valid JSON")

  send_read-IsSound :
      (f : Form) (u : Upload) (e : Option BodyError) (s : S)
      → IsSound (Handlers.send_read api cfg lib mime dec r f u e s).0
  send_read-IsSound f u (some e) s = media_error-IsSound e
  send_read-IsSound f u none s = send_upload-IsSound f u (typing_field mime f.typing) s

  send_file-IsSound :
      (f : Form) (o : Option Upload) (s : S)
      → IsSound (Handlers.send_file api cfg lib mime dec r f o s).0
  send_file-IsSound f none s = refusal-IsSound (codes "missing_file") (codes "missing 'file' part")
  send_file-IsSound f (some u) s = send_read-IsSound f u u.read_error s

  send_form-IsSound :
      (p : Parsed) (s : S) → IsSound (Handlers.send_form api cfg lib mime dec r p s).0
  send_form-IsSound (refused e) s = media_error-IsSound e
  send_form-IsSound (parsed f) s = send_file-IsSound f f.file s

  recent_by-IsSound :
      (limit : ℤ) (s : S) → IsSound (Handlers.recent_by api cfg lib mime dec r limit s).0
  recent_by-IsSound limit s =
      reply-IsSound 200 (λ ms. messages ms (length ms)) (api.recent r.id limit s) (inl refl)

  recent_parsed-IsSound :
      (o : Option ℤ) (s : S) → IsSound (Handlers.recent_parsed api cfg lib mime dec r o s).0
  recent_parsed-IsSound none s =
      refusal-IsSound (codes "invalid_limit") (codes "limit must be a non-negative integer")
  recent_parsed-IsSound (some n) s =
      if-IsSound lib r hex (is_neg n) _ (Handlers.recent_by api cfg lib mime dec r n s)
        (refusal-IsSound (codes "invalid_limit") (codes "limit must be a non-negative integer"))
        (recent_by-IsSound n s)

  file_reply-IsSound :
      (x : Result MediaContent × S) → IsSound (Handlers.file_reply api cfg lib mime dec r x).0
  file_reply-IsSound (err e, s) = write_api_error-IsSound lib r hex e
  file_reply-IsSound (ok c, s) =
      ((refl, (sanitize_filename_clean c.filename).0), request_id-IsSafe lib r hex r.request_id)

  send_media_handler-IsSound :
      (s : S) → IsSound (Handlers.send_media_handler api cfg lib mime dec r s).0
  unfolding Handlers.send_media_handler
  send_media_handler-IsSound s = send_form-IsSound _ s

  revoke_to-IsSound :
      (to : Str) (s : S) → IsSound (Handlers.revoke_to api cfg lib mime dec r to s).0
  revoke_to-IsSound to s = reply-IsSound 200 sent _ (inl refl)

  -- Of a route that needs no body.
  plain :
      {A : Type 0} (payload : A → Payload) (x : S → Result A × S) (s : S)
      → IsSound (auth lib r cfg (λ t. Handlers.reply api cfg lib mime dec r 200 payload (x t)) s).0
  plain payload x s = auth-IsSound lib r hex cfg _ s (reply-IsSound 200 payload (x s) (inl refl))

  serve_route-IsSound :
      (route : Route) (s : S) → IsSound (serve_route api cfg lib mime dec r route s).0
  unfolding serve_route Handlers.health_check Handlers.create_handler Handlers.list_handler
      Handlers.get_handler Handlers.update_handler Handlers.login_handler Handlers.qr_handler
      Handlers.logout_handler Handlers.delete_handler Handlers.send_handler Handlers.recent_handler
      Handlers.download_handler Handlers.edit_handler Handlers.revoke_handler Handlers.unknown_route
  serve_route-IsSound health s = write_data-IsSound lib r hex 200 healthy (inl refl)
  serve_route-IsSound create_session s = auth-IsSound lib r hex cfg _ s (
      decode_json-IsSound lib r hex dec.create_body _ _ s
        λ b t. reply-IsSound 201 session_info (api.create b.id b.webhook_url t) (inr refl))
  serve_route-IsSound list_sessions s =
      auth-IsSound lib r hex cfg _ s
        (write_data-IsSound lib r hex 200 (sessions (api.list s).0) (inl refl))
  serve_route-IsSound get_session s = plain session_info (api.get r.id) s
  serve_route-IsSound update_session s =
      auth-IsSound lib r hex cfg _ s
        (decode_json-IsSound lib r hex dec.webhook_body none _ s update_by-IsSound)
  serve_route-IsSound login s = plain pairing_qr (api.login r.id) s
  serve_route-IsSound qr s = plain current_qr (api.qr r.id) s
  serve_route-IsSound logout s = plain (λ u. logged_out_id r.id) (api.logout r.id) s
  serve_route-IsSound delete_session s = plain (λ u. deleted) (api.delete r.id) s
  serve_route-IsSound send_message s = auth-IsSound lib r hex cfg _ s (
      if-IsSound lib r hex (starts_with r.content_type (codes "multipart/form-data"))
        (Handlers.send_media_handler api cfg lib mime dec r s) _ (send_media_handler-IsSound s)
        (decode_json-IsSound lib r hex dec.send_body _ _ s
          λ req t. reply-IsSound 201 sent (api.send r.id req t) (inr refl)))
  serve_route-IsSound recent_messages s = auth-IsSound lib r hex cfg _ s (
      if-IsSound lib r hex (is_empty r.limit) (Handlers.recent_by api cfg lib mime dec r (pos 50) s)
        _ (recent_by-IsSound (pos 50) s) (recent_parsed-IsSound (lib.atoi r.limit) s))
  serve_route-IsSound download_media s = auth-IsSound lib r hex cfg _ s (
      if-IsSound lib r hex (is_empty r.token) _
        (Handlers.file_reply api cfg lib mime dec r (api.download_media r.id r.token s))
        (refusal-IsSound (codes "invalid_token") (codes "missing media token"))
        (file_reply-IsSound (api.download_media r.id r.token s)))
  serve_route-IsSound edit_message s = auth-IsSound lib r hex cfg _ s (
      decode_json-IsSound lib r hex dec.edit_body _ _ s
        λ b t. reply-IsSound 200 sent (api.edit_message r.id b.to r.message_id b.text t) (inl refl))
  serve_route-IsSound revoke_message s = auth-IsSound lib r hex cfg _ s (
      if-IsSound lib r hex (is_empty r.to)
        (decode_json lib r dec.to_body [] (Handlers.revoke_to api cfg lib mime dec r) s) _
        (decode_json-IsSound lib r hex dec.to_body [] _ s revoke_to-IsSound)
        (revoke_to-IsSound r.to s))
  serve_route-IsSound not_found s =
      write_error-IsSound lib r hex 404 (codes "unknown_route") (codes "no such endpoint")
        (omega arith) (omega arith)

-- Every answer of the server, to any request on any route and over any sessions, has a status that
-- says what its body is: 200 or 201 with data, 200 with a file whose name has no line break and no
-- double quote, or a status from 400 to 599 with an error. From 500 on the error's text is one of
-- three fixed ones, so no text of an internal error is shown. If the hexadecimal text of the random
-- bytes has only ASCII letters, digits, - _ and the full stop, then so has the request id.
pub serve-IsSound :
    {S : Type 0} (api : SessionApi S) (cfg : Config) (lib : Lib) (mime : MimeLib) (dec : Decoder)
    (route : Route) (r : Request (ℤ → Parsed)) (s : S)
    → SafeHex lib.random_hex
    → IsSound (serve api cfg lib mime dec route r s).0
unfolding serve
serve-IsSound api cfg lib mime dec route r s hex =
    serve_route-IsSound api (with_default cfg) lib mime dec r hex route s
