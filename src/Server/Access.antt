-- ===== src/Server/Access.antt =====
-- server/server.go: what a request without the API key gets.
use wavonyx.Prelude.{◌≡◌, Bool, true, false, codes, str_eq, is_empty}
use wavonyx.Prelude.Int.{ℤ}
use wavonyx.Server.Http.{Request, Response, Config, Lib, write_error, auth}
use wavonyx.Server.Upload.{Parsed, MimeLib}
use wavonyx.Server.Api.{SessionApi}
use wavonyx.Server.Handlers.{
  Decoder, Route, health, create_session, list_sessions, get_session, update_session, login, qr,
  logout, delete_session, send_message, recent_messages, download_media, edit_message,
  revoke_message, not_found, serve, serve_route, create_handler, list_handler, get_handler,
  update_handler, login_handler, qr_handler, logout_handler, delete_handler, send_handler,
  recent_handler, download_handler, edit_handler, revoke_handler, with_default,
}

-- The routes that need no key: the liveness check, and the answer to unknown routes.
abbrev pub is_open : Route → Bool
is_open health = true
is_open not_found = true
is_open _ = false

abbrev pub unauthorized : {F : Type 0} → Lib → Request F → Response
unauthorized lib r =
    write_error lib r 401 (codes "unauthorized") (codes "missing or invalid X-API-Key")

auth-refused :
    {S F : Type 0} (lib : Lib) (r : Request F) (cfg : Config) (next : S → Response × S) (s : S)
    → is_empty cfg.api_key ≡ false
    → str_eq r.api_key cfg.api_key ≡ false
    → auth lib r cfg next s ≡ (unauthorized lib r, s)
unfolding auth
auth-refused lib r cfg next s k h = rw (k, h)

-- Where an API key is configured, a request with another key, or with none, is answered by 401 on
-- every route but the liveness check and the answer to unknown routes, and changes nothing.
pub serve-unauthorized :
    {S : Type 0} (api : SessionApi S) (cfg : Config) (lib : Lib) (mime : MimeLib) (dec : Decoder)
    (route : Route) (r : Request (ℤ → Parsed)) (s : S)
    → is_empty cfg.api_key ≡ false
    → str_eq r.api_key cfg.api_key ≡ false
    → is_open route ≡ false
    → serve api cfg lib mime dec route r s ≡ (unauthorized lib r, s)
unfolding serve serve_route create_handler list_handler get_handler update_handler login_handler
    qr_handler logout_handler delete_handler send_handler recent_handler download_handler
    edit_handler revoke_handler
serve-unauthorized api cfg lib mime dec create_session r s k h o =
    auth-refused lib r (with_default cfg) _ s k h
serve-unauthorized api cfg lib mime dec list_sessions r s k h o =
    auth-refused lib r (with_default cfg) _ s k h
serve-unauthorized api cfg lib mime dec get_session r s k h o =
    auth-refused lib r (with_default cfg) _ s k h
serve-unauthorized api cfg lib mime dec update_session r s k h o =
    auth-refused lib r (with_default cfg) _ s k h
serve-unauthorized api cfg lib mime dec login r s k h o =
    auth-refused lib r (with_default cfg) _ s k h
serve-unauthorized api cfg lib mime dec qr r s k h o = auth-refused lib r (with_default cfg) _ s k h
serve-unauthorized api cfg lib mime dec logout r s k h o =
    auth-refused lib r (with_default cfg) _ s k h
serve-unauthorized api cfg lib mime dec delete_session r s k h o =
    auth-refused lib r (with_default cfg) _ s k h
serve-unauthorized api cfg lib mime dec send_message r s k h o =
    auth-refused lib r (with_default cfg) _ s k h
serve-unauthorized api cfg lib mime dec recent_messages r s k h o =
    auth-refused lib r (with_default cfg) _ s k h
serve-unauthorized api cfg lib mime dec download_media r s k h o =
    auth-refused lib r (with_default cfg) _ s k h
serve-unauthorized api cfg lib mime dec edit_message r s k h o =
    auth-refused lib r (with_default cfg) _ s k h
serve-unauthorized api cfg lib mime dec revoke_message r s k h o =
    auth-refused lib r (with_default cfg) _ s k h
serve-unauthorized api cfg lib mime dec health r s k h o = absurd (cc)
serve-unauthorized api cfg lib mime dec not_found r s k h o = absurd (cc)
