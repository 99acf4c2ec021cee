-- ===== src/Server/Api.antt =====
-- manager.go: `SessionAPI`, the interface between the server and the manager.
use wavonyx.Prelude.{List, Str}
use wavonyx.Prelude.Int.{ℤ}
use wavonyx.Errors.{Result}
use wavonyx.Message.{
  SessionInfo, QrInfo, SendRequest, SendResult, MediaSendRequest, MediaContent, InboundMessage,
}

-- The operations, over the states `S`.
pub record SessionApi (S : Type 0) : Type 0 where
  pub create : Str → Str → S → Result SessionInfo × S
  pub update_webhook : Str → Str → S → Result SessionInfo × S
  pub list : S → List SessionInfo × S
  pub get : Str → S → Result SessionInfo × S
  pub login : Str → S → Result QrInfo × S
  pub qr : Str → S → Result QrInfo × S
  pub logout : Str → S → Result (Unit {0}) × S
  pub delete : Str → S → Result (Unit {0}) × S
  pub send : Str → SendRequest → S → Result SendResult × S
  pub send_media : Str → MediaSendRequest → S → Result SendResult × S
  pub edit_message : Str → Str → Str → Str → S → Result SendResult × S
  pub revoke_message : Str → Str → Str → S → Result SendResult × S
  pub recent : Str → ℤ → S → Result (List InboundMessage) × S
  pub download_media : Str → Str → S → Result MediaContent × S
