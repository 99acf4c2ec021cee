-- ===== src/Session/Calls.antt =====
-- session.go: edits, revocations and downloads, which do not go through the queue.
use wavonyx.Prelude.{ℕ, List, Option, none, some, Str, is_empty, not, trim_space, if◌then◌else◌}
use wavonyx.Prelude.Int.{pos}
use wavonyx.Errors.{
  sentinel, send_error, media_error, Result, ok, err, ◌>>=◌, ◌>>◌, guard, not_connected, empty_text,
}
use wavonyx.Message.{Status, SendResult, MediaContent}
use wavonyx.Jid.{normalize_recipient}
use wavonyx.MediaRef.{MediaRef, Codec, decode_media_ref}
use wavonyx.Session.State.{
  Client, Session, Effect, edit_text, revoke_message, download_media, World, emit,
}
use wavonyx.Session.Pairing.{is_connected}
use wavonyx.Session.Sending.{WaSendResult}

unfoldable pub connected_of : Option Client → Status → Result Client
connected_of none st = err (sentinel not_connected)
connected_of (some c) st = if is_connected st then ok c else err (sentinel not_connected)

-- `connectedClient`
unfoldable pub connected_client : Session → Result Client
unfolding connected_of
connected_client s = connected_of s.client s.status

-- The result of an edit or a revocation; there is no typing and no queue.
abbrev pub changed : Str → Result WaSendResult → Result SendResult
changed to (err e) = err (send_error to e)
changed to (ok r) = ok (record {
  message_id = r.id;
  to = to;
  timestamp = r.timestamp;
  typing_ms = pos 0;
  queued_ms = pos 0;
})

abbrev pub call {ℓ} :
    {A : Type ℓ}
    → Result A
    → (A → Effect)
    → (A → Result SendResult)
    → World
    → Result SendResult × World
call (err e) effect result w = (err e, w)
call (ok a) effect result w = (result a, emit (effect a) w)

-- The two checks of an edit, and the client.
unfoldable pub edit_target : Str → Str → Session → Result (Client × Str)
edit_target to text s = do
  guard (not (is_empty (trim_space text))) empty_text
  jid ← normalize_recipient to
  c ← connected_client s
  ok (c, jid)

-- `editMessage`
unfoldable pub edit_message :
    Result WaSendResult → Str → Str → Str → World → Result SendResult × World
edit_message sent to message_id text w =
    call (edit_target to text w.session) (λ t. edit_text t.0 t.1 message_id text)
      (λ t. changed t.1 sent) w

unfoldable pub revoke_target : Str → Session → Result (Client × Str)
revoke_target to s = do jid ← normalize_recipient to; c ← connected_client s; ok (c, jid)

-- `revokeMessage`
unfoldable pub revoke : Result WaSendResult → Str → Str → World → Result SendResult × World
revoke sent to message_id w =
    call (revoke_target to w.session) (λ t. revoke_message t.0 t.1 message_id)
      (λ t. changed t.1 sent) w

abbrev pub content_of : MediaRef → Result (List ℕ) → Result MediaContent
content_of ref (err e) = err (media_error e)
content_of ref (ok bytes) =
    ok (record { bytes = bytes; mimetype = ref.mimetype; filename = ref.filename })

unfoldable pub downloaded :
    Result MediaRef → Result Client → Result (List ℕ) → World → Result MediaContent × World
downloaded (err e) client fetched w = (err e, w)
downloaded (ok ref) (err e) fetched w = (err e, w)
downloaded (ok ref) (ok c) fetched w = (content_of ref fetched, emit (download_media c ref) w)

-- `downloadMedia`; `fetched` is what the client returns.
unfoldable pub download : Codec → Str → Result (List ℕ) → World → Result MediaContent × World
unfolding downloaded
download codec token fetched w =
    downloaded (decode_media_ref codec token) (connected_client w.session) fetched w
