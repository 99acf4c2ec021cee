-- ===== src/Session/Pairing.antt =====
-- session.go: pairing, the life of the connection, and what the client's callbacks do.
use wavonyx.Prelude.{
  ◌/◌, Bool, true, false, not, ◌&&◌, ◌||◌, List, [], ◌∷◌, Option, none, some, Str, str_eq, is_empty,
  if◌then◌else◌,
}
use wavonyx.Prelude.Int.{ℤ, pos, pos_part, ◌+ℤ◌, ◌-ℤ◌, is_nonpos}
use wavonyx.Errors.{sentinel, Result, ok, err, qr_not_available}
use wavonyx.Message.{
  Time, Status, created, pairing, connected, disconnected, logged_out, QrInfo, SessionInfo,
}
use wavonyx.Typing.Options.{second}
use wavonyx.Jid.{phone_from_jid}
use wavonyx.Session.State.{
  Client, Pairing, Session, disconnect, send_available, cancel_pairing, update_jid, World, emit,
  emit_for, update,
}

abbrev pub is_connected : Status → Bool
is_connected connected = true
is_connected _ = false

abbrev pub is_pairing : Status → Bool
is_pairing pairing = true
is_pairing _ = false

abbrev pub is_disconnected : Status → Bool
is_disconnected disconnected = true
is_disconnected _ = false

abbrev pub is_set {ℓ} : {A : Type ℓ} → Option A → Bool
is_set none = false
is_set (some a) = true

abbrev pub text_or_old : Str → Str → Str
text_or_old new old = if is_empty new then old else new

abbrev pub clear_qr : Session → Session
clear_qr s = record s { qr_code = []; qr_expires_at = pos 0 }

-- `currentQRLocked` at the instant `now`.
unfoldable pub current_qr_locked : Session → Time → Option QrInfo
unfolding ◌-ℤ◌
current_qr_locked s now =
    if is_empty s.qr_code || is_nonpos (s.qr_expires_at -ℤ now)
    then none
    else some (record {
      code = s.qr_code;
      expires_at = s.qr_expires_at;
      expires_in = pos (pos_part (s.qr_expires_at -ℤ now) / second);
    })

abbrev pub or_not_available : Option QrInfo → Result QrInfo
or_not_available none = err (sentinel qr_not_available)
or_not_available (some qr) = ok qr

-- `currentQR`
unfoldable pub current_qr : Session → Time → Result QrInfo
unfolding current_qr_locked
current_qr s now = or_not_available (current_qr_locked s now)

abbrev pub set_push_name : Option Client → Str → Session → Session
set_push_name none name s = s
set_push_name (some c) name s = record s { push_name = text_or_old name s.push_name }

-- `refreshPushName`; `name` is what the client answers.
unfoldable pub refresh_push_name : Str → Session → Session
refresh_push_name name s = set_push_name s.client name s

-- `info`
unfoldable pub info : Str → Session → Session × SessionInfo
unfolding refresh_push_name
info name s =
    let s' = refresh_push_name name s in
    (
      s',
      record {
        id = s'.id;
        status = s'.status;
        jid = s'.jid;
        phone = phone_from_jid s'.jid;
        push_name = s'.push_name;
        webhook_url = s'.webhook_url;
        created_at = s'.created_at;
      },
    )

-- `setWebhookURL`
unfoldable pub set_webhook_url : Str → Session → Session
set_webhook_url url s = record s { webhook_url = url }

-- What the client answers to `JID` and `PushName`.
pub record Account : Type 0 where
  pub jid : Str
  pub push_name : Str

abbrev pub learned : Account → Session → Session
learned a s = clear_qr (record s {
  jid = text_or_old a.jid s.jid;
  push_name = text_or_old a.push_name s.push_name;
  status = connected;
})

abbrev pub is_new_jid : Account → Session → Bool
is_new_jid a s = not (is_empty a.jid) && not (str_eq a.jid s.jid) && s.has_reg

-- An error of `UpdateJID` or `SendAvailable` is only logged.
unfoldable pub connected_with : Option Client → Account → World → World
connected_with none a w = w
connected_with (some c) a w =
    let w' = update (learned a) w in
    emit (send_available c)
      (if is_new_jid a w.session then emit (update_jid w.session.id a.jid) w' else w')

-- `markConnected`
unfoldable pub mark_connected : Account → World → World
unfolding connected_with
mark_connected a w = connected_with w.session.client a w

-- `onDisconnected`
unfoldable pub on_disconnected : World → World
on_disconnected =
    update λ s. if is_connected s.status then record s { status = disconnected } else s

-- `onLoggedOut`
unfoldable pub on_logged_out : World → World
on_logged_out = update λ s. clear_qr (record s { status = logged_out })

-- `failPairing`
unfoldable pub fail_pairing : World → World
fail_pairing w = emit_for w.session.client disconnect (
    update
      (λ s.
        clear_qr
          (record s { status = if is_pairing s.status then created else s.status; client = none }))
      w)

-- `qrItem`; every event that is neither a code nor a success ends the pairing.
pub data QrItem : Type 0 where
  code : Str → ℤ → QrItem
  success failure : QrItem

-- What `consumeQR` keeps: whether the first signal was sent, and which, and whether it is over.
pub record Consumer : Type 0 where
  pub first : Option (Option QrInfo)
  pub terminal : Bool

abbrev pub signal : Option QrInfo → Consumer → Consumer
signal qr c = record c { first = elim c.first [ none ↦ some qr | some old ↦ some old ] }

abbrev pub finish : Consumer → Consumer
finish c = record c { terminal = true }

abbrev pub offer : Str → ℤ → Time → Session → Session
offer qr timeout now s = record s {
  qr_code = qr;
  qr_expires_at = now +ℤ timeout;
  status = if is_connected s.status then connected else pairing;
}

-- One round of the loop of `consumeQR` for the pairing `p`, at the instant `now`, with what the client
-- answers if it is asked. `cancel` runs again when the loop ends.
unfoldable pub consume_item :
    Pairing → QrItem → Time → Account → Consumer × World → Consumer × World
unfolding mark_connected fail_pairing current_qr_locked ◌+ℤ◌
consume_item p item now a (c, w) = if c.terminal then (c, w) else (elim item [
  | code qr timeout ↦
      let w' = update (offer qr timeout now) w in (signal (current_qr_locked w'.session now) c, w')
  | success ↦ (finish (signal none c), emit (cancel_pairing p) (mark_connected a w))
  | failure ↦ (finish (signal none c), emit (cancel_pairing p) (fail_pairing w))
])

-- The loop, with what follows it.
unfoldable pub consume_qr :
    Pairing → List (QrItem × Time × Account) → Consumer × World → Consumer × World
consume_qr p [] (c, w) = (signal none c, emit (cancel_pairing p) w)
consume_qr p ((item, now, a) ∷ items) cw = consume_qr p items (consume_item p item now a cw)
