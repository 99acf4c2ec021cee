-- ===== src/Session/State.antt =====
-- session.go and wa.go: the state of a session, and the calls that it makes of its collaborators.
use wavonyx.Prelude.{ℕ, Bool, List, ◌∷◌, Option, none, some, Str}
use wavonyx.Errors.{Result}
use wavonyx.Message.{Time, Status, Kind, Event, SendResult}
use wavonyx.MediaRef.{MediaRef}
use wavonyx.Typing.Options.{Override, Rng}
use wavonyx.Ring.{Ring}
use wavonyx.Config.{Config}

-- A `waClient`, by its identity: the session only compares it with nil and calls it.
abbrev pub Client : Type 0
Client = ℕ

-- The cancel function of one pairing, by the number of the pairing.
abbrev pub Pairing : Type 0
Pairing = ℕ

-- `unreadKey` and `readTarget`
pub record UnreadKey : Type 0 where
  pub chat : Str
  pub sender : Str

pub record ReadTarget : Type 0 where
  pub id : Str
  pub phone : Str

pub record OutboundMedia : Type 0 where
  pub bytes : List ℕ
  pub mimetype : Str
  pub kind : Kind
  pub caption : Str
  pub filename : Str

-- A job of the send queue. Its `out` channel is known by `ticket`; its context enters `process` by
-- what it answers there.
pub record SendJob : Type 0 where
  pub ticket : ℕ
  pub to : Str
  pub text : Str
  pub typing : Option Override
  pub media : Option OutboundMedia
  pub enqueued_at : Time

-- The `session` struct. `has_reg` and `has_hooks` say that `reg` and `hooks` are not nil; `stopped`
-- that `done` is closed. The map of the unread messages is an association list.
pub record Session : Type 0 where
  pub id : Str
  pub created_at : Time
  pub status : Status
  pub jid : Str
  pub push_name : Str
  pub webhook_url : Str
  pub client : Option Client
  pub qr_code : Str
  pub qr_expires_at : Time
  pub pair_cancel : Option Pairing
  pub unread : List (UnreadKey × ReadTarget)
  pub ring : Ring
  pub send_ch : List SendJob
  pub stopped : Bool
  pub rng : Option Rng
  pub cfg : Config
  pub has_reg : Bool
  pub has_hooks : Bool

-- What a session asks of others: of a client, of the device store, of the context package, of the
-- registry and of the webhook dispatcher; and `deliver`, a result sent to the `out` of a job.
pub data Effect : Type 0 where
  set_handlers pair_qr connect disconnect logout send_available : Client → Effect
  cancel_pairing : Pairing → Effect
  update_jid : Str → Str → Effect
  mark_read : Client → Str → Str → Str → Effect
  set_composing : Client → Str → Bool → Effect
  send_text : Client → Str → Str → Effect
  send_media : Client → Str → OutboundMedia → Effect
  edit_text : Client → Str → Str → Str → Effect
  revoke_message : Client → Str → Str → Effect
  download_media : Client → MediaRef → Effect
  enqueue_event : Str → Event → Effect
  deliver : ℕ → Result SendResult → Effect

-- A session with the calls that it has made, the last one first.
pub record World : Type 0 where
  pub session : Session
  pub trace : List Effect

abbrev pub emit : Effect → World → World
emit e w = record w { trace = e ∷ w.trace }

abbrev pub update : (Session → Session) → World → World
update f w = record w { session = f w.session }

abbrev pub emit_for : Option Client → (Client → Effect) → World → World
emit_for none e w = w
emit_for (some c) e w = emit (e c) w
