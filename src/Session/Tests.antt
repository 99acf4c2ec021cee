-- ===== src/Session/Tests.antt =====
-- Sessions at work.
use wavonyx.Prelude.{◌↔◌, ◌*◌, ◌≡◌, refl, [], ◌∷◌, ◌++◌, Option, none, some, true, false, codes}
use wavonyx.Prelude.Int.{◌-ℤ◌, ℤ, pos}
use wavonyx.Errors.{Error, ok, err, sentinel, outside, qr_not_available, not_logged_in}
use wavonyx.Message.{created, pairing, connected, QrInfo}
use wavonyx.Typing.Options.{default, second}
use wavonyx.Typing.Tests.{whole_floats, still}
use wavonyx.Session.State.{
  ReadTarget, set_composing, Session, World, SendJob, UnreadKey, emit, cancel_pairing,
}
use wavonyx.Session.Pairing.{
  code, current_qr, success, failure, Account, consume_qr, mark_connected,
}
use wavonyx.Session.Login.{LoginAnswers, done, login_begin, log_out}
use wavonyx.Session.Inbound.{Unread, mark_chat_read, lookup}
use wavonyx.Session.Sending.{JobAnswers, elapsed, process, typing_loop, simulate_typing}
use wavonyx.Session.Composing.{simulate_typing-typing_loop}
use wavonyx.Session.Delivery.{Answers, process-deliveries}
use wavonyx.Session.Order.{answered, served, work_all, work_all-in_order}
use wavonyx.Session.QrCode.{IsLive, current_qr-IsLive, fresh, consume_qr-terminal}
use wavonyx.Session.Receipts.{receipts, IsMap, Concerns, mark_chat_read_lem}
use wavonyx.Session.Stuck.{login_connect_error}

abbrev new_session : Session
new_session = record {
  id = codes "s1";
  created_at = pos 0;
  status = created;
  jid = [];
  push_name = [];
  webhook_url = [];
  client = none;
  qr_code = [];
  qr_expires_at = pos 0;
  pair_cancel = none;
  unread = [];
  ring = record { buf = []; next = 0; n = 0 };
  send_ch = [];
  stopped = false;
  rng = some still;
  cfg = record {
    data_dir = [];
    device_name = [];
    typing = record {
      mode = wavonyx.Typing.Options.Mode.off;
      per_char = pos 0;
      min_cps = 0;
      max_cps = 0;
      min_total = pos 0;
      max_total = pos 0;
    };
    send_min_gap = pos 0;
    send_queue = pos 2;
    ring_size = pos 2;
    max_media_bytes = pos 0;
    include_from_me = false;
    webhook = record {
      url = [];
      secret = [];
      timeout = pos 0;
      retries = pos 0;
      backoff_base = pos 0;
      backoff_max = pos 0;
      workers = pos 0;
      queue_size = pos 0;
    };
  };
  has_reg = true;
  has_hooks = true;
}

abbrev pub start : World
start = record { session = new_session; trace = [] }

abbrev hello : SendJob
hello = record {
  ticket = 1;
  to = codes "628@s.whatsapp.net";
  text = codes "hi";
  typing = none;
  media = none;
  enqueued_at = pos 0;
}

abbrev again : SendJob
again = record hello { ticket = 2 }

-- Connected, with one unread message of the recipient and two jobs.
abbrev busy : World
busy = record start {
  session = record new_session {
    status = connected;
    client = some 4;
    unread =
        (
          record { chat = codes "628@s.whatsapp.net"; sender = codes "628@s.whatsapp.net" },
          record { id = codes "m1"; phone = codes "628" },
        )
        ∷ [];
    send_ch = hello ∷ again ∷ [];
  };
}

abbrev sent : JobAnswers
sent = record {
  before = none;
  interrupted_by = none;
  slices = λ k. elapsed;
  now = pos 5000000;
  sent = ok (record { id = codes "x"; timestamp = pos 9 });
}

abbrev refused : LoginAnswers
refused = record {
  new_client = ok 4;
  pair_error = none;
  connect_error = some (outside (codes "dial"));
  number = 1;
}

abbrev offering : Session
offering = record new_session {
  status = pairing;
  qr_code = codes "2@x";
  qr_expires_at = pos 3500000000;
}

abbrev offered : QrInfo
offered = record { code = codes "2@x"; expires_at = pos 3500000000; expires_in = pos 2 }

abbrev account : Account
account = record { jid = codes "628:1@s.whatsapp.net"; push_name = codes "Me" }

process-deliveries_example : Answers hello busy (process whole_floats still hello sent busy)
process-deliveries_example = process-deliveries whole_floats still hello sent busy

work_all-in_order_example :
    (answered (work_all whole_floats still (sent ∷ []) busy)
      ≡ served 1 (hello ∷ again ∷ []) (answered busy))
    × ((work_all whole_floats still (sent ∷ []) busy).session.send_ch ≡ again ∷ [])
work_all-in_order_example =
    work_all-in_order whole_floats still (sent ∷ []) (hello ∷ again ∷ []) busy refl

offering_now : current_qr offering (pos second) ≡ ok offered
unfolding current_qr ◌-ℤ◌
offering_now = refl

current_qr-IsLive_example : IsLive offering (pos second) offered
current_qr-IsLive_example = current_qr-IsLive offering (pos second) offering_now

consume_qr-terminal_example :
    (consume_qr 1 ((success, pos 0, account) ∷ (failure, pos 1, account) ∷ []) (fresh, busy)).1
    ≡ emit (cancel_pairing 1) (emit (cancel_pairing 1) (mark_connected account busy))
consume_qr-terminal_example =
    consume_qr-terminal 1 success (pos 0) account ((failure, pos 1, account) ∷ []) fresh busy tt
      refl

login_connect_error_example :
    let (r, w) = login_begin refused (pos 0) start in
    (r ≡ done (err (outside (codes "dial"))))
    × ((b : LoginAnswers) (later : ℤ)
        → login_begin b later w ≡ (done (err (sentinel qr_not_available)), w))
    × ((y : Option Error) → log_out y w ≡ (err (sentinel not_logged_in), w))
login_connect_error_example =
    login_connect_error refused (pos 0) start 4 (outside (codes "dial")) ((λ e. cc), (λ e. cc)) refl
      refl refl

mark_chat_read_lem_example :
    (taken : Unread) × ((mark_chat_read 4 hello.to busy).trace ≡ receipts 4 taken ++ [])
    × IsMap taken
    × ((k : UnreadKey) (t : ReadTarget)
        → (lookup k taken ≡ some t)
          ↔ ((lookup k busy.session.unread ≡ some t) × Concerns hello.to k t))
    × ((k : UnreadKey) (t : ReadTarget)
        → (lookup k (mark_chat_read 4 hello.to busy).session.unread ≡ some t)
          ↔ ((lookup k busy.session.unread ≡ some t) × ¬ Concerns hello.to k t))
mark_chat_read_lem_example = mark_chat_read_lem 4 hello.to busy (tt, tt)

simulate_typing-typing_loop_example :
    simulate_typing (λ k. elapsed) 4 hello.to (17 * second) busy ≡ (
      (typing_loop 5
          (λ k. elapsed)
          0
          4
          hello.to
          (17 * second)
          (emit (set_composing 4 hello.to true) busy)).0,
      emit
          (set_composing 4 hello.to false)
          (typing_loop 5
            (λ k. elapsed)
            0
            4
            hello.to
            (17 * second)
            (emit (set_composing 4 hello.to true) busy)).1,
    )
simulate_typing-typing_loop_example =
    simulate_typing-typing_loop 2 (λ k. elapsed) 4 hello.to (17 * second) busy
