-- ===== src/Manager/Agree.antt =====
-- manager.go and session.go: what leaves the URL of a session alone.
use wavonyx.Prelude.{◌≡◌, refl, ap, ◌∙◌, Option, none, some, Str, arith}
use wavonyx.Errors.{Result, ok, err, ◌>>◌}
use wavonyx.Session.State.{emit_for, Client, Pairing, disconnect, Session, World}
use wavonyx.Session.Pairing.{set_push_name, refresh_push_name, info}
use wavonyx.Session.Login.{emit_cancel, stop}
use wavonyx.Manager.{Effect, Manager, or_not_found}
use wavonyx.Manager.Consistency.{IsConsistent}

-- The map and the table of a manager agree.
abbrev pub Agree : Manager → Type 0
Agree m = IsConsistent m.sessions m.table

set_push_name-url :
    (c : Option Client) (name : Str) (s : Session)
    → (set_push_name c name s).webhook_url ≡ s.webhook_url
set_push_name-url none name s = refl
set_push_name-url (some c) name s = refl

pub info-url : (name : Str) (s : Session) → (info name s).0.webhook_url ≡ s.webhook_url
unfolding info refresh_push_name
info-url name s = set_push_name-url s.client name s

pub or_not_found-inv : (o : Option Session) (s : Session) → or_not_found o ≡ ok s → o ≡ some s
or_not_found-inv none s e = absurd (cc)
or_not_found-inv (some t) s e = ground arith

pub after_check :
    (c : Result (Unit {0})) (o : Option Session) (s : Session)
    → (c >> or_not_found o) ≡ ok s
    → o ≡ some s
after_check (err e) o s h = absurd (cc)
after_check (ok u) o s h = or_not_found-inv o s h

-- An operation that leaves the session's URL alone.
abbrev pub KeepsUrl {ℓ} : {A : Type ℓ} → (World → Result A × World) → Type 0
KeepsUrl op = (w : World) → (op w).1.session.webhook_url ≡ w.session.webhook_url

pub emit_for-session :
    (c : Option Client) (f : Client → Effect) (w : World) → (emit_for c f w).session ≡ w.session
emit_for-session none f w = refl
emit_for-session (some c) f w = refl

pub emit_cancel-session : (p : Option Pairing) (w : World) → (emit_cancel p w).session ≡ w.session
emit_cancel-session none w = refl
emit_cancel-session (some p) w = refl

pub stop-KeepsUrl : (w : World) → (stop w).session.webhook_url ≡ w.session.webhook_url
unfolding stop
stop-KeepsUrl w =
    ap (λ s. s.webhook_url)
      (emit_for-session w.session.client disconnect _ ∙ emit_cancel-session w.session.pair_cancel _)
