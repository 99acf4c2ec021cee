-- ===== src/Server/Errors.antt =====
-- server/server.go and session.go: how a refused send is answered.
use wavonyx.Prelude.{
  sym, Option, none, some, Bool, true, false, not, is_empty, [], ap, ℕ, ◌≡◌, refl, ◌⊎◌, inl, inr,
  Str, arith,
}
use wavonyx.Errors.{
  Error, sentinel, Result, ok, err, ◌>>=◌, ◌>>◌, is, empty_text, invalid_typing, invalid_recipient,
  not_connected, queue_full, Sentinel, guard, media_too_large, missing_media, session_not_found,
}
use wavonyx.Message.{Time, MediaSendRequest, SendRequest, validate, validate_typing_override}
use wavonyx.Typing.Options.{FloatOps, Override}
use wavonyx.Jid.{normalize_recipient}
use wavonyx.Jid.Refusals.{normalize_recipient_refused}
use wavonyx.Session.State.{Session, SendJob}
use wavonyx.Session.Sending.{enqueue, enqueue_checked, send_job, media_job, too_large}
use wavonyx.Session.Sending
use wavonyx.Session.State.{World}
use wavonyx.Manager.{Manager, session_of, session, or_not_found}
use wavonyx.Manager.Operations.{on_session, delegated}
use wavonyx.Manager.Delegates
use wavonyx.Server.{classify, classify_by}

-- The errors of the request itself.
abbrev IsBad : Error → Type 0
IsBad e =
    (e ≡ sentinel empty_text) ⊎ (e ≡ sentinel invalid_typing) ⊎ (e ≡ sentinel invalid_recipient)

validate-IsBad :
    (ops : FloatOps) (req : SendRequest) (e : Error) → validate ops req ≡ err e → IsBad e
unfolding validate validate_typing_override
validate-IsBad ops req e h = ground arith

-- An error does not depend on the type of the value.
as_error : {A : Type 0} → Result A → Error → Error
as_error (ok a) e = e
as_error (err x) e = x

same_error : {A : Type 0} {x e : Error} → ◌≡◌ {A = Result A} (err x) (err e) → x ≡ e
unfolding as_error
same_error {A} {x} r = ap (λ t. as_error t x) r

checked :
    {A : Type 0} (v : Result (Unit {0})) (to : Result Str) (job : Str → A) (e : Error)
    → (v ≡ err e → IsBad e)
    → ((x : Error) → to ≡ err x → x ≡ sentinel invalid_recipient)
    → (v >> (to >>= λ t. ok (job t))) ≡ err e
    → IsBad e
checked (err x) to job e h k r = h (ap err (same_error r))
checked (ok u) (err x) job e h k r = inr (inr (k e (ap err (same_error r))))
checked (ok u) (ok t) job e h k r = absurd (cc)

send_job-IsBad :
    (ops : FloatOps) (ticket : ℕ) (req : SendRequest) (e : Error)
    → send_job ops ticket req ≡ err e
    → IsBad e
unfolding send_job
send_job-IsBad ops ticket req e h =
    checked (validate ops req) (normalize_recipient req.to) _ e (validate-IsBad ops req e)
      (λ x r. normalize_recipient_refused req.to r) h

bad_status : (e : Error) → IsBad e → (classify e).status ≡ 400
unfolding classify classify_by is
bad_status e (inl h) = rw h refl
bad_status e (inr (inl h)) = rw h refl
bad_status e (inr (inr h)) = rw h refl

-- The two kinds of send, up to the wait for the outcome, on the session of an id.
abbrev pub Send : Type 0
Send = SendRequest ⊎ MediaSendRequest

abbrev pub sent : FloatOps → ℕ → Send → Time → Str → Manager → Result ℕ × Manager
sent ops ticket (inl req) now id m = Delegates.send ops ticket req now id m
sent ops ticket (inr req) now id m = Delegates.send_media ops ticket req now id m

-- The status of a refusal: a bad request, no such session, no connection, or a full queue; and for an
-- attachment also that it is too large.
abbrev IsTextRefusal : ℕ → Type 0
IsTextRefusal status = (status ≡ 400) ⊎ (status ≡ 404) ⊎ (status ≡ 409) ⊎ (status ≡ 429)

abbrev pub IsRefusal : Send → ℕ → Type 0
IsRefusal (inl req) status = (status ≡ 400) ⊎ (status ≡ 404) ⊎ (status ≡ 409) ⊎ (status ≡ 429)
IsRefusal (inr req) status =
    (status ≡ 413) ⊎ (status ≡ 400) ⊎ (status ≡ 404) ⊎ (status ≡ 409) ⊎ (status ≡ 429)

enqueue_refused :
    (job : SendJob) (now : Time) (s : Session) (e : Error)
    → (enqueue job now s).0 ≡ err e
    → (e ≡ sentinel not_connected) ⊎ (e ≡ sentinel queue_full)
unfolding enqueue
enqueue_refused job now s e h = ground arith

queue_status :
    (e : Error)
    → (e ≡ sentinel not_connected) ⊎ (e ≡ sentinel queue_full)
    → ((classify e).status ≡ 409) ⊎ ((classify e).status ≡ 429)
unfolding classify classify_by is
queue_status e (inl h) = rw h (inl refl)
queue_status e (inr h) = rw h (inr refl)

-- An attachment's own errors, beside those of every request.
abbrev IsBadMedia : Error → Type 0
IsBadMedia e = (e ≡ sentinel media_too_large) ⊎ (e ≡ sentinel missing_media) ⊎ IsBad e

media_status :
    (e : Error) → IsBadMedia e → ((classify e).status ≡ 413) ⊎ ((classify e).status ≡ 400)
unfolding classify classify_by is
media_status e (inl h) = rw h (inl refl)
media_status e (inr (inl h)) = rw h (inr refl)
media_status e (inr (inr h)) = inr (bad_status e h)

override-IsBad :
    (ops : FloatOps) (o : Option Override) (e : Error)
    → validate_typing_override ops o ≡ err e
    → IsBad e
unfolding validate_typing_override
override-IsBad ops o e h = ground arith

guarded :
    {A : Type 0} (b : Bool) (x : Sentinel) (r : Result A) (e : Error)
    → (guard b x >> r) ≡ err e
    → (e ≡ sentinel x) ⊎ (r ≡ err e)
guarded true x r e h = inr h
guarded false x r e h = inl (sym (same_error h))

media_job-IsBadMedia :
    (ops : FloatOps) (ticket : ℕ) (req : MediaSendRequest) (s : Session) (e : Error)
    → media_job ops ticket req s ≡ err e
    → IsBadMedia e
unfolding media_job
media_job-IsBadMedia ops ticket req s e h =
    elim (guarded (not (is_empty req.bytes)) missing_media _ e h) [
      | inl k ↦ inr (inl k)
      | inr k ↦ elim (guarded (not (too_large ops s req)) media_too_large _ e k) [
        | inl l ↦ inl l
        | inr l ↦ inr (
            inr (
              checked (validate_typing_override ops req.typing) (normalize_recipient req.to) _ e
                (override-IsBad ops req.typing e) (λ x r. normalize_recipient_refused req.to r) l))
      ]
    ]

text_status :
    (c : Result SendJob) (now : Time) (s : Session) (e : Error)
    → (c ≡ err e → IsBad e)
    → (enqueue_checked c now s).0 ≡ err e
    → IsTextRefusal (classify e).status
unfolding enqueue_checked
text_status (err x) now s e h k = inl (bad_status e (h (ap err (same_error k))))
text_status (ok job) now s e h k = elim (queue_status e (enqueue_refused job now s e k)) [
  | inl l ↦ inr (inr (inl l))
  | inr l ↦ inr (inr (inr l))
]

file_status :
    (c : Result SendJob) (now : Time) (s : Session) (e : Error)
    → (c ≡ err e → IsBadMedia e)
    → (enqueue_checked c now s).0 ≡ err e
    → ((classify e).status ≡ 413) ⊎ IsTextRefusal (classify e).status
unfolding enqueue_checked
file_status (err x) now s e h k = elim (media_status e (h (ap err (same_error k)))) [
  | inl l ↦ inl l
  | inr l ↦ inr (inl l)
]
file_status (ok job) now s e h k = elim (queue_status e (enqueue_refused job now s e k)) [
  | inl l ↦ inr (inr (inr (inl l)))
  | inr l ↦ inr (inr (inr (inr l)))
]

unknown_status : (e : Error) → e ≡ sentinel session_not_found → (classify e).status ≡ 404
unfolding classify classify_by is
unknown_status e h = rw h refl

on_session_refused :
    (found : Option Session) (id : Str) (op : World → Result ℕ × World) (m : Manager) (e : Error)
    → (delegated (or_not_found found) id op m).0 ≡ err e
    → (e ≡ sentinel session_not_found)
      ⊎ ((s : Session) × ((op (record { session = s; trace = [] })).0 ≡ err e))
unfolding delegated
on_session_refused none id op m e h = inl (sym (same_error h))
on_session_refused (some s) id op m e h = inr (s, h)

-- A send that is refused before it is queued is answered by 400, 404 (there is no such session), 409 or
-- 429, and if it has an attachment also by 413 (it is too large): never as an internal error, and never
-- as a failure of WhatsApp.
pub send-IsRefusal :
    (ops : FloatOps) (ticket : ℕ) (req : Send) (now : Time) (id : Str) (m : Manager) (e : Error)
    → (sent ops ticket req now id m).0 ≡ err e
    → IsRefusal req (classify e).status
unfolding Delegates.send Delegates.send_media Sending.send Sending.send_media_request on_session
    session
send-IsRefusal ops ticket (inl req) now id m e h =
    elim (on_session_refused (session_of id m.sessions) id _ m e h) [
      | inl k ↦ inr (inl (unknown_status e k))
      | inr (s, k) ↦
          text_status (send_job ops ticket req) now s e (send_job-IsBad ops ticket req e) k
    ]
send-IsRefusal ops ticket (inr req) now id m e h =
    elim (on_session_refused (session_of id m.sessions) id _ m e h) [
      | inl k ↦ inr (inr (inl (unknown_status e k)))
      | inr (s, k) ↦
          file_status (media_job ops ticket req s) now s e (media_job-IsBadMedia ops ticket req s e)
            k
    ]
