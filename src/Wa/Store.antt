-- ===== src/Wa/Store.antt =====
-- wa.go: `realStore`, over the device container of the WhatsApp library.
use wavonyx.Prelude.{List, [], ◌∷◌, Option, none, some, Str}
use wavonyx.Errors.{sentinel, session_not_found, Result, ok, err, ◌>>=◌}
use wavonyx.Wire.{WaJid}

-- The container: its devices, each with its JID as a text, if it has one.
module _ (D : Type 0) (id_of : D → Option Str) where
  -- What the container answers to `GetDevice`, with nil for a device that it does not have.
  abbrev pub Lookup : Type 0
  Lookup = WaJid → Result (Option D)

  abbrev pub found : Option D → Result D
  found none = err (sentinel session_not_found)
  found (some d) = ok d

  -- `LoadClient`, up to the client of that device.
  unfoldable pub load_client : (Str → Result WaJid) → Lookup → Str → Result D
  load_client parse get_device jid = do j ← parse jid; dev ← get_device j; found dev

  abbrev pub delete_found : (D → Result (Unit {0})) → Option D → Result (Unit {0})
  delete_found delete none = ok tt
  delete_found delete (some d) = delete d

  -- `DeleteDevice`; `delete` is the container's.
  unfoldable pub delete_device :
      (Str → Result WaJid) → Lookup → (D → Result (Unit {0})) → Str → Result (Unit {0})
  delete_device parse get_device delete jid = do
    j ← parse jid
    dev ← get_device j
    delete_found delete dev

  abbrev pub with_id : Option Str → List Str → List Str
  with_id none rest = rest
  with_id (some s) rest = s ∷ rest

  -- The loop of `LoggedInJIDs`.
  unfoldable pub jids_of : List D → List Str
  jids_of [] = []
  jids_of (d ∷ ds) = with_id (id_of d) (jids_of ds)

  -- `LoggedInJIDs`; `all` is the container's answer.
  unfoldable pub logged_in_jids : Result (List D) → Result (List Str)
  unfolding jids_of
  logged_in_jids all = do ds ← all; ok (jids_of ds)
