-- ===== src/Manager/Listing.antt =====
-- manager.go: `List`.
use wavonyx.Prelude.{
  none, ◌⊎◌, All, some, ◌≡◌, str_eq, Option, Bool, true, false, List, [], ◌∷◌, Str, if◌then◌else◌,
}
use wavonyx.Prelude.Int.{ltb_ℤ}
use wavonyx.Prelude.Sort.{str_lt, sort_by}
use wavonyx.Message.{SessionInfo}
use wavonyx.Session.Pairing.{info}
use wavonyx.Manager.Agree.{info-url}
use wavonyx.Session.State.{Session}
use wavonyx.Manager.{Manager, Sessions, session_of}

-- The order of the list: by creation, then by id.
abbrev pub info_less : SessionInfo → SessionInfo → Bool
info_less a b =
    if ltb_ℤ a.created_at b.created_at
    then true
    else (if ltb_ℤ b.created_at a.created_at then false else str_lt a.id b.id)

-- What the loop over the map reads, with what each client answers for its push name, and the sessions
-- after that. The order of a Go map is not fixed; here it is that of the list.
unfoldable pub infos : (Str → Str) → Sessions → List SessionInfo
infos name [] = []
infos name ((id, s) ∷ m) = (info (name id) s).1 ∷ infos name m

unfoldable pub refreshed : (Str → Str) → Sessions → Sessions
refreshed name [] = []
refreshed name ((id, s) ∷ m) = (id, (info (name id) s).0) ∷ refreshed name m

-- `List`
unfoldable pub list : (Str → Str) → Manager → List SessionInfo × Manager
unfolding infos refreshed
list name m =
    (sort_by info_less (infos name m.sessions), record m { sessions = refreshed name m.sessions })

-- The sessions stand in the order of creation, the oldest first, and by id where two were created at the
-- same instant: each comes before all those that follow it.
abbrev pub IsBefore : SessionInfo → SessionInfo → Type 0
IsBefore a b =
    (ltb_ℤ a.created_at b.created_at ≡ true)
    ⊎ ((a.created_at ≡ b.created_at) × ((str_lt a.id b.id ≡ true) ⊎ (a.id ≡ b.id)))

abbrev pub InOrder : List SessionInfo → Type 0
InOrder [] = Unit
InOrder (a ∷ rest) = All (IsBefore a) rest × InOrder rest

-- A session in both places, with one URL, or in neither.
abbrev pub SameUrl : Option Session → Option Session → Type 0
SameUrl none none = Unit
SameUrl (some s) (some t) = t.webhook_url ≡ s.webhook_url
SameUrl _ _ = ⊥

SameUrl-if :
    (b : Bool) (s t : Session) (o p : Option Session)
    → t.webhook_url ≡ s.webhook_url
    → SameUrl o p
    → SameUrl (if b then some s else o) (if b then some t else p)
SameUrl-if true s t o p e v = e
SameUrl-if false s t o p e v = v

pub refreshed-SameUrl :
    (name : Str → Str) (k : Str) (m : Sessions)
    → SameUrl (session_of k m) (session_of k (refreshed name m))
unfolding refreshed session_of
refreshed-SameUrl name k [] = tt
refreshed-SameUrl name k ((id, s) ∷ m) =
    SameUrl-if (str_eq id k) s (info (name id) s).0 _ _ (info-url (name id) s)
      (refreshed-SameUrl name k m)
