-- ===== src/Manager/Consistency.antt =====
-- manager.go: the map of the sessions and the table of the registry agree.
use wavonyx.Prelude.{◌≡◌, ◌∙◌, Option, none, some, Str}
use wavonyx.Registry.{Row, Table, find}
use wavonyx.Session.State.{Session}
use wavonyx.Manager.{Sessions, session_of}

-- A session and a row of one id: both or neither, and with one webhook URL.
unfoldable pub Agrees : Option Session → Option Row → Type 0
Agrees none none = Unit
Agrees (some s) (some r) = s.webhook_url ≡ r.webhook_url
Agrees _ _ = ⊥

pub Agrees-same_url :
    (s t : Session) (r : Option Row)
    → t.webhook_url ≡ s.webhook_url
    → Agrees (some s) r
    → Agrees (some t) r
unfolding Agrees
Agrees-same_url s t none e v = v
Agrees-same_url s t (some x) e v = e ∙ v

-- The map and the table agree on every id.
pub record IsConsistent (sessions : Sessions) (table : Table) : Type 0 where
  pub agree : (id : Str) → Agrees (session_of id sessions) (find id table)
