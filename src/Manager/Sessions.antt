-- ===== src/Manager/Sessions.antt =====
-- manager.go: the map of the sessions.
use wavonyx.Prelude.{◌≡◌, refl, [], ◌∷◌, none, some, Str, str_eq, str_eq_iff, arith, if◌then◌else◌}
use wavonyx.Session.State.{Session}
use wavonyx.Manager.{Sessions, session_of, put, drop_session}

pub session_of-put :
    (id k : Str) (s : Session) (m : Sessions)
    → session_of id (put k s m) ≡ (if str_eq k id then some s else session_of id m)
unfolding session_of put
session_of-put id k s [] = refl
session_of-put id k s ((j, t) ∷ m) =
    ground (arith, session_of-put id k s m, str_eq_iff k id, str_eq_iff j id, str_eq_iff j k)

pub session_of-drop_session :
    (id k : Str) (m : Sessions)
    → session_of id (drop_session k m) ≡ (if str_eq k id then none else session_of id m)
unfolding session_of drop_session
session_of-drop_session id k [] = ground arith
session_of-drop_session id k ((j, t) ∷ m) =
    ground (arith, session_of-drop_session id k m, str_eq_iff k id, str_eq_iff j id, str_eq_iff j k)
