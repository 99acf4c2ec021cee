-- ===== src/Registry/Laws.antt =====
-- internal/registry/registry.go: the table is a map from ids to rows.
use wavonyx.Prelude.{
  ◌≡◌, refl, [], ◌∷◌, ◌++◌, Option, none, some, Str, str_eq, str_eq_iff, arith, if◌then◌else◌,
}
use wavonyx.Registry.{Row, Table, find, set_where, delete_where}

pub find-snoc :
    (id : Str) (r : Row) (t : Table)
    → find r.id t ≡ none
    → find id (t ++ r ∷ []) ≡ (if str_eq r.id id then some r else find id t)
unfolding find
find-snoc id r [] e = refl
find-snoc id r (s ∷ t) e =
    ground (arith, find-snoc id r t, str_eq_iff r.id id, str_eq_iff s.id id, str_eq_iff s.id r.id)

pub find-delete_where :
    (id k : Str) (t : Table)
    → find id (delete_where k t) ≡ (if str_eq k id then none else find id t)
unfolding find delete_where
find-delete_where id k [] = ground arith
find-delete_where id k (s ∷ t) =
    ground (arith, find-delete_where id k t, str_eq_iff k id, str_eq_iff s.id id, str_eq_iff s.id k)

abbrev pub changed_row : Str → Str → (Row → Row) → Option Row → Option Row
changed_row k id f none = none
changed_row k id f (some r) = some (if str_eq k id then f r else r)

pub find-set_where :
    (id k : Str) (f : Row → Row) (t : Table)
    → ((r : Row) → (f r).id ≡ r.id)
    → find id (set_where k f t) ≡ changed_row k id f (find id t)
unfolding find set_where
find-set_where id k f [] h = refl
find-set_where id k f (s ∷ t) h =
    ground (
      arith,
      find-set_where id k f t h,
      h s,
      str_eq_iff k id,
      str_eq_iff s.id id,
      str_eq_iff s.id k,
    )
