-- ===== src/Registry/Order.antt =====
-- internal/registry/registry.go: the order of `List` loses no row of a table with a primary key.
use wavonyx.Prelude.Sort.{insert_by, sort_by}
use wavonyx.Prelude.{
  ◌++◌, map, ◌≡◌, refl, ◌∙◌, [], ◌∷◌, Option, none, some, Str, str_eq, str_eq_iff, arith,
  if◌then◌else◌,
}
use wavonyx.Registry.{Row, Table, find, loaded, row_less, set_where, delete_where}
use wavonyx.Registry.Laws.{find-snoc, find-set_where, find-delete_where}

-- No two rows have one id.
abbrev pub Keyed : Table → Type 0
Keyed [] = Unit
Keyed (r ∷ t) = (find r.id t ≡ none) × Keyed t

find-insert_by :
    (id : Str) (r : Row) (t : Table)
    → find r.id t ≡ none
    → find id (insert_by row_less r t) ≡ (if str_eq r.id id then some r else find id t)
unfolding find insert_by
find-insert_by id r [] e = refl
find-insert_by id r (s ∷ t) e =
    ground
      (arith, find-insert_by id r t, str_eq_iff r.id id, str_eq_iff s.id id, str_eq_iff s.id r.id)

Keyed-insert_by :
    (r : Row) (t : Table) → find r.id t ≡ none → Keyed t → Keyed (insert_by row_less r t)
unfolding find insert_by
Keyed-insert_by r [] e v = (refl, tt)
Keyed-insert_by r (s ∷ t) e (u, v) = ground (
  arith,
  Keyed-insert_by r t,
  find-insert_by s.id r t,
  str_eq_iff s.id r.id,
  str_eq_iff r.id s.id,
)

pub find-sort_by : (id : Str) (t : Table) → Keyed t → find id (sort_by row_less t) ≡ find id t
unfolding find sort_by
find-sort_by id [] v = refl
find-sort_by id (r ∷ t) (e, v) =
    ground
      (arith, find-insert_by id r (sort_by row_less t), find-sort_by r.id t v, find-sort_by id t v)

pub Keyed-sort_by : (t : Table) → Keyed t → Keyed (sort_by row_less t)
unfolding sort_by
Keyed-sort_by [] v = tt
Keyed-sort_by (r ∷ t) (e, v) =
    Keyed-insert_by r (sort_by row_less t) (find-sort_by r.id t v ∙ e) (Keyed-sort_by t v)

abbrev pub loaded_row : Option Row → Option Row
loaded_row none = none
loaded_row (some r) = some (loaded r)

pub find-loaded : (id : Str) (t : Table) → find id (map loaded t) ≡ loaded_row (find id t)
unfolding find
find-loaded id [] = refl
find-loaded id (r ∷ t) = ground (arith, find-loaded id t)

pub Keyed-loaded : (t : Table) → Keyed t → Keyed (map loaded t)
Keyed-loaded [] v = tt
Keyed-loaded (r ∷ t) (e, v) = (ground (arith, find-loaded r.id t), Keyed-loaded t v)

pub Keyed-snoc : (r : Row) (t : Table) → find r.id t ≡ none → Keyed t → Keyed (t ++ r ∷ [])
unfolding find
Keyed-snoc r [] e v = (refl, tt)
Keyed-snoc r (s ∷ t) e (u, v) =
    ground (arith, Keyed-snoc r t, find-snoc s.id r t, str_eq_iff s.id r.id, str_eq_iff r.id s.id)

pub Keyed-set_where :
    (id : Str) (f : Row → Row) (t : Table)
    → ((r : Row) → (f r).id ≡ r.id)
    → Keyed t
    → Keyed (set_where id f t)
unfolding set_where
Keyed-set_where id f [] h v = tt
Keyed-set_where id f (r ∷ t) h (e, v) =
    (ground (arith, h r, find-set_where r.id id f t h), Keyed-set_where id f t h v)

pub Keyed-delete_where : (id : Str) (t : Table) → Keyed t → Keyed (delete_where id t)
unfolding delete_where
Keyed-delete_where id [] v = tt
Keyed-delete_where id (r ∷ t) (e, v) =
    ground (arith, find-delete_where r.id id t, Keyed-delete_where id t v)
