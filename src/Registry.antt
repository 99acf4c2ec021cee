-- ===== src/Registry.antt =====
-- internal/registry/registry.go: the table of the sessions, one row for each id.
pub mod Laws
pub mod Order
use wavonyx.Prelude.{
  map, ◌/◌, ◌==◌, ℕ, Bool, true, false, List, [], ◌∷◌, ◌++◌, Option, none, some, Str, str_eq,
  if◌then◌else◌,
}
use wavonyx.Prelude.Sort.{str_lt, sort_by}
use wavonyx.Prelude.Int.{ltb_ℤ, ℤ, pos, negsuc, ◌+ℤ◌, ◌-ℤ◌, ◌*ℤ◌}
use wavonyx.Typing.Options.{second}
use wavonyx.Errors.{outside, sentinel, registry_not_found, registry_exists, Result, ok, err}

-- `Session`. In the struct `created_at` is an instant; in a row of the table it is the column's whole
-- seconds of Unix time.
pub record Row : Type 0 where
  pub id : Str
  pub jid : Str
  pub webhook_url : Str
  pub created_at : ℤ

abbrev pub Table : Type 0
Table = List Row

-- The row whose primary key is the id.
unfoldable pub find : Str → Table → Option Row
find id [] = none
find id (r ∷ rs) = if str_eq r.id id then some r else find id rs

-- `Unix` and `time.Unix`: the zero instant lies in the year 1. Go's division towards minus infinity.
abbrev pub epoch : ℕ
epoch = 62135596800

abbrev pub unix : ℤ → ℤ
unix (pos n) = pos (n / second) -ℤ pos epoch
unix (negsuc n) = negsuc (n / second) -ℤ pos epoch

abbrev pub of_unix : ℤ → ℤ
of_unix t = (t +ℤ pos epoch) *ℤ pos second

abbrev is_zero : ℤ → Bool
is_zero (pos n) = n == 0
is_zero (negsuc n) = false

-- The values that `Create` writes, at the instant `now`, and those that a scan reads.
abbrev pub stored : ℤ → Row → Row
stored now r = record r { created_at = unix (if is_zero r.created_at then now else r.created_at) }

abbrev pub loaded : Row → Row
loaded r = record r { created_at = of_unix r.created_at }

abbrev pub insert_new : Option Row → Row → Table → Result (Unit {0}) × Table
insert_new none r t = (ok tt, t ++ r ∷ [])
insert_new (some old) r t = (err (sentinel registry_exists), t)

-- A statement, unless the database refuses it with an error of its own, known by its text.
abbrev pub executed {ℓ} : {A : Type ℓ} → Option Str → Result A × Table → Table → Result A × Table
executed none done t = done
executed (some e) done t = (err (outside e), t)

-- `Create`; `refused` is an error of the database other than a taken id.
unfoldable pub create : Option Str → ℤ → Row → Table → Result (Unit {0}) × Table
create refused now r t = executed refused (insert_new (find r.id t) (stored now r) t) t

abbrev pub found : Option Row → Result Row
found none = err (sentinel registry_not_found)
found (some r) = ok (loaded r)

-- `Get`
unfoldable pub get : Option Str → Str → Table → Result Row
get none id t = found (find id t)
get (some e) id t = err (outside e)

-- The rows that a WHERE clause on the id picks, changed.
unfoldable pub set_where : Str → (Row → Row) → Table → Table
set_where id f [] = []
set_where id f (r ∷ rs) = (if str_eq r.id id then f r else r) ∷ set_where id f rs

unfoldable pub delete_where : Str → Table → Table
delete_where id [] = []
delete_where id (r ∷ rs) = if str_eq r.id id then delete_where id rs else r ∷ delete_where id rs

-- `requireOne`: some row was affected.
abbrev pub require_one : Option Row → Result (Unit {0})
require_one none = err (sentinel registry_not_found)
require_one (some r) = ok tt

-- `UpdateJID`
unfoldable pub update_jid : Option Str → Str → Str → Table → Result (Unit {0}) × Table
update_jid refused id jid t =
    executed refused (require_one (find id t), set_where id (λ r. record r { jid = jid }) t) t

-- `UpdateWebhook`
unfoldable pub update_webhook : Option Str → Str → Str → Table → Result (Unit {0}) × Table
update_webhook refused id url t =
    executed refused (require_one (find id t), set_where id (λ r. record r { webhook_url = url }) t)
      t

-- `Delete`
unfoldable pub delete : Option Str → Str → Table → Result (Unit {0}) × Table
delete refused id t = executed refused (require_one (find id t), delete_where id t) t

-- `Init`, which creates the table if it is not there.
unfoldable pub init : Option Str → Result (Unit {0})
init none = ok tt
init (some e) = err (outside e)

-- `ORDER BY created_at, id`
abbrev pub row_less : Row → Row → Bool
row_less a b =
    if ltb_ℤ a.created_at b.created_at
    then true
    else (if ltb_ℤ b.created_at a.created_at then false else str_lt a.id b.id)

-- `List`
unfoldable pub list : Option Str → Table → Result (List Row)
list none t = ok (map loaded (sort_by row_less t))
list (some e) t = err (outside e)
