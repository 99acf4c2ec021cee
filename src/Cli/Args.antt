-- ===== src/Cli/Args.antt =====
-- cmd/wavonyx/main.go and output.go: the order of flags and arguments.
use wavonyx.Prelude.{
  Bool, true, false, not, ◌&&◌, ◌||◌, ◌==◌, List, [], ◌∷◌, ◌++◌, Option, none, some, Str, codes,
  str_eq, starts_with, contains, cut, is_empty, length, ltb, any, if◌then◌else◌,
}

-- `strings.TrimLeft(s, "-")`
unfoldable pub trim_dashes : Str → Str
trim_dashes [] = []
trim_dashes (c ∷ s) = if c == b'-' then trim_dashes s else c ∷ s

abbrev pub before {ℓ} : {A : Type ℓ} → Str → Option (Str × A) → Str
before s none = s
before s (some (a, b)) = a

-- `strings.Cut(name, "=")`, its first part.
abbrev pub flag_name : Str → Str
flag_name name = before name (cut b'=' name)

abbrev pub one_of : List Str → Str → Bool
one_of names s = any (str_eq s) names

-- `globalValueFlags` and `globalBoolFlags`
abbrev pub is_global_value : Str → Bool
is_global_value = one_of (codes "url" ∷ codes "key" ∷ codes "timeout" ∷ [])

abbrev pub is_global_bool : Str → Bool
is_global_bool = one_of (codes "json" ∷ [])

abbrev pub is_flag : Str → Bool
is_flag arg = starts_with arg (codes "-") && not (str_eq arg (codes "-"))

-- A leading flag that carries its own value, or takes none.
abbrev pub is_single : Str → Bool
is_single arg = let name = trim_dashes arg in contains b'=' name || is_global_bool (flag_name name)

-- A leading flag whose value is the next argument.
abbrev pub is_pair : Str → Bool
is_pair arg = is_global_value (flag_name (trim_dashes arg))

-- The command, and the arguments after the leading flags, which come back in `leading`. `held` is a
-- flag whose value comes next.
unfoldable pub split_from : Option Str → List Str → List Str → Str × List Str
split_from none leading [] = ([], leading)
split_from (some f) leading [] = (f, leading)
split_from (some f) leading (a ∷ args) = split_from none (leading ++ f ∷ a ∷ []) args
split_from none leading (a ∷ args) =
    let single = split_from none (leading ++ a ∷ []) args in
    let pair = split_from (some a) leading args in
    if is_flag a
    then (if is_single a
        then single
        else (if is_pair a && not (is_empty args) then pair else (a, leading ++ args)))
    else (a, leading ++ args)

-- `splitCommand`
unfoldable pub split_command : List Str → Str × List Str
unfolding split_from trim_dashes
split_command args = split_from none [] args

-- What a `FlagSet` knows of a flag: whether it is a Boolean one; none is an unknown flag.
abbrev pub FlagSet : Type 0
FlagSet = Str → Option Bool

abbrev pub takes_value : Option Bool → Bool
takes_value none = false
takes_value (some is_bool) = not is_bool

-- An argument that is no flag.
abbrev pub is_positional : Str → Bool
is_positional arg = ltb (length arg) 2 || not (starts_with arg (codes "-"))

-- Whether the next argument is the flag's value.
abbrev pub wants_next : FlagSet → Str → Bool
wants_next fs arg = let name = trim_dashes arg in not (contains b'=' name) && takes_value (fs name)

-- The loop of `permuteFlags`: the flags and the positional arguments. The first argument is the value
-- of the flag before it, if `value` says so.
unfoldable pub sort_args : FlagSet → Bool → List Str → List Str × List Str
sort_args fs value [] = ([], [])
sort_args fs true (a ∷ args) = let (flags, rest) = sort_args fs false args in (a ∷ flags, rest)
sort_args fs false (a ∷ args) =
    let (flags, rest) = sort_args fs (not (is_positional a) && wants_next fs a) args in
    if str_eq a (codes "--")
    then ([], args)
    else (if is_positional a then (flags, a ∷ rest) else (a ∷ flags, rest))

-- `permuteFlags`
unfoldable pub permute_flags : FlagSet → List Str → List Str
unfolding sort_args trim_dashes
permute_flags fs args = let (flags, rest) = sort_args fs false args in flags ++ rest
