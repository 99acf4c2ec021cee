-- ===== src/Cli/Help.antt =====
-- cmd/wavonyx/main.go: when the dispatch ends.
use mathlib.Core.Path.{subst}
use wavonyx.Prelude.{
  ℕ, zero, suc, ◌≡◌, refl, sym, ap, ◌∙◌, Bool, true, false, not, ◌&&◌, ◌⊎◌, Bool-cases, inl, inr,
  List, [], ◌∷◌, Option, none, Str, codes, str_eq, str_eq_iff, arith, All,
}
use wavonyx.Cli.Args.{one_of}
use wavonyx.Cli.Dispatch.{
  healthcheck, serve, Action, Command, help, commands, command_by, help_cases, help_by, is_help,
  dispatch, asks_flag, is_answer,
}

loops_h : (fuel : ℕ) → dispatch fuel (codes "-h") (codes "-h" ∷ []) ≡ none
unfolding dispatch command_by str_eq
loops_h zero = refl
loops_h (suc fuel) = loops_h fuel

loops_help : (fuel : ℕ) → dispatch fuel (codes "--help") (codes "-h" ∷ []) ≡ none
unfolding dispatch command_by str_eq
loops_help zero = refl
loops_help (suc fuel) = loops_h fuel

-- `-h` and `--help` name the help, which has no case of its own for them.
loops :
    (fuel : ℕ) (name : Str)
    → asks_flag (name ∷ []) ≡ true
    → dispatch fuel name (codes "-h" ∷ []) ≡ none
loops fuel name h = elim (Bool-cases (str_eq name (codes "-h"))) [
  | inl e ↦
      subst (λ n. dispatch fuel n (codes "-h" ∷ []) ≡ none)
        (sym ((str_eq_iff name (codes "-h")).0 e)) (loops_h fuel)
  | inr e ↦
      subst (λ n. dispatch fuel n (codes "-h" ∷ []) ≡ none)
        (sym ((str_eq_iff name (codes "--help")).0 (ground (arith, e, h)))) (loops_help fuel)
]

-- A name that stands for the help.
abbrev names_help : Str → Bool
names_help = one_of (codes "help" ∷ codes "-h" ∷ codes "--help" ∷ [])

-- A case that is the help's has one of its names.
abbrev IsOwn : Str → List Str × Command → Type 0
IsOwn a (names, c) = (is_help c ≡ false) ⊎ (one_of names a ≡ names_help a)

command_by-help :
    (table : List (List Str × Command)) (a : Str)
    → All (IsOwn a) table
    → names_help a ≡ false
    → is_help (command_by table a) ≡ false
unfolding command_by
command_by-help [] a h n = refl
command_by-help ((names, c) ∷ rest) a (inl e, h) n = ground (arith, command_by-help rest a h n)
command_by-help ((names, c) ∷ rest) a (inr e, h) n = ground (arith, command_by-help rest a h n)

commands-IsOwn : (a : Str) → All (IsOwn a) commands
commands-IsOwn a = (
  inl refl,
  (
    inl refl,
    (
      inl refl,
      (
        inl refl,
        (
          inl refl,
          (
            inl refl,
            (
              inl refl,
              (
                inl refl,
                (
                  inl refl,
                  (
                    inl refl,
                    (inl refl, (inl refl, (inl refl, (inl refl, (inl refl, (inr refl, tt)))))),
                  ),
                ),
              ),
            ),
          ),
        ),
      ),
    ),
  ),
)

help_by-is_answer :
    (again : Option Action) (c : Command)
    → is_answer again ≡ true
    → is_answer (help_by again c) ≡ true
help_by-is_answer again serve h = refl
help_by-is_answer again healthcheck h = refl
help_by-is_answer again help h = refl
help_by-is_answer again _ h = h

-- A name that is not the help's is answered at once.
dispatch_once :
    (fuel : ℕ) (a : Str)
    → names_help a ≡ false
    → is_answer (dispatch (suc fuel) a (codes "-h" ∷ [])) ≡ true
unfolding dispatch
dispatch_once fuel a n = rw (command_by-help commands a (commands-IsOwn a) n)

helped :
    (fuel : ℕ) (a : Str)
    → asks_flag (a ∷ []) ≡ false
    → is_answer (help_by (dispatch (suc fuel) a (codes "-h" ∷ [])) (command_by help_cases a)) ≡ true
unfolding command_by str_eq
helped fuel a h = elim (Bool-cases (str_eq a (codes "help"))) [
  | inl e ↦
      subst
        (λ n.
          is_answer (help_by (dispatch (suc fuel) n (codes "-h" ∷ [])) (command_by help_cases n))
          ≡ true)
        (sym ((str_eq_iff a (codes "help")).0 e)) refl
  | inr e ↦
      help_by-is_answer (dispatch (suc fuel) a (codes "-h" ∷ [])) (command_by help_cases a)
        (dispatch_once fuel a (ground (arith, e, h)))
]

-- Neither `-h` nor `--help` has a case in the help.
unhelped :
    (again : Option Action) (a : Str)
    → asks_flag (a ∷ []) ≡ true
    → help_by again (command_by help_cases a) ≡ again
unfolding command_by str_eq
unhelped again a h = elim (Bool-cases (str_eq a (codes "-h"))) [
  | inl e ↦
      subst (λ n. help_by again (command_by help_cases n) ≡ again)
        (sym ((str_eq_iff a (codes "-h")).0 e)) refl
  | inr e ↦
      subst (λ n. help_by again (command_by help_cases n) ≡ again)
        (sym ((str_eq_iff a (codes "--help")).0 (ground (arith, e, h)))) refl
]

help_answers :
    (fuel : ℕ) (a : Str)
    → is_answer (help_by (dispatch (suc fuel) a (codes "-h" ∷ [])) (command_by help_cases a))
      ≡ not (asks_flag (a ∷ []))
help_answers fuel a = elim (Bool-cases (asks_flag (a ∷ []))) [
  | inl h ↦
      ap is_answer (unhelped (dispatch (suc fuel) a (codes "-h" ∷ [])) a h ∙ loops (suc fuel) a h)
      ∙ sym (ap not h)
  | inr h ↦ helped fuel a h ∙ sym (ap not h)
]

-- Two rounds of `dispatch` and `runHelp` are enough for every command line but one that asks the help
-- (by any of its names) about `-h` or `--help`: that one is never answered, however many rounds there
-- are.
pub dispatch_answers :
    (fuel : ℕ) (name : Str) (args : List Str)
    → is_answer (dispatch (suc (suc fuel)) name args)
      ≡ not (is_help (command_by commands name) && asks_flag args)
unfolding dispatch
dispatch_answers fuel name [] = ground arith
dispatch_answers fuel name (a ∷ args) = elim (Bool-cases (is_help (command_by commands name))) [
  | inl h ↦ rw h (help_answers fuel a)
  | inr h ↦ rw h
]
