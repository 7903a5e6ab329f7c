-- ===== src/Main/Alone.antt =====
-- -h and -V in the tables of main.c, of the three tests and of nct_shell.c: a command line with one of
-- them has no other option.
use nct.Base.{
  ℕ, ◌≤◌, ◌≡◌, ◌≢◌, refl, sym, subst, Bool, true, false, ◌||◌, ◌==◌, Option, some, List, [], ◌∷◌,
  map, All,
}
use nct.Clp.Options.{ClpOption}
use nct.Clp.OptString.{reset_option}
use nct.Clp.Posparam.{clp_trim, skip_spaces}
use nct.Clp.Parse.{Hooks, Getopt, ParseState, clp_parsev}
use nct.Clp.Parse.Exclusion.{Face, face, clp_parsev-face}
use nct.Clp.Macros.{Entry, table_of}
use nct.Clp.Macros.Alone.{ExcludesAll, Alone, clp_parsev-Alone}
use nct.Main.Tables.{main_optionv, test_optionv, mount_optionv}

-- The tables of options of the program.
pub data Table : Type 0 where
  main_table test_table mount_table : Table

abbrev pub optionv_of : Table → List Entry
optionv_of main_table = main_optionv
optionv_of test_table = test_optionv
optionv_of mount_table = mount_optionv

-- -h or -V.
abbrev pub asks : ℕ → Bool
asks c = (c == b'h') || (c == b'V')

-- The options that ask for help or the version exclude all others.
abbrev Lone : Face → Type 0
Lone f = asks f.optopt ≡ true → f.excludes ≡ some (b'*' ∷ [])

not_asked : {x : Option (List ℕ)} → false ≡ true → x ≡ some (b'*' ∷ [])
not_asked e = let never : ⊥ = cc in absurd never

tables-Lone : (t : Table) → All Lone (map face (map reset_option (table_of 0 (optionv_of t))))
unfolding table_of reset_option clp_trim skip_spaces
tables-Lone main_table = (
  not_asked,
  (
    not_asked,
    (
      not_asked,
      (
        not_asked,
        (not_asked, (not_asked, (not_asked, (not_asked, ((λ e. refl), ((λ e. refl), tt)))))),
      ),
    ),
  ),
)
tables-Lone test_table = (not_asked, ((λ e. refl), tt))
tables-Lone mount_table =
    (not_asked, (not_asked, (not_asked, (not_asked, ((λ e. refl), ((λ e. refl), tt))))))

-- What holds of the faces holds of the options that have them.
All-face :
    (os : List ClpOption)
    → All Lone (map face os)
    → All (λ o. asks o.optopt ≡ true → ExcludesAll o) os
All-face [] a = tt
All-face (o ∷ os) a = (a.0, All-face os a.1)

-- The other options of the table were not given.
abbrev pub NoOther : List ClpOption → ClpOption → Type 0
NoOther os o = asks o.optopt ≡ true → 1 ≤ o.given → All (λ q. o.place ≢ q.place → q.given ≡ 0) os

asking-Alone :
    (whole os : List ClpOption)
    → All (λ o. asks o.optopt ≡ true → ExcludesAll o) os
    → All (Alone whole) os
    → All (NoOther whole) os
asking-Alone whole [] a b = tt
asking-Alone whole (o ∷ os) a b =
    ((λ asked given. b.0 (a.0 asked) given), asking-Alone whole os a.1 b.1)

-- Whatever getopt_long() returns for the options of main(), of the tests or of the shell's mount, and
-- however the parse ends: if -h or -V is counted as given, no other option of the table is.
pub tables-NoOther {ℓ} :
    {A : Type ℓ} (t : Table) (h : Hooks A) (memory : Option (ℕ → Option ℕ)) (getopt : Getopt)
    (arg : List ℕ) (argv : List (List ℕ)) (paramv : Option ℕ) (s : ParseState A)
    → s.options ≡ table_of 0 (optionv_of t)
    → All
        (NoOther (clp_parsev h memory getopt (arg ∷ argv) paramv s).1.options)
        (clp_parsev h memory getopt (arg ∷ argv) paramv s).1.options
tables-NoOther t h memory getopt arg argv paramv s e =
    let os = (clp_parsev h memory getopt (arg ∷ argv) paramv s).1.options in
    let table : All Lone (map face (map reset_option s.options)) =
      subst (λ x. All Lone (map face (map reset_option x))) (sym e) (tables-Lone t) in
    let faces : All Lone (map face os) =
      subst (All Lone) (sym (clp_parsev-face h memory getopt arg argv paramv s)) table in
    asking-Alone os os (All-face os faces) (clp_parsev-Alone h memory getopt arg argv paramv s)
