-- ===== src/Examples/Commands.antt =====
-- nct_shell.c: tests, and the theorem of Shell at a concrete input.
use nct.Base.{ℕ, List, false, ◌≡◌, refl, some, none, [], ◌∷◌, All, take, drop}
use nct.Clp.Posparam.{skip_spaces}
use nct.Clp.Usage.{codes}
use nct.Shell.{
  Cmd, nyi, cmdv, found, ambiguous, unknown, begins, first_word, lookup_loop, nct_shell_line,
  lookup_loop-exact,
}
use nct.Shell.Lookups.{candidates, chosen, lookup_loop-chosen}
use nct.Shell.Session.{Parsed}

abbrev rm : Cmd
rm = record { name = codes "rm"; func = nyi; cmd_help = codes "remove directory entries" }

abbrev rmdir : Cmd
rmdir = record { name = codes "rmdir"; func = nyi; cmd_help = codes "remove directory" }

-- `RM x`, `r`, `rmd` and `q`.
lines_run :
    (nct_shell_line cmdv (b' ' ∷ b'R' ∷ b'M' ∷ b' ' ∷ b'x' ∷ []) ≡ some (found rm))
    × (nct_shell_line cmdv (b'r' ∷ []) ≡ some ambiguous)
    × (nct_shell_line cmdv (b'r' ∷ b'm' ∷ b'd' ∷ []) ≡ some (found rmdir))
    × (nct_shell_line cmdv (b'q' ∷ []) ≡ some unknown)
    × (nct_shell_line cmdv (b'\n' ∷ []) ≡ none)
unfolding nct_shell_line lookup_loop begins first_word skip_spaces
lines_run = (refl, refl, refl, refl, refl)

-- Every command of the table is found by its name.
names_found : All (λ c. lookup_loop c.name cmdv none ≡ found c) cmdv
unfolding lookup_loop begins
names_found = (refl, (refl, (refl, (refl, (refl, (refl, (refl, (refl, (refl, tt)))))))))

full_name : lookup_loop rm.name cmdv none ≡ found rm
unfolding begins
full_name =
    lookup_loop-exact (take 6 cmdv) rm (drop 7 cmdv)
      (refl, (refl, (refl, (refl, (refl, (refl, tt))))))

-- A parser that takes every line.
abbrev takes_all : List (List ℕ) → Parsed
takes_all argv = record { rc = 0; asked = false; printed = [] }

abbrev two_lines : List (List ℕ)
two_lines = codes "ls" ∷ codes "mo \"" ∷ []

lookup_loop-chosen_example :
    lookup_loop (codes "rm") cmdv none ≡ chosen (codes "rm") (candidates (codes "rm") cmdv)
lookup_loop-chosen_example = lookup_loop-chosen (codes "rm") cmdv
