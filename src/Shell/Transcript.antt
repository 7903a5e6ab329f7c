-- ===== src/Shell/Transcript.antt =====
-- A session of nct_shell line by line: what each line prints, and what it leaves in `errbuf`, said
-- without the loop over the table and without the results of the commands.
use nct.Base.{ℕ, ◌≡◌, Bool, false, Option, some, none, List, [], ◌∷◌, ◌++◌, ◌==◌, if◌then◌else◌}
use nct.Clp.Usage.{codes}
use nct.Clp.BreakArgs.{clp_breakargs}
use nct.Clp.Posparam.{skip_spaces}
use nct.Shell.{Func, nyi, help, ls, mount, cmdv, first_word, Lookup, unknown, ambiguous, found}
use nct.Shell.Lookups.{candidates, chosen}
use nct.Shell.Session.{
  Parsed, shell_round, c_string, nct_shell, behind, newline, not_yet, help_text, parse_line,
  refused,
}

-- The bytes of a line: no newline, and no NUL.
abbrev pub Plain : ℕ → Type 0
Plain c = ((c == b'\n') ≡ false) × ((c == 0) ≡ false)

-- What is read for some lines.
unfoldable pub typed : List (List ℕ) → List ℕ
typed [] = []
typed (l ∷ lines) = l ++ b'\n' ∷ typed lines

-- What a `mount` whose words are parsed prints: the parser's output and, unless help or the version
-- was asked for, the text in `errbuf`, which is that of an earlier line if the parse failed.
abbrev pub mount_says : Parsed → List ℕ → List ℕ × List ℕ
mount_says p errbuf =
    if p.rc == 0
    then (if p.asked then (p.printed, errbuf) else (p.printed ++ (not_yet ++ newline), not_yet))
    else (p.printed ++ (errbuf ++ newline), errbuf)

module _ (room : Bool) (parsev : List (List ℕ) → Parsed) where
  -- The commands: help lists the table, mount parses its line, all others are still to come.
  abbrev pub says : Func → List ℕ → List ℕ → List ℕ × List ℕ
  says help line errbuf = (help_text, errbuf)
  says mount line errbuf =
      mount_says (parse_line parsev (clp_breakargs room (some line) none)) errbuf
  says nyi line errbuf = (not_yet ++ newline, not_yet)
  says ls line errbuf = (not_yet ++ newline, not_yet)

  abbrev pub answers : List ℕ → List ℕ → List ℕ → Lookup → List ℕ × List ℕ
  answers line word errbuf unknown = (refused room parsev "invalid" word, errbuf)
  answers line word errbuf ambiguous = (refused room parsev "ambiguous" word, errbuf)
  answers line word errbuf (found c) = says c.func line errbuf

  abbrev pub answers_word : List ℕ → List ℕ → List ℕ → List ℕ × List ℕ
  answers_word line [] errbuf = ([], errbuf)
  answers_word line (c ∷ word) errbuf =
      answers line (c ∷ word) errbuf (chosen (c ∷ word) (candidates (c ∷ word) cmdv))

  -- A line is answered for its first word, which the names of the table that start with it decide;
  -- a line without a word is passed over.
  unfoldable pub answer : List ℕ → List ℕ → List ℕ × List ℕ
  answer linebuf errbuf =
      answers_word (skip_spaces linebuf) (first_word (skip_spaces linebuf)) errbuf

  -- What a session prints for its lines: the prompt and the answer to each, with the `errbuf` that
  -- the lines before it have left, and the prompt for the end of the input.
  unfoldable pub transcript : List (List ℕ) → List ℕ → List ℕ
  transcript [] errbuf = codes "> "
  transcript (l ∷ lines) errbuf =
      let (printed, errbuf') = answer (l ++ b'\n' ∷ []) errbuf in
      codes "> " ++ printed ++ transcript lines errbuf'

  -- A round of a session, whatever fgets() gives it.
  abbrev go_on : ℕ → List ℕ → List ℕ → List ℕ → Option (List ℕ)
  go_on fuel errbuf line rest =
      let (printed, errbuf') = shell_round room parsev (c_string line) errbuf in
      behind printed (nct_shell room parsev fuel rest errbuf')
