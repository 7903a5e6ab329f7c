-- ===== src/Shell/Session.antt =====
-- nct_shell and the functions of its table: a session, as what is read from stdin and printed to
-- stdout.
--
-- What clp_parsev makes of the words of a `mount` is an argument: its result, whether -h or -V was
-- given, and what it prints.
use Prim.Native.String.{String}
use nct.Base.{
  ℕ, zero, suc, ◌≤◌, ◌<◌, ◌≡◌, refl, Bool, false, Option, none, some, List, [], ◌∷◌, ◌++◌, ltb,
  ◌==◌, if◌then◌else◌, length, arith,
}
use nct.Clp.BreakArgs.{Broken, args, fails, clp_breakargs}
use nct.Clp.Posparam.{skip_spaces}
use nct.Clp.Usage.{codes}
use nct.Clp.Help.{padded}
use nct.Shell.{
  Cmd, Func, nyi, help, ls, mount, cmdv, run_cmd, first_word, Lookup, unknown, ambiguous, found,
  lookup_loop,
}

pub record Parsed : Type 0 where
  pub rc : ℕ
  pub asked : Bool
  pub printed : List ℕ

-- What a command returns and prints, and the static `errbuf` behind it.
pub record Ran : Type 0 where
  pub rc : ℕ
  pub printed : List ℕ
  pub errbuf : List ℕ

abbrev pub newline : List ℕ
newline = b'\n' ∷ []

abbrev pub not_yet : List ℕ
not_yet = codes "command not yet implemented" ++ newline

-- The lines of the function help.
unfoldable pub help_lines : List Cmd → List ℕ
help_lines [] = []
help_lines (c ∷ cs) =
    codes "  " ++ padded 7 c.name ++ codes "  " ++ c.cmd_help ++ newline ++ help_lines cs

abbrev pub help_text : List ℕ
help_text = codes "  Command  Description" ++ newline ++ help_lines cmdv ++ newline

-- `errbuf` behind the function mount, which calls nyi in the end.
abbrev pub errbuf_of : Parsed → List ℕ → List ℕ
errbuf_of p errbuf = if p.rc == 0 then (if p.asked then errbuf else not_yet) else errbuf

-- What clp_breakargs and clp_parsev make of the line.
abbrev pub parse_line : (List (List ℕ) → Parsed) → Broken → Parsed
parse_line parsev (fails rc) = record { rc = rc; asked = false; printed = [] }
parse_line parsev (args argv) = parsev argv

abbrev pub mount_ran : Parsed → List ℕ → Ran
mount_ran p errbuf = record {
  rc = run_cmd mount (p.rc, p.asked);
  printed = p.printed;
  errbuf = errbuf_of p errbuf;
}

module _ (room : Bool) (parsev : List (List ℕ) → Parsed) where
  -- `cmd->func(cmd)`, for the line from its first word on.
  unfoldable pub call : Func → List ℕ → List ℕ → Ran
  call nyi line errbuf = record { rc = run_cmd nyi (0, false); printed = []; errbuf = not_yet }
  call ls line errbuf = record { rc = run_cmd ls (0, false); printed = []; errbuf = not_yet }
  call help line errbuf = record {
    rc = run_cmd help (0, false);
    printed = help_text;
    errbuf = errbuf;
  }
  call mount line errbuf =
      mount_ran (parse_line parsev (clp_breakargs room (some line) none)) errbuf

  abbrev pub refused : String → List ℕ → List ℕ
  refused errmsg word =
      codes errmsg
      ++ codes " command '"
      ++ word
      ++ codes "', type 'help' for help"
      ++ newline
      ++ newline

  -- A result other than 0 prints `errbuf`.
  abbrev pub report_rc : Ran → List ℕ × List ℕ
  report_rc r = (r.printed ++ (if r.rc == 0 then [] else r.errbuf ++ newline), r.errbuf)

  abbrev pub on_lookup : List ℕ → List ℕ → List ℕ → Lookup → List ℕ × List ℕ
  on_lookup line word errbuf unknown = (refused "invalid" word, errbuf)
  on_lookup line word errbuf ambiguous = (refused "ambiguous" word, errbuf)
  on_lookup line word errbuf (found c) = report_rc (call c.func line errbuf)

  -- A round of nct_shell behind fgets(): what it prints, and `errbuf`.
  unfoldable pub shell_round : List ℕ → List ℕ → List ℕ × List ℕ
  shell_round linebuf errbuf =
      let line = skip_spaces linebuf in
      let word = first_word line in
      if ltb (length word) 1
      then ([], errbuf)
      else on_lookup line word errbuf (lookup_loop word cmdv none)

-- fgets() with room for `n` bytes: up to and with a newline. The string ends at a NUL.
unfoldable pub read_line : ℕ → List ℕ → List ℕ × List ℕ
read_line zero input = ([], input)
read_line (suc n) [] = ([], [])
read_line (suc n) (c ∷ input) =
    let (line, rest) = read_line n input in if c == b'\n' then (c ∷ [], input) else (c ∷ line, rest)

unfoldable pub c_string : List ℕ → List ℕ
c_string [] = []
c_string (c ∷ s) = let rest = c_string s in if c == 0 then [] else c ∷ rest

-- The prompt and what a round prints, in front of the rest.
abbrev pub behind : List ℕ → Option (List ℕ) → Option (List ℕ)
behind printed none = none
behind printed (some out) = some (codes "> " ++ printed ++ out)

module _ (room : Bool) (parsev : List (List ℕ) → Parsed) where
  -- nct_shell, for `fuel` rounds: what it prints up to the end of the input.
  unfoldable pub nct_shell : ℕ → List ℕ → List ℕ → Option (List ℕ)
  nct_shell zero input errbuf = none
  nct_shell (suc fuel) [] errbuf = some (codes "> ")
  nct_shell (suc fuel) (c ∷ input) errbuf =
      let (line, rest) = read_line 1023 (c ∷ input) in
      let (printed, errbuf') = shell_round room parsev (c_string line) errbuf in
      behind printed (nct_shell fuel rest errbuf')

length-read_line : (n : ℕ) (input : List ℕ) → length (read_line n input).1 ≤ length input
unfolding read_line
length-read_line zero input = omega arith
length-read_line (suc n) [] = omega arith
length-read_line (suc n) (c ∷ input) = let ih = length-read_line n input in ground arith

-- A line is at least a byte.
read_line-takes :
    (n c : ℕ) (input : List ℕ) → length (read_line (suc n) (c ∷ input)).1 ≤ length input
unfolding read_line
read_line-takes n c input = let ih = length-read_line n input in ground arith

module _ (room : Bool) (parsev : List (List ℕ) → Parsed) where
  behind-some :
      (printed : List ℕ) (o : Option (List ℕ))
      → ((out : List ℕ) × (o ≡ some out))
      → (out : List ℕ) × (behind printed o ≡ some out)
  behind-some printed o (out, e) = (codes "> " ++ printed ++ out, rw e refl)

  -- A session ends with its input: each round takes at least a byte off it, so that as many rounds as
  -- it has bytes, and one more for its end, are enough.
  pub nct_shell-ends :
      (fuel : ℕ) (input errbuf : List ℕ)
      → length input < fuel
      → (out : List ℕ) × (nct_shell room parsev fuel input errbuf ≡ some out)
  unfolding nct_shell
  nct_shell-ends zero input errbuf h = absurd (omega arith)
  nct_shell-ends (suc fuel) [] errbuf h = (codes "> ", refl)
  nct_shell-ends (suc fuel) (c ∷ input) errbuf h =
      let taken = read_line-takes 1022 c input in
      behind-some _ _ (nct_shell-ends fuel _ _ (omega arith))
