-- ===== src/Shell.antt =====
-- nct_shell.c: the command on a line of input, and the table of commands.
pub mod Lookups
pub mod Session
pub mod Transcript
use Prim.Native.String.{String}
use nct.Base.{
  ℕ, ◌+◌, ◌≡◌, refl, Bool, true, false, ◌&&◌, none, some, Option, List, [], ◌∷◌, ◌++◌, ltb, ◌==◌,
  if◌then◌else◌, length, All, eq→==,
}
use nct.Clp.Chars.{is_space, tolower}
use nct.Clp.Posparam.{skip_spaces}
use nct.Clp.Usage.{codes}

-- The functions of the table.
pub data Func : Type 0 where
  nyi help ls mount : Func

-- struct cmd, without the line.
pub record Cmd : Type 0 where
  pub name : List ℕ
  pub func : Func
  pub cmd_help : List ℕ

abbrev cmd : String → Func → String → Cmd
cmd name func text = record { name = codes name; func = func; cmd_help = codes text }

-- The table.
abbrev pub cmdv : List Cmd
cmdv =
    cmd "cd" nyi "change current working directory"
    ∷ cmd "getattr" nyi "run NFS getattr"
    ∷ cmd "help" help "print this help list"
    ∷ cmd "ls" ls "list files"
    ∷ cmd "mkdir" nyi "make directories"
    ∷ cmd "mount" mount "mount an nfs file system"
    ∷ cmd "rm" nyi "remove directory entries"
    ∷ cmd "rmdir" nyi "remove directory"
    ∷ cmd "umount" nyi "unmount an nfs file system"
    ∷ []

abbrev pub enotsup : ℕ
enotsup = 95

-- What a function returns; mount reads its line with clp_parsev() first, whose result is
-- `parsed`: an error, or whether help or the version was asked for.
unfoldable pub run_cmd : Func → ℕ × Bool → ℕ
run_cmd nyi parsed = enotsup
run_cmd help parsed = 0
run_cmd ls parsed = enotsup
run_cmd mount (rc, asked) = if rc == 0 then (if asked then 0 else enotsup) else rc

-- The bytes up to the first white space.
unfoldable pub first_word : List ℕ → List ℕ
first_word [] = []
first_word (c ∷ s) = let rest = first_word s in if is_space c then [] else c ∷ rest

-- `!strncasecmp(line, name, len)` for a word of `len` bytes in front of white space or the end.
unfoldable pub begins : List ℕ → List ℕ → Bool
begins [] name = true
begins (x ∷ word) [] = false
begins (x ∷ word) (y ∷ name) = tolower x == tolower y && begins word name

-- What the loop over the table finds.
pub data Lookup : Type 0 where
  unknown ambiguous : Lookup
  found : Cmd → Lookup

abbrev pub last_seen : Option Cmd → Lookup
last_seen none = unknown
last_seen (some c) = found c

-- The loop, with `cmd`. A name of the word's length ends it.
unfoldable pub lookup_loop : List ℕ → List Cmd → Option Cmd → Lookup
lookup_loop word [] cmd = last_seen cmd
lookup_loop word (c ∷ cs) (some d) =
    let same = lookup_loop word cs (some d) in if begins word c.name then ambiguous else same
lookup_loop word (c ∷ cs) none =
    let next = lookup_loop word cs (some c) in
    let same = lookup_loop word cs none in
    if begins word c.name then (if length c.name == length word then found c else next) else same

-- A line of nct_shell: `none` if there is no word on it.
unfoldable pub nct_shell_line : List Cmd → List ℕ → Option Lookup
nct_shell_line cmdv line =
    let word = first_word (skip_spaces line) in
    if ltb (length word) 1 then none else some (lookup_loop word cmdv none)

-- A word starts itself.
begins_self : (w : List ℕ) → begins w w ≡ true
unfolding begins
begins_self [] = refl
begins_self (x ∷ w) = rw (eq→== (tolower x) (tolower x) refl) (begins_self w)

-- The full name of a command finds that command, also where other names start with it, if none of
-- these stands in front of it in the table.
pub lookup_loop-exact :
    (before : List Cmd) (c : Cmd) (behind : List Cmd)
    → All (λ d. begins c.name d.name ≡ false) before
    → lookup_loop c.name (before ++ c ∷ behind) none ≡ found c
unfolding lookup_loop
lookup_loop-exact [] c behind a =
    rw (begins_self c.name, eq→== (length c.name) (length c.name) refl) refl
lookup_loop-exact (d ∷ before) c behind a = rw a.0 (lookup_loop-exact before c behind a.1)
