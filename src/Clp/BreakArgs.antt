-- ===== src/Clp/BreakArgs.antt =====
-- clp_breakargs: words from a string, with quotes, escapes and delimiters.
pub mod Bounds
pub mod RoundTrip
use nct.Base.{
  ℕ, ◌+◌, ◌-◌, ◌*◌, ◌%◌, ◌^◌, ◌<◌, Bool, true, false, not, ◌&&◌, ◌||◌, Option, none, some, List, [],
  ◌∷◌, ◌++◌, ltb, leb, ◌==◌, if◌then◌else◌, min,
}
use nct.Clp.Chars.{is_space, is_digit, is_octal, strchr}

-- What is pending behind a backslash: nothing, the backslash itself, or the digits that strtoul()
-- has read so far in base 8.
pub data Escape : Type 0 where
  plain escaped : Escape
  octal : ℕ → Escape

-- `argv` is the words that are finished, and `cur` the bytes from `prev` up to `dst`. Each word in
-- `argv` has a NUL behind it in the copy.
pub record Lexer : Type 0 where
  pub escape : Escape
  pub dquote : Bool
  pub squote : Bool
  pub argv : List (List ℕ)
  pub cur : List ℕ

-- *dst++ = c
abbrev pub push : ℕ → Lexer → Lexer
push c s = record s { cur = s.cur ++ c ∷ [] }

-- argv[argc++] = prev; *dst++ = '\000'; prev = dst
abbrev pub end_word : Lexer → Lexer
end_word s = record s { argv = s.argv ++ s.cur ∷ []; cur = [] }

abbrev pub is_empty : List ℕ → Bool
is_empty [] = true
is_empty (_ ∷ _) = false

abbrev pub end_nonempty : Lexer → Lexer
end_nonempty s = if is_empty s.cur then s else end_word s

-- A byte that is no quote, backslash or part of a quotation. NUL is the end of the string.
unfoldable pub at_delim : Option (List ℕ) → ℕ → Lexer → Lexer
at_delim none c s = if c == 0 || is_space c then end_nonempty s else push c s
at_delim (some delim) c s = if strchr delim c then end_word s else push c s

-- A byte that no backslash stands in front of.
unfoldable pub on_plain : Option (List ℕ) → ℕ → Lexer → Lexer
on_plain delim c s =
    if c == b'\\'
    then record s { escape = escaped }
    else if c == b'"'
    then (if s.squote then push c s else record s { dquote = not s.dquote })
    else if c == b'\''
    then (if s.dquote then push c s else record s { squote = not s.squote })
    else if s.dquote || s.squote
    then push c s
    else at_delim delim c s

-- The byte that an escape stands for.
unfoldable pub unescape : ℕ → ℕ
unescape c =
    if c == b'a'
    then 7
    else if c == b'b'
    then 8
    else if c == b'f'
    then 12
    else if c == b'n'
    then 10
    else if c == b'r'
    then 13
    else if c == b't'
    then 9
    else if c == b'v'
    then 11
    else c

-- strtoul() takes one more digit; its result stays at ULONG_MAX once it is out of range.
unfoldable pub add_digit : ℕ → ℕ → ℕ
add_digit v c = min (8 * v + (c - b'0')) (2 ^ 64 - 1)

-- The byte behind a backslash. strtoul() reads no digit of `8` and `9`, returns 0, and the byte is
-- looked at once more.
unfoldable pub on_escaped : Option (List ℕ) → ℕ → Lexer → Lexer
on_escaped delim c s =
    let s' = record s { escape = plain } in
    if is_octal c
    then record s { escape = octal (add_digit 0 c) }
    else if is_digit c
    then on_plain delim c (push 0 s')
    else push (unescape c) s'

-- Behind octal digits: one more, or the end of strtoul(), whose result is cut to a char.
unfoldable pub on_octal : Option (List ℕ) → ℕ → ℕ → Lexer → Lexer
on_octal delim v c s =
    if is_octal c
    then record s { escape = octal (add_digit v c) }
    else on_plain delim c (push (v % 256) (record s { escape = plain }))

unfoldable pub on_byte : Escape → Option (List ℕ) → ℕ → Lexer → Lexer
on_byte plain delim c s = on_plain delim c s
on_byte escaped delim c s = on_escaped delim c s
on_byte (octal v) delim c s = on_octal delim v c s

-- The loop, up to and with the terminating NUL.
unfoldable pub lex : Option (List ℕ) → List ℕ → Lexer → Lexer
lex delim [] s = on_byte s.escape delim 0 s
lex delim (c ∷ src) s = lex delim src (on_byte s.escape delim c s)

abbrev pub start : Lexer
start = record { escape = plain; dquote = false; squote = false; argv = []; cur = [] }

pub data Broken : Type 0 where
  args : List (List ℕ) → Broken
  fails : ℕ → Broken

-- <sysexits.h>
abbrev pub ex_dataerr : ℕ
ex_dataerr = 65

abbrev pub ex_software : ℕ
ex_software = 70

abbrev pub ex_oserr : ℕ
ex_oserr = 71

-- Behind the loop.
unfoldable pub finish : Lexer → Broken
finish s = if s.dquote || s.squote then fails ex_dataerr else args (end_nonempty s).argv

-- clp_breakargs; `room` says whether malloc() succeeds.
unfoldable pub clp_breakargs : Bool → Option (List ℕ) → Option (List ℕ) → Broken
clp_breakargs room none delim = fails ex_software
clp_breakargs room (some src) delim = if room then finish (lex delim src start) else fails ex_oserr
