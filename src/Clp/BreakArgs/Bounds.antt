-- ===== src/Clp/BreakArgs/Bounds.antt =====
-- clp_breakargs: the vector and the copy of the string fit the one block that is allocated.
use nct.Base.{
  ℕ, ◌+◌, ◌≤◌, ◌≡◌, refl, true, ◌||◌, Option, none, some, List, [], ◌∷◌, ◌++◌, arith, length,
  length-append, ◌%◌, ◌⊎◌, inl, inr, subst,
}
use nct.Clp.BreakArgs.{
  Escape, plain, escaped, octal, Lexer, push, end_word, at_delim, on_plain, on_escaped, on_octal,
  on_byte, unescape, lex, start, Broken, args, finish, clp_breakargs,
}

-- The bytes of the copy that the finished words take up, each with its NUL.
unfoldable pub stored : List (List ℕ) → ℕ
stored [] = 0
stored (w ∷ ws) = length w + 1 + stored ws

stored-append : (ws vs : List (List ℕ)) → stored (ws ++ vs) ≡ stored ws + stored vs
unfolding stored
stored-append [] vs = omega arith
stored-append (w ∷ ws) vs = omega (arith, stored-append ws vs)

stored-ge : (ws : List (List ℕ)) → length ws ≤ stored ws
unfolding stored
stored-ge [] = omega arith
stored-ge (w ∷ ws) = omega (arith, stored-ge ws)

-- The bytes read and not yet written that a pending escape stands for.
abbrev slack : Escape → ℕ
slack plain = 0
slack escaped = 1
slack (octal v) = 2

abbrev written : Lexer → ℕ
written s = stored s.argv + length s.cur

written-push : (c : ℕ) (s : Lexer) → written (push c s) ≡ written s + 1
written-push c s = omega (arith, length-append s.cur (c ∷ []))

written-end_word : (s : Lexer) → written (end_word s) ≡ written s + 1
unfolding stored
written-end_word s = omega (arith, stored-append s.argv (s.cur ∷ []))

at_delim-written :
    (delim : Option (List ℕ)) (c : ℕ) (s : Lexer)
    → (written (at_delim delim c s) ≤ written s + 1) × ((at_delim delim c s).escape ≡ s.escape)
unfolding at_delim
at_delim-written none c s = ground (arith, written-push c s, written-end_word s)
at_delim-written (some d) c s = ground (arith, written-push c s, written-end_word s)

on_plain-written :
    (delim : Option (List ℕ)) (c : ℕ) (s : Lexer)
    → s.escape ≡ plain
    → written (on_plain delim c s) + slack (on_plain delim c s).escape ≤ written s + 1
unfolding on_plain
on_plain-written delim c s e = ground (arith, written-push c s, at_delim-written delim c s)

on_byte-written :
    (delim : Option (List ℕ)) (c : ℕ) (s : Lexer) (e : Escape)
    → s.escape ≡ e
    → written (on_byte e delim c s) + slack (on_byte e delim c s).escape ≤ written s + slack e + 1
unfolding on_byte on_escaped on_octal
on_byte-written delim c s plain e = omega (arith, on_plain-written delim c s e)
on_byte-written delim c s escaped e = ground (
  arith,
  written-push 0 (record s { escape = plain }),
  on_plain-written delim c (push 0 (record s { escape = plain })) refl,
  written-push (unescape c) (record s { escape = plain }),
)
on_byte-written delim c s (octal v) e = ground (
  arith,
  written-push (v % 256) (record s { escape = plain }),
  on_plain-written delim c (push (v % 256) (record s { escape = plain })) refl,
)

-- At the NUL a quotation is open, or the last word is finished, or a byte was saved.
on_nul-written :
    (delim : Option (List ℕ)) (s : Lexer) (e : Escape)
    → s.escape ≡ e
    → let f = on_byte e delim 0 s in
      (((f.dquote || f.squote) ≡ true) ⊎ (f.cur ≡ [])) ⊎ (written f + 1 ≤ written s + slack e + 1)
unfolding on_byte on_escaped on_octal on_plain at_delim unescape
on_nul-written none s plain e = ground arith
on_nul-written (some d) s plain e = ground arith
on_nul-written delim s escaped e = inr (omega (arith, written-push 0 (record s { escape = plain })))
on_nul-written none s (octal v) e = ground arith
on_nul-written (some d) s (octal v) e = ground arith

-- What the result has taken of the block, for a string of which `n` bytes are read and `k` left.
Fits : ℕ → Broken → Type 0
Fits n b = (ws : List (List ℕ)) → b ≡ args ws → stored ws ≤ n

finish-Fits :
    (n : ℕ) (f : Lexer)
    → written f ≤ n
    → (((f.dquote || f.squote) ≡ true) ⊎ (f.cur ≡ [])) ⊎ (written f + 1 ≤ n)
    → Fits n (finish f)
unfolding finish Fits
finish-Fits n f h k ws e = ground (arith, written-end_word f)

relax : {A : Type 0} {a b c : ℕ} → A ⊎ (a ≤ b) → b ≤ c → A ⊎ (a ≤ c)
relax (inl x) h = inl x
relax (inr k) h = inr (omega arith)

lex-Fits :
    (delim : Option (List ℕ)) (src : List ℕ) (s : Lexer) (n : ℕ)
    → written s + slack s.escape ≤ n
    → Fits (n + length src + 1) (finish (lex delim src s))
unfolding lex
lex-Fits delim [] s n h =
    finish-Fits (n + 0 + 1) (on_byte s.escape delim 0 s)
      (omega (arith, on_byte-written delim 0 s s.escape refl))
      (relax (on_nul-written delim s s.escape refl) (omega arith))
lex-Fits delim (c ∷ src) s n h =
    subst (λ k. Fits k (finish (lex delim src (on_byte s.escape delim c s))))
      (let e : n + 1 + length src + 1 ≡ n + length (c ∷ src) + 1 = omega arith in e)
      (lex-Fits delim src (on_byte s.escape delim c s) (n + 1)
        (omega (arith, on_byte-written delim c s s.escape refl)))

-- The words and their NULs fit the copy of the string, and the vector with its null pointer fits
-- the `srclen + 2` pointers in front of it.
pub clp_breakargs-Fits :
    (src : List ℕ) (delim : Option (List ℕ)) (ws : List (List ℕ))
    → clp_breakargs true (some src) delim ≡ args ws
    → (stored ws ≤ length src + 1) × (length ws + 1 ≤ length src + 2)
unfolding clp_breakargs Fits stored
clp_breakargs-Fits src delim ws e =
    let fits : stored ws ≤ 0 + length src + 1 = lex-Fits delim src start 0 (omega arith) ws e in
    (omega arith, omega (arith, stored-ge ws))
