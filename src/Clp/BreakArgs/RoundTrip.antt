-- ===== src/Clp/BreakArgs/RoundTrip.antt =====
-- clp_breakargs gets back words that were quoted and put into one line.
use nct.Base.{
  ℕ, ◌≡◌, ◌≢◌, refl, ap, sym, ◌∙◌, true, false, ◌||◌, Option, none, some, List, [], ◌∷◌, ◌++◌,
  arith, ◌==◌, ==→eq, ==→ne, if◌then◌else◌, append_assoc, append-nil, All, Bool-cases, ◌⊎◌, inl,
  inr,
}
use nct.Clp.Chars.{contains}
use nct.Clp.BreakArgs.{
  plain, Lexer, at_delim, on_plain, on_escaped, on_byte, unescape, lex, args, finish, clp_breakargs,
}

-- A word in double quotes, with a backslash in front of each quote and backslash in it.
unfoldable pub escape_word : List ℕ → List ℕ
escape_word [] = []
escape_word (c ∷ w) =
    if c == b'"' || c == b'\\' then b'\\' ∷ c ∷ escape_word w else c ∷ escape_word w

unfoldable pub quote_word : List ℕ → List ℕ
quote_word w = b'"' ∷ escape_word w ++ b'"' ∷ []

-- Quoted words with one separator between each two.
unfoldable pub more_words : ℕ → List (List ℕ) → List ℕ
more_words sep [] = []
more_words sep (w ∷ ws) = sep ∷ quote_word w ++ more_words sep ws

unfoldable pub line : ℕ → List (List ℕ) → List ℕ
line sep [] = []
line sep (w ∷ ws) = quote_word w ++ more_words sep ws

abbrev between : List (List ℕ) → List ℕ → Lexer
between a w = record { escape = plain; dquote = false; squote = false; argv = a; cur = w }

abbrev inside : List (List ℕ) → List ℕ → Lexer
inside a w = record { escape = plain; dquote = true; squote = false; argv = a; cur = w }

module _ (delim : Option (List ℕ)) where
  on_plain-inside :
      (c : ℕ) (a : List (List ℕ)) (v : List ℕ)
      → c ≢ b'"'
      → c ≢ b'\\'
      → on_plain delim c (inside a v) ≡ inside a (v ++ c ∷ [])
  unfolding on_plain
  on_plain-inside c a v q s = ground arith

  lex-escape_word :
      (w rest : List ℕ) (a : List (List ℕ)) (v : List ℕ)
      → lex delim (escape_word w ++ rest) (inside a v) ≡ lex delim rest (inside a (v ++ w))
  unfolding lex escape_word on_byte on_plain on_escaped unescape
  lex-escape_word [] rest a v = ap (λ x. lex delim rest (inside a x)) (sym (append-nil v))
  lex-escape_word (c ∷ w) rest a v =
      let go : (k : ℕ)
          → lex delim (escape_word w ++ rest) (inside a (v ++ k ∷ []))
            ≡ lex delim rest (inside a (v ++ k ∷ w)) =
        λ k.
          lex-escape_word w rest a (v ++ k ∷ [])
          ∙ ap (λ x. lex delim rest (inside a x)) (append_assoc v (k ∷ []) w) in
      elim (Bool-cases (c == b'"')) [
        | inl quote ↦ rw (==→eq _ _ quote) (go b'"')
        | inr other ↦ elim (Bool-cases (c == b'\\')) [
          | inl slash ↦ rw (==→eq _ _ slash) (go b'\\')
          | inr more ↦
              rw (other, more)
                (ap (lex delim (escape_word w ++ rest))
                    (on_plain-inside c a v (==→ne _ _ other) (==→ne _ _ more))
                  ∙ go c)
        ]
      ]

  lex-quote_word :
      (w rest : List ℕ) (a : List (List ℕ))
      → lex delim (quote_word w ++ rest) (between a []) ≡ lex delim rest (between a w)
  unfolding lex quote_word on_byte on_plain
  lex-quote_word w rest a =
      ap (λ l. lex delim l (inside a [])) (append_assoc (escape_word w) (b'"' ∷ []) rest)
      ∙ lex-escape_word w (b'"' ∷ rest) a []

  -- What a separator, and the NUL, have to do behind a word.
  abbrev Ends : (List ℕ → Type 0) → ℕ → Type 0
  Ends P c =
      (a : List (List ℕ)) (w : List ℕ)
      → P w
      → on_plain delim c (between a w) ≡ between (a ++ w ∷ []) []

  module _ (P : List ℕ → Type 0) (sep : ℕ) (at_sep : Ends P sep) (at_nul : Ends P 0) where
    lex-more_words :
        (ws : List (List ℕ)) (a : List (List ℕ)) (w : List ℕ)
        → P w
        → All P ws
        → lex delim (more_words sep ws) (between a w) ≡ between (a ++ w ∷ ws) []
    unfolding lex more_words on_byte
    lex-more_words [] a w p ps = at_nul a w p
    lex-more_words (u ∷ ws) a w p ps =
        ap (lex delim (quote_word u ++ more_words sep ws)) (at_sep a w p)
        ∙ lex-quote_word u (more_words sep ws) (a ++ w ∷ [])
        ∙ lex-more_words ws (a ++ w ∷ []) u ps.0 ps.1
        ∙ ap (λ x. between x []) (append_assoc a (w ∷ []) (u ∷ ws))

    broken-line :
        (w : List ℕ) (ws : List (List ℕ))
        → All P (w ∷ ws)
        → clp_breakargs true (some (line sep (w ∷ ws))) delim ≡ args (w ∷ ws)
    unfolding clp_breakargs line finish
    broken-line w ws ps =
        ap finish (lex-quote_word w (more_words sep ws) [] ∙ lex-more_words ws [] w ps.0 ps.1)

abbrev pub NonEmpty : List ℕ → Type 0
NonEmpty w = w ≢ []

abbrev Anything : List ℕ → Type 0
Anything w = Unit {0}

blank-Ends : (c : ℕ) → (c ≡ 0) ⊎ (c ≡ b' ') → Ends none NonEmpty c
unfolding on_plain at_delim
blank-Ends c k a [] ne = absurd (ne refl)
blank-Ends c (inl e) a (x ∷ w) ne = rw e
blank-Ends c (inr e) a (x ∷ w) ne = rw e

-- With no delimiters given, words that are not empty come back from a line in which they are quoted
-- and separated by blanks, whatever blanks, quotes and backslashes they contain.
pub clp_breakargs-quoted :
    (w : List ℕ) (ws : List (List ℕ))
    → All NonEmpty (w ∷ ws)
    → clp_breakargs true (some (line b' ' (w ∷ ws))) none ≡ args (w ∷ ws)
clp_breakargs-quoted =
    broken-line none NonEmpty b' ' (blank-Ends b' ' (inr refl)) (blank-Ends 0 (inl refl))

anything : (ws : List (List ℕ)) → All Anything ws
anything [] = tt
anything (w ∷ ws) = (tt, anything ws)

module _ (delim : List ℕ) where
  delim_ends :
      (sep : ℕ) (a : List (List ℕ)) (w : List ℕ)
      → contains delim sep ≡ true
      → sep ≢ b'"'
      → sep ≢ b'\''
      → sep ≢ b'\\'
      → on_plain (some delim) sep (between a w) ≡ between (a ++ w ∷ []) []
  unfolding on_plain at_delim
  delim_ends sep a w has q t s = ground arith

  nul_ends :
      (a : List (List ℕ)) (w : List ℕ)
      → on_plain (some delim) 0 (between a w) ≡ between (a ++ w ∷ []) []
  unfolding on_plain at_delim
  nul_ends a w = refl

-- With delimiters given, any words come back, the empty ones too, if one of the delimiters that is
-- no quote and no backslash separates them.
pub clp_breakargs-delimited :
    (delim : List ℕ) (sep : ℕ) (w : List ℕ) (ws : List (List ℕ))
    → contains delim sep ≡ true
    → sep ≢ b'"'
    → sep ≢ b'\''
    → sep ≢ b'\\'
    → clp_breakargs true (some (line sep (w ∷ ws))) (some delim) ≡ args (w ∷ ws)
clp_breakargs-delimited delim sep w ws has q t s =
    broken-line (some delim) Anything sep (λ a v _. delim_ends delim sep a v has q t s)
      (λ a v _. nul_ends delim a v) w ws (anything (w ∷ ws))
