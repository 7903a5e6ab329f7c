-- ===== src/Clp/Chars.antt =====
-- The character classes of <ctype.h> that clp.c uses, in the C locale, and strchr(). A C string is
-- the list of its bytes in front of the terminating NUL.
use nct.Base.{◌+◌, if◌then◌else◌, ℕ, Bool, false, ◌&&◌, ◌||◌, List, [], ◌∷◌, leb, ◌==◌}

abbrev pub is_space : ℕ → Bool
is_space c = c == b' ' || (leb b'\t' c && leb c b'\r')

abbrev pub is_digit : ℕ → Bool
is_digit c = leb b'0' c && leb c b'9'

abbrev pub is_octal : ℕ → Bool
is_octal c = leb b'0' c && leb c b'7'

abbrev pub is_upper : ℕ → Bool
is_upper c = leb b'A' c && leb c b'Z'

abbrev pub is_lower : ℕ → Bool
is_lower c = leb b'a' c && leb c b'z'

abbrev pub is_alpha : ℕ → Bool
is_alpha c = is_upper c || is_lower c

-- A byte stands in a string; the terminating NUL is not counted.
unfoldable pub contains : List ℕ → ℕ → Bool
contains [] c = false
contains (x ∷ xs) c = x == c || contains xs c

-- `strchr(s, c)` finds the terminating NUL too.
abbrev pub strchr : List ℕ → ℕ → Bool
strchr s c = c == 0 || contains s c

abbrev pub tolower : ℕ → ℕ
tolower c = if is_upper c then c + 32 else c
