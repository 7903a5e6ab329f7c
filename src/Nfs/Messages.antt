-- ===== src/Nfs/Messages.antt =====
-- The messages of nct_nfs_mount: the name of a refusal, and the file handle in hexadecimal.
use nct.Base.{
  ℕ, ◌+◌, ◌*◌, ◌/◌, ◌%◌, ◌≤◌, ◌<◌, ◌≡◌, refl, ap₂, List, [], ◌∷◌, length, ltb, ◌==◌, if◌then◌else◌,
  All, arith, ◌-◌,
}
use nct.Clp.Usage.{codes}

-- strerror_mountstat3; strerror() is an argument.
unfoldable pub strerror_mountstat3 : (ℕ → List ℕ) → ℕ → List ℕ
strerror_mountstat3 strerror stat =
    if stat == 10004
    then codes "mnt3err_notsupp"
    else if stat == 10006
    then codes "mnt3err_serverfault"
    else if ltb stat 10004
    then strerror stat
    else codes "invalid mountstat3 value"

-- A digit of `%x`.
abbrev hex_digit : ℕ → ℕ
hex_digit n = if ltb n 10 then b'0' + n else b'a' + (n - 10)

-- What the loop writes to `buf` for the bytes of the file handle, less the NUL: `%02x` for each.
unfoldable pub hex_dump : List ℕ → List ℕ
hex_dump [] = []
hex_dump (x ∷ xs) = hex_digit (x % 256 / 16) ∷ hex_digit (x % 16) ∷ hex_dump xs

-- The size of `buf`.
abbrev pub hex_buf : ℕ
hex_buf = 136

-- The bytes that a dump stands for.
abbrev hex_value : ℕ → ℕ
hex_value c = if ltb c b'a' then c - b'0' else c - b'a' + 10

abbrev pub hex_read : List ℕ → List ℕ
hex_read [] = []
hex_read (c ∷ []) = []
hex_read (c ∷ d ∷ s) = (hex_value c * 16 + hex_value d) ∷ hex_read s

hex_dump-length : (fh : List ℕ) → length (hex_dump fh) ≡ 2 * length fh
unfolding hex_dump
hex_dump-length [] = refl
hex_dump-length (x ∷ xs) = let rest = hex_dump-length xs in omega arith

hex_byte :
    (x : ℕ)
    → x < 256
    → hex_value (hex_digit (x % 256 / 16)) * 16 + hex_value (hex_digit (x % 16)) ≡ x
hex_byte x h = ground arith

hex_read-hex_dump : (fh : List ℕ) → All (λ x. x < 256) fh → hex_read (hex_dump fh) ≡ fh
unfolding hex_dump
hex_read-hex_dump [] h = refl
hex_read-hex_dump (x ∷ xs) (h, hs) = ap₂ ◌∷◌ (hex_byte x h) (hex_read-hex_dump xs hs)

-- The dump of a file handle of at most FHSIZE3 bytes fits the buffer with its NUL, and shows each
-- of its bytes.
pub hex_dump-Fits :
    (fh : List ℕ)
    → length fh ≤ 64
    → All (λ x. x < 256) fh
    → (length (hex_dump fh) + 1 ≤ hex_buf) × (hex_read (hex_dump fh) ≡ fh)
hex_dump-Fits fh h bytes = (omega (arith, hex_dump-length fh), hex_read-hex_dump fh bytes)
