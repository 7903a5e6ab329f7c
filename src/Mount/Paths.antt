-- ===== src/Mount/Paths.antt =====
-- The parse of [user@]host[:path] in nct_mount.
use nct.Base.{
  ℕ, ◌≡◌, refl, true, false, none, some, List, [], ◌∷◌, ◌++◌, ◌==◌, arith, Bool-cases, inl, inr,
}
use nct.Clp.Chars.{contains}
use nct.Mount.{cut_at, put_user, root, mount_target}

-- A string with a byte in front of which it is cut.
cut_at-append :
    (c : ℕ) (w rest : List ℕ) → contains w c ≡ false → cut_at c (w ++ c ∷ rest) ≡ some (w, rest)
unfolding cut_at contains
cut_at-append c [] rest h = ground arith
cut_at-append c (x ∷ w) rest h = elim (Bool-cases (x == c)) [
  | inl e ↦ let clash : true ≡ false = rw e at h in cc
  | inr ne ↦
      let tail : contains w c ≡ false = rw ne at h in rw (ne, cut_at-append c w rest tail) refl
]

cut_at-none : (c : ℕ) (w : List ℕ) → contains w c ≡ false → cut_at c w ≡ none
unfolding cut_at contains
cut_at-none c [] h = refl
cut_at-none c (x ∷ w) h = elim (Bool-cases (x == c)) [
  | inl e ↦ let clash : true ≡ false = rw e at h in cc
  | inr ne ↦ let tail : contains w c ≡ false = rw ne at h in rw (ne, cut_at-none c w tail) refl
]

-- A target is parsed into what it was put together from: a user with no `@`, a host with no `:`,
-- and any path; the path is / if there is none.
pub mount_target-user :
    (user host path : List ℕ)
    → contains user b'@' ≡ false
    → contains host b':' ≡ false
    → (mount_target (user ++ b'@' ∷ (host ++ b':' ∷ path))
        ≡ record { mnt_user = user; mnt_server = host; mnt_path = path })
      × (mount_target (user ++ b'@' ∷ host)
          ≡ record { mnt_user = user; mnt_server = host; mnt_path = b'/' ∷ [] })
unfolding mount_target
mount_target-user user host path u h = (
  rw (cut_at-append b'@' user (host ++ b':' ∷ path) u, put_user, cut_at-append b':' host path h)
      refl,
  rw (cut_at-append b'@' user host u, put_user, cut_at-none b':' host h) refl,
)

-- Without a user the user is root, as long as there is no `@` in the target.
pub mount_target-root :
    (host path : List ℕ)
    → contains host b':' ≡ false
    → contains (host ++ b':' ∷ path) b'@' ≡ false
    → mount_target (host ++ b':' ∷ path)
      ≡ record { mnt_user = root; mnt_server = host; mnt_path = path }
unfolding mount_target
mount_target-root host path h none_at =
    rw (cut_at-none b'@' (host ++ b':' ∷ path) none_at, put_user, cut_at-append b':' host path h)
      refl

-- An `@` in the path of a target without a user is taken for the end of a user: the user is the
-- host with the path in front of it, and the server what stands behind it.
pub mount_target-at :
    (host dir name : List ℕ)
    → contains (host ++ b':' ∷ dir) b'@' ≡ false
    → contains name b':' ≡ false
    → mount_target ((host ++ b':' ∷ dir) ++ b'@' ∷ name)
      ≡ record { mnt_user = host ++ b':' ∷ dir; mnt_server = name; mnt_path = b'/' ∷ [] }
unfolding mount_target
mount_target-at host dir name h n =
    rw (cut_at-append b'@' (host ++ b':' ∷ dir) name h, put_user, cut_at-none b':' name n) refl
