-- ===== src/Base/Ascending.antt =====
-- Lists that ascend strictly by a number: two with the same elements are one.
use Prim.Native.Nat.{ℕ, ◌<◌}
use mathlib.Core.Path.{◌≡◌, sym, ap, ap₂}
use mathlib.Core.Logic.Or
use mathlib.Core.List.{
  List, [], ◌∷◌, Perm, Pairwise, mem-cons_self, eq-or-mem_of_mem-cons, rel_of_Pairwise-cons,
}
use mathlib.Core.List.Pairwise
use mathlib.Core.List.Perm
use native.Mathlib.Omega.{arith}

abbrev pub Ascending : {A : Type 0} → (A → ℕ) → List A → Type 0
Ascending key = Pairwise (λ a b. key a < key b)

module _ {A : Type 0} (set : IsSet A) (key : A → ℕ) where
  same_head :
      (a b : A) (l r : List A)
      → Ascending key (a ∷ l)
      → Ascending key (b ∷ r)
      → Perm (a ∷ l) (b ∷ r)
      → a ≡ b
  same_head a b l r sl sr p =
      Or.elim (set a b) (eq-or-mem_of_mem-cons ((Perm.mem_iff p).0 mem-cons_self)) (λ e. e)
        (λ in_r.
          Or.elim (set a b) (eq-or-mem_of_mem-cons ((Perm.mem_iff p).1 mem-cons_self)) (λ e. sym e)
            (λ in_l.
              let up : key a < key b = rel_of_Pairwise-cons sl in_l in
              let down : key b < key a = rel_of_Pairwise-cons sr in_r in absurd (omega arith)))

  pub Ascending-unique : (l r : List A) → Ascending key l → Ascending key r → Perm l r → l ≡ r
  Ascending-unique [] r sl sr p = Perm.nil-eq p
  Ascending-unique (a ∷ l) [] sl sr p = Perm.eq-nil p
  Ascending-unique (a ∷ l) (b ∷ r) sl sr p =
      let head = same_head a b l r sl sr p in
      let tails : Perm (a ∷ l) (a ∷ r) = rw (ap (λ x. x ∷ r) head) p in
      ap₂ ◌∷◌ head
        (Ascending-unique l r (Pairwise.of_cons sl) (Pairwise.of_cons sr) (Perm.cons_inv tails))
