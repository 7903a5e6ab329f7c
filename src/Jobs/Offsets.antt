-- ===== src/Jobs/Offsets.antt =====
-- test_read_cb: the offsets that a test reads at, one reply after the other.
use nct.Base.{ℕ, zero, suc, ◌+◌, ◌*◌, ◌^◌, ◌<◌, ◌≤◌, ◌≡◌, refl, ◌∙◌, arith, add64}
use nct.Req.State.{Mnt}
use nct.Jobs.{next_offset}

-- The state after `k` rounds.
abbrev pub rounds : ℕ → Mnt → Mnt
rounds zero m = m
rounds (suc k) m = (next_offset (rounds k m)).1

-- The offset of round `k`.
abbrev pub offset_at : ℕ → Mnt → ℕ
offset_at k m = (next_offset (rounds k m)).0

next_offset-inside :
    (m : Mnt) (o : ℕ)
    → m.priv.pr_offset ≡ o
    → o + m.priv.pr_length ≤ m.vn_size
    → m.vn_size < 2 ^ 64
    → ((next_offset m).0 ≡ o)
      × ((next_offset m).1.priv.pr_offset ≡ o + m.priv.pr_length)
      × ((next_offset m).1.priv.pr_length ≡ m.priv.pr_length)
      × ((next_offset m).1.vn_size ≡ m.vn_size)
unfolding next_offset add64
next_offset-inside m o e h small = ground arith

next_offset-outside :
    (m : Mnt) (o : ℕ)
    → m.priv.pr_offset ≡ o
    → m.vn_size < o + m.priv.pr_length
    → o + m.priv.pr_length < 2 ^ 64
    → ((next_offset m).0 ≡ o + m.priv.pr_length) × ((next_offset m).1.priv.pr_offset ≡ 0)
unfolding next_offset add64
next_offset-outside m o e h small = ground arith

record Kept (k : ℕ) (m : Mnt) : Type 0 where
  offset : (rounds k m).priv.pr_offset ≡ k * m.priv.pr_length
  len : (rounds k m).priv.pr_length ≡ m.priv.pr_length
  size : (rounds k m).vn_size ≡ m.vn_size

rounds-Kept :
    (k : ℕ) (m : Mnt)
    → m.priv.pr_offset ≡ 0
    → k * m.priv.pr_length ≤ m.vn_size
    → m.vn_size < 2 ^ 64
    → Kept k m
rounds-Kept zero m e h small = record { offset = e ∙ omega arith; len = refl; size = refl }
rounds-Kept (suc k) m e h small =
    let before = rounds-Kept k m e (grind arith) small in
    let next =
      next_offset-inside (rounds k m) (k * m.priv.pr_length) before.offset
        (omega (arith, before.len, before.size)) (omega (arith, before.size)) in
    record {
      offset = next.1 ∙ omega (arith, before.len);
      len = next.2 ∙ before.len;
      size = next.3 ∙ before.size;
    }

-- From offset 0 a test reads block after block, as long as the block lies in the file.
pub offset_at-inside :
    (k : ℕ) (m : Mnt)
    → m.priv.pr_offset ≡ 0
    → suc k * m.priv.pr_length ≤ m.vn_size
    → m.vn_size < 2 ^ 64
    → offset_at k m ≡ k * m.priv.pr_length
offset_at-inside k m e h small =
    let kept = rounds-Kept k m e (grind arith) small in
    (next_offset-inside (rounds k m) (k * m.priv.pr_length) kept.offset
      (omega (arith, kept.len, kept.size)) (omega (arith, kept.size))).0

-- The round whose block would pass the end of the file sends a read that starts behind that block,
-- past the end of the file; only the round after it starts again at 0.
pub offset_at-past :
    (k : ℕ) (m : Mnt)
    → m.priv.pr_offset ≡ 0
    → k * m.priv.pr_length ≤ m.vn_size
    → m.vn_size < suc k * m.priv.pr_length
    → m.vn_size + m.priv.pr_length < 2 ^ 64
    → (offset_at k m ≡ suc k * m.priv.pr_length)
      × (m.vn_size < offset_at k m)
      × ((rounds (suc k) m).priv.pr_offset ≡ 0)
offset_at-past k m e h outside small =
    let kept = rounds-Kept k m e h (omega arith) in
    let out =
      next_offset-outside (rounds k m) (k * m.priv.pr_length) kept.offset
        (omega (arith, kept.len, kept.size)) (omega (arith, kept.len)) in
    (out.0 ∙ omega (arith, kept.len), omega (arith, out.0, kept.len), out.1)
