-- ===== src/Fs/Bitmap.antt =====
-- balloc and bfree of kernel/fs.c: the bitmap of the blocks in use.
use native.Mathlib.Decide.{ℕ_discrete}
use os_spring.Prelude.{
  ℕ, zero, suc, ◌+◌, ◌*◌, ◌/◌, ◌%◌, ◌≤◌, ◌<◌, ◌≡◌, ◌≢◌, inl, inr, refl, subst, ap, ◌∙◌, Bool, true,
  false, Option, none, some, some-injective, arith, ltb, Bool-cases,
}
use os_spring.Fs.{Superblock, Fs, bpb, test_bit, set_bit, clear_bit, bblock, find_free}

pub test_bit-set_bit : (x k : ℕ) → test_bit (set_bit x k) k ≡ true
unfolding test_bit set_bit
test_bit-set_bit x zero = ground arith
test_bit-set_bit x (suc k) =
    let half : (set_bit (x / 2) k * 2 + x % 2) / 2 ≡ set_bit (x / 2) k = omega arith in
    ap (λ y. test_bit y k) half ∙ test_bit-set_bit (x / 2) k

pub test_bit-set_bit_ne : (x k j : ℕ) → k ≢ j → test_bit (set_bit x k) j ≡ test_bit x j
unfolding test_bit set_bit
test_bit-set_bit_ne x zero zero h = absurd (h refl)
test_bit-set_bit_ne x zero (suc j) h =
    let half : (x / 2 * 2 + 1) / 2 ≡ x / 2 = omega arith in ap (λ y. test_bit y j) half
test_bit-set_bit_ne x (suc k) zero h = ground arith
test_bit-set_bit_ne x (suc k) (suc j) h =
    let half : (set_bit (x / 2) k * 2 + x % 2) / 2 ≡ set_bit (x / 2) k = omega arith in
    ap (λ y. test_bit y j) half ∙ test_bit-set_bit_ne (x / 2) k j (λ e. h (ap suc e))

clear_bit-set_bit : (x k : ℕ) → test_bit x k ≡ false → clear_bit (set_bit x k) k ≡ x
unfolding test_bit set_bit clear_bit
clear_bit-set_bit x zero h = ground (arith, h)
clear_bit-set_bit x (suc k) h =
    let half : (set_bit (x / 2) k * 2 + x % 2) / 2 ≡ set_bit (x / 2) k = omega arith in
    let rest = clear_bit-set_bit (x / 2) k h in omega (arith, ap (λ y. clear_bit y k) half ∙ rest)

pub test_bit-clear_bit : (x k : ℕ) → test_bit (clear_bit x k) k ≡ false
unfolding test_bit clear_bit
test_bit-clear_bit x zero = ground arith
test_bit-clear_bit x (suc k) =
    let half : (clear_bit (x / 2) k * 2 + x % 2) / 2 ≡ clear_bit (x / 2) k = omega arith in
    ap (λ y. test_bit y k) half ∙ test_bit-clear_bit (x / 2) k

pub test_bit-clear_bit_ne : (x k j : ℕ) → k ≢ j → test_bit (clear_bit x k) j ≡ test_bit x j
unfolding test_bit clear_bit
test_bit-clear_bit_ne x zero zero h = absurd (h refl)
test_bit-clear_bit_ne x zero (suc j) h =
    let half : x / 2 * 2 / 2 ≡ x / 2 = omega arith in ap (λ y. test_bit y j) half
test_bit-clear_bit_ne x (suc k) zero h = ground arith
test_bit-clear_bit_ne x (suc k) (suc j) h =
    let half : (clear_bit (x / 2) k * 2 + x % 2) / 2 ≡ clear_bit (x / 2) k = omega arith in
    ap (λ y. test_bit y j) half ∙ test_bit-clear_bit_ne (x / 2) k j (λ e. h (ap suc e))

module _ (sb : Superblock) where
  -- Block `b` is in use, by the bitmap.
  abbrev pub is_used : Fs → ℕ → Bool
  is_used fs b = test_bit (fs.bytes (bblock sb b) (b % bpb / 8)) (b % 8)

  -- The inner loop finds the first free block of the bitmap block.
  pub record FindsFree (k b bi : ℕ) (fs : Fs) (r : Option ℕ) : Type 0 where
    pub none_free :
        r ≡ none → (c : ℕ) → bi ≤ c → c < bi + k → b + c < sb.size → is_used fs (b + c) ≡ true
    pub a_free :
        (c : ℕ)
        → r ≡ some c
        → (bi ≤ c)
          × (c < bi + k)
          × (b + c < sb.size)
          × (is_used fs (b + c) ≡ false)
          × ((d : ℕ) → bi ≤ d → d < c → is_used fs (b + d) ≡ true)

  bit_at :
      (fs : Fs) (b bi : ℕ)
      → b % bpb ≡ 0
      → bi < bpb
      → test_bit (fs.bytes (bblock sb b) (bi / 8)) (bi % 8) ≡ is_used fs (b + bi)
  bit_at fs b bi al h =
      let one : b / bpb ≡ (b + bi) / bpb = omega arith in
      let two : bi / 8 ≡ (b + bi) % bpb / 8 = omega arith in
      let three : bi % 8 ≡ (b + bi) % 8 = omega arith in rw (one, two, three) refl

  pub find_free-FindsFree :
      (k b bi : ℕ) (fs : Fs)
      → b % bpb ≡ 0
      → bi + k ≤ bpb
      → FindsFree k b bi fs (find_free sb k b bi fs)
  unfolding find_free
  find_free-FindsFree zero b bi fs al h = record {
    none_free = λ e c lo hi. absurd (omega arith);
    a_free = λ c e. cc e;
  }
  find_free-FindsFree (suc k) b bi fs al h =
      let rest = find_free-FindsFree k b (bi + 1) fs al (omega arith) in
      let here = bit_at fs b bi al (omega arith) in
      elim (Bool-cases (ltb (b + bi) sb.size)) [
        | inr out ↦ rw out (record {
          none_free = λ e c lo hi below. absurd (ground (arith, out));
          a_free = λ c e. cc e;
        })
        | inl within ↦ elim (Bool-cases (is_used fs (b + bi))) [
          | inr free ↦
              rw (within, here, free)
                (record {
                  none_free = λ e. cc e;
                  a_free = λ c e.
                      let same : bi ≡ c = some-injective bi c e in
                      (
                        omega (arith, same),
                        omega (arith, same),
                        ground (arith, within, same),
                        subst (λ x. is_used fs (b + x) ≡ false) same free,
                        λ d lo hi. absurd (omega (arith, same)),
                      );
                })
          | inl used ↦
              rw (within, here, used)
                (record {
                  none_free = λ e c lo hi below. elim (ℕ_discrete bi c) [
                    | yes same ↦ subst (λ x. is_used fs (b + x) ≡ true) same used
                    | no ne ↦ rest.none_free e c (omega arith) (omega arith) below
                  ];
                  a_free = λ c e.
                      let (lo, hi, below, free, first) = rest.a_free c e in
                      (
                        omega (arith, lo),
                        omega (arith, hi),
                        below,
                        free,
                        λ d lo' hi'. elim (ℕ_discrete bi d) [
                          | yes same ↦ subst (λ x. is_used fs (b + x) ≡ true) same used
                          | no ne ↦ first d (omega arith) hi'
                        ],
                      );
                })
        ]
      ]
