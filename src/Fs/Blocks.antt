-- ===== src/Fs/Blocks.antt =====
-- balloc and bfree of kernel/fs.c as changes to the set of blocks in use.
use native.Mathlib.Decide.{ℕ_discrete, dec_lt}
use os_spring.Prelude.{
  ℕ, zero, suc, ◌+◌, ◌-◌, ◌*◌, ◌/◌, ◌%◌, ◌≤◌, ◌<◌, ◌≡◌, ◌≢◌, ◌⊎◌, inl, inr, refl, sym, subst, ap,
  ◌∙◌, ◌∷◌, true, false, ◌&&◌, arith, ltb, ◌==◌, Bool-cases, Option-cases, if◌then◌else◌, Outcome,
  ok,
}
use os_spring.Fs.{
  Superblock, Fs, bpb, log_write, test_bit, set_bit, clear_bit, no_dinode, bzero, bblock, put_bits,
  find_free, balloc_from, balloc, bfree,
}
use os_spring.Fs.Bitmap.{
  test_bit-set_bit, test_bit-set_bit_ne, test_bit-clear_bit, test_bit-clear_bit_ne, is_used,
  find_free-FindsFree,
}

module _ (sb : Superblock) where
  -- The blocks of the bitmap are in use.
  abbrev pub MapReserved : Fs → Type 0
  MapReserved fs =
      (c : ℕ) → c < sb.size → (bblock sb c < sb.size) × (is_used sb fs (bblock sb c) ≡ true)

  -- A write of the byte of block `b` in the bitmap that leaves the other bits alone.
  is_used-put_bits :
      (b x c : ℕ) (fs : Fs)
      → ((j : ℕ) → b % 8 ≢ j → test_bit x j ≡ test_bit (fs.bytes (bblock sb b) (b % bpb / 8)) j)
      → is_used sb (put_bits sb b (b % bpb) x fs) c
        ≡ (if b == c then test_bit x (b % 8) else is_used sb fs c)
  is_used-put_bits b x c fs h = elim (ℕ_discrete b c) [
    | yes e ↦
        subst
          (λ y.
            is_used sb (put_bits sb b (b % bpb) x fs) y
            ≡ (if b == y then test_bit x (b % 8) else is_used sb fs y))
          e (ground arith)
    | no ne ↦ elim (Bool-cases (bblock sb b == bblock sb c && b % bpb / 8 == c % bpb / 8)) [
      | inl same ↦
          let blocks : bblock sb b ≡ bblock sb c = ground (arith, same) in
          let octets : b % bpb / 8 ≡ c % bpb / 8 = ground (arith, same) in
          let apart : (b == c) ≡ false = ground (arith, ne) in
          let kept : test_bit x (c % 8) ≡ is_used sb fs c =
            h (c % 8) (omega (arith, octets, blocks, ne))
            ∙ ap (λ y. test_bit y (c % 8))
                (ap (fs.bytes (bblock sb b)) octets ∙ ap (λ m. fs.bytes m (c % bpb / 8)) blocks) in
          ground (arith, same, ne, kept)
      | inr other ↦ ground (arith, other, ne)
    ]
  ]

  -- Block `b` was free, all blocks before it in use. It is in use now and holds zeros; nothing else
  -- has changed but the bitmap, and both blocks are logged.
  pub record Takes (b : ℕ) (fs fs' : Fs) : Type 0 where
    pub below : b < sb.size
    pub free : is_used sb fs b ≡ false
    pub first : (c : ℕ) → c < b → is_used sb fs c ≡ true
    pub used : (c : ℕ) → c < sb.size → is_used sb fs' c ≡ (if b == c then true else is_used sb fs c)
    pub zeros :
        (fs'.bytes b ≡ (λ _. 0)) × (fs'.words b ≡ (λ _. 0)) × (fs'.dinodes b ≡ (λ _. no_dinode))
    pub same_bytes : (o : ℕ) → o ≢ b → o ≢ bblock sb b → fs'.bytes o ≡ fs.bytes o
    pub same_words : (o : ℕ) → o ≢ b → (fs'.words o ≡ fs.words o) × (fs'.dinodes o ≡ fs.dinodes o)
    pub logs : fs'.logged ≡ b ∷ bblock sb b ∷ fs.logged
    pub same_table : (fs'.itable ≡ fs.itable) × (fs'.procs ≡ fs.procs)

  taken : ℕ → Fs → Fs
  taken b fs = bzero b (
      log_write (bblock sb b)
        (put_bits sb b (b % bpb) (set_bit (fs.bytes (bblock sb b) (b % bpb / 8)) (b % 8)) fs))

  taken-Takes :
      (b : ℕ) (fs : Fs)
      → MapReserved fs
      → b < sb.size
      → is_used sb fs b ≡ false
      → ((c : ℕ) → c < b → is_used sb fs c ≡ true)
      → Takes b fs (taken b fs)
  unfolding taken bzero
  taken-Takes b fs m below free first = record {
    below = below;
    free = free;
    first = first;
    used = λ c h.
        let far : b ≢ bblock sb c = (λ e. cc (sym free ∙ ap (is_used sb fs) e ∙ (m c h).1)) in
        let octet = fs.bytes (bblock sb b) (b % bpb / 8) in
        let x = set_bit octet (b % 8) in
        let same : is_used sb (taken b fs) c ≡ is_used sb (put_bits sb b (b % bpb) x fs) c =
          ground (arith, far) in
        same
        ∙ is_used-put_bits b x c fs (test_bit-set_bit_ne octet (b % 8))
        ∙ rw (test_bit-set_bit octet (b % 8)) refl;
    zeros = (ground arith, ground arith, ground arith);
    same_bytes = λ o n n'. ground (arith, n, n');
    same_words = λ o n. (ground (arith, n), ground (arith, n));
    logs = refl;
    same_table = (refl, refl);
  }

  -- What balloc answers: 0 with every block in use and nothing changed, or a block that it has taken.
  abbrev pub Allocates : Fs → Outcome (ℕ × Fs) → Type 0
  Allocates fs r =
      ((r ≡ ok (0, fs)) × ((c : ℕ) → c < sb.size → is_used sb fs c ≡ true))
      ⊎ ((b : ℕ) × (fs' : Fs) × (r ≡ ok (b, fs')) × Takes b fs fs')

  taken_at :
      (b bi : ℕ) (fs : Fs)
      → b % bpb ≡ 0
      → bi < bpb
      → bzero (b + bi) (
          log_write
            (bblock sb b)
            (put_bits sb b bi (set_bit (fs.bytes (bblock sb b) (bi / 8)) (bi % 8)) fs))
        ≡ taken (b + bi) fs
  unfolding taken
  taken_at b bi fs al h =
      let one : b / bpb ≡ (b + bi) / bpb = omega arith in
      let two : bi / 8 ≡ (b + bi) % bpb / 8 = omega arith in
      let three : bi % 8 ≡ (b + bi) % 8 = omega arith in rw (one, two, three) refl

  balloc_from-Allocates :
      (k b : ℕ) (fs : Fs)
      → MapReserved fs
      → b % bpb ≡ 0
      → sb.size + bpb ≤ b + k * bpb
      → b < sb.size + bpb
      → ((c : ℕ) → c < b → c < sb.size → is_used sb fs c ≡ true)
      → Allocates fs (balloc_from sb k b fs)
  unfolding balloc_from
  balloc_from-Allocates zero b fs m al h near first = absurd (omega arith)
  balloc_from-Allocates (suc k) b fs m al h near first = elim (Bool-cases (ltb b sb.size)) [
    | inr out ↦ inl (rw out refl, λ c hc. first c (ground (arith, out)) hc)
    | inl within ↦
        let found = find_free-FindsFree sb bpb b 0 fs al (omega arith) in
        elim (Option-cases (find_free sb bpb b 0 fs)) [
          | inl e ↦
              let rest =
                balloc_from-Allocates k (b + bpb) fs m (omega arith) (omega arith)
                  (ground (arith, within))
                  λ c hc below. elim (dec_lt c b) [
                    | yes early ↦ first c early below
                    | no late ↦
                        let there : b + (c - b) ≡ c = omega arith in
                        subst (λ y. is_used sb fs y ≡ true) there
                          (found.none_free e (c - b) (omega arith) (omega arith) (omega arith))
                  ] in
              rw (within, e) rest
          | inr (bi, e) ↦
              let (lo, hi, below, free, before) = found.a_free bi e in
              inr (
                b + bi,
                taken (b + bi) fs,
                rw (within, e) (ap (λ (t : Fs). ok (b + bi, t)) (taken_at b bi fs al hi)),
                taken-Takes (b + bi) fs m below free λ c hc. elim (dec_lt c b) [
                  | yes early ↦ first c early (omega (arith, below))
                  | no late ↦
                      let there : b + (c - b) ≡ c = omega arith in
                      subst (λ y. is_used sb fs y ≡ true) there
                        (before (c - b) (omega arith) (omega arith))
                ],
              )
        ]
  ]

  -- balloc in a file system whose bitmap is marked in use: it ends. It answers 0 and changes nothing
  -- when every block is in use, and otherwise takes the first free block.
  pub balloc-Allocates : (fs : Fs) → MapReserved fs → Allocates fs (balloc sb fs)
  unfolding balloc
  balloc-Allocates fs m =
      balloc_from-Allocates (suc (sb.size / bpb + 1)) 0 fs m refl (omega arith) (omega arith)
        λ c h. absurd (omega arith)

  -- bfree of a block in use: it does not panic, and the block is free then; the bitmap is as before
  -- for every other block.
  bfree_lem :
      (b : ℕ) (fs : Fs)
      → is_used sb fs b ≡ true
      → (fs' : Fs) × (bfree sb b fs ≡ ok fs')
        × ((c : ℕ) → is_used sb fs' c ≡ (if b == c then false else is_used sb fs c))
  unfolding bfree
  bfree_lem b fs used =
      let x = fs.bytes (bblock sb b) (b % bpb / 8) in
      let bit : test_bit x (b % bpb % 8) ≡ true = ap (test_bit x) (omega arith) ∙ used in
      let same : b % bpb % 8 ≡ b % 8 = omega arith in
      (
        log_write (bblock sb b) (put_bits sb b (b % bpb) (clear_bit x (b % 8)) fs),
        rw (same, used) refl,
        λ c.
            is_used-put_bits b (clear_bit x (b % 8)) c fs (test_bit-clear_bit_ne x (b % 8))
            ∙ rw (test_bit-clear_bit x (b % 8)) refl,
      )

  freed :
      (b : ℕ) (fs fs' : Fs)
      → Takes b fs fs'
      → (fs'' : Fs) × (bfree sb b fs' ≡ ok fs'')
        × ((c : ℕ) → c < sb.size → is_used sb fs'' c ≡ is_used sb fs c)
  freed b fs fs' takes =
      let (fs'', e, maps) = bfree_lem b fs' (takes.used b takes.below ∙ ground arith) in
      (
        fs'',
        e,
        λ c h. maps c ∙ elim (ℕ_discrete b c) [
          | yes same ↦
              subst (λ y. (if b == y then false else is_used sb fs' y) ≡ is_used sb fs y) same
                (ground (arith, takes.free))
          | no ne ↦ ground (arith, ne, takes.used c h)
        ],
      )

  -- A block that balloc has taken can be freed: bfree does not panic, and the bitmap then says of every
  -- block what it said before.
  bfree-balloc :
      (b : ℕ) (fs fs' : Fs)
      → MapReserved fs
      → 0 < b
      → balloc sb fs ≡ ok (b, fs')
      → (fs'' : Fs) × (bfree sb b fs' ≡ ok fs'')
        × ((c : ℕ) → c < sb.size → is_used sb fs'' c ≡ is_used sb fs c)
  bfree-balloc b fs fs' m h e = elim (balloc-Allocates fs m) [
    | inl (e', full) ↦ let zero_b : 0 ≡ b = cc (sym e' ∙ e) in absurd (omega (arith, zero_b))
    | inr (b', t, e', takes) ↦
        let same_b : b' ≡ b = cc (sym e' ∙ e) in
        let same_fs : t ≡ fs' = cc (sym e' ∙ e) in
        freed b fs fs' (subst (λ x. Takes x fs fs') same_b (subst (Takes b' fs) same_fs takes))
  ]
