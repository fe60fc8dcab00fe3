-- ===== src/Fs/Map/Layout.antt =====
-- bmap of kernel/fs.c as a change to the map from a file's blocks to blocks of the disk.
use native.Mathlib.Decide.{dec_lt}
use os_spring.Prelude.{
  ℕ, ◌-◌, ◌<◌, ◌≡◌, ◌≢◌, inl, inr, refl, sym, ap, ◌∙◌, true, false, arith, ltb, ◌==◌, Bool-cases,
  if◌then◌else◌, ok,
}
use os_spring.Fs.{Superblock, Dinode, Fs, ndirect, maxfile, store}
use os_spring.Fs.Bitmap.{is_used}
use os_spring.Fs.Blocks.{MapReserved, Takes, balloc-Allocates}
use os_spring.Fs.Map.{slot}

-- The block of the disk that holds block `bn` of a file; 0 if there is none.
abbrev pub file_block : Dinode → Fs → ℕ → ℕ
file_block d fs bn =
    if ltb bn ndirect
    then d.addrs bn
    else if d.addrs ndirect == 0
    then 0
    else fs.words (d.addrs ndirect) (bn - ndirect)

module _ (sb : Superblock) where
  abbrev pub IsUsed : Fs → ℕ → Type 0
  IsUsed fs b = is_used sb fs b ≡ true

  -- The bitmap, the boot block and the file's indirect block are in use.
  pub record Sound (d : Dinode) (fs : Fs) : Type 0 where
    pub map_reserved : MapReserved sb fs
    pub boot : IsUsed fs 0
    pub indirect : IsUsed fs (d.addrs ndirect)

  -- Every block in use is so still.
  abbrev Grows : Fs → Fs → Type 0
  Grows fs fs' = (c : ℕ) → c < sb.size → IsUsed fs c → IsUsed fs' c

  -- What allocation changes of a file's map: block `bn` is at `b`, which was free, and all other blocks
  -- where they were; or 0, and then every block of the disk is in use.
  pub record Places (bn b : ℕ) (d : Dinode) (fs : Fs) (d' : Dinode) (fs' : Fs) : Type 0 where
    pub found : file_block d' fs' bn ≡ b
    pub others : (m : ℕ) → m < maxfile → m ≢ bn → file_block d' fs' m ≡ file_block d fs m
    pub kept : file_block d fs bn ≢ 0 → b ≡ file_block d fs bn
    pub was_free : file_block d fs bn ≡ 0 → b ≢ 0 → (is_used sb fs b ≡ false) × IsUsed fs' b
    pub full : b ≡ 0 → (c : ℕ) → c < sb.size → IsUsed fs' c

  -- What the array of an inode's addresses gets from the allocation of one.
  pub record Slots (n a : ℕ) (d : Dinode) (fs : Fs) (d' : Dinode) (fs' : Fs) : Type 0 where
    pub here : d'.addrs n ≡ a
    pub same : (m : ℕ) → m ≢ n → d'.addrs m ≡ d.addrs m
    pub old : d.addrs n ≢ 0 → (a ≡ d.addrs n) × (d' ≡ d) × (fs' ≡ fs)
    pub new : d.addrs n ≡ 0 → a ≢ 0 → Takes sb a fs fs'
    pub none_left : a ≡ 0 → (d' ≡ d) × (fs' ≡ fs)
    pub full : a ≡ 0 → (c : ℕ) → c < sb.size → IsUsed fs' c

  pub not_taken : (b c : ℕ) (fs fs' : Fs) → Takes sb b fs fs' → IsUsed fs c → c ≢ b
  not_taken b c fs fs' t u e = cc (sym u ∙ ap (is_used sb fs) e ∙ t.free)

  pub slot-Slots :
      (n : ℕ) (d : Dinode) (fs : Fs)
      → MapReserved sb fs
      → IsUsed fs 0
      → (a : ℕ) × (d' : Dinode) × (fs' : Fs) × (slot sb d n fs ≡ ok (a, d', fs'))
        × Slots n a d fs d' fs'
  unfolding slot
  slot-Slots n d fs m z = elim (Bool-cases (d.addrs n == 0)) [
    | inr there ↦ (
      d.addrs n,
      d,
      fs,
      rw there refl,
      record {
        here = refl;
        same = λ k h. refl;
        old = λ h. (refl, refl, refl);
        new = λ e. absurd (ground (arith, e, there));
        none_left = λ e. (refl, refl);
        full = λ e. absurd (ground (arith, e, there));
      },
    )
    | inl absent ↦ elim (balloc-Allocates sb fs m) [
      | inl (e, full) ↦ (
        0,
        d,
        fs,
        rw (absent, e) refl,
        record {
          here = ground (arith, absent);
          same = λ k h. refl;
          old = λ h. absurd (h (ground (arith, absent)));
          new = λ e n₀. absurd (n₀ refl);
          none_left = λ e. (refl, refl);
          full = λ e. full;
        },
      )
      | inr (b, fs', e, t) ↦
          let far = not_taken b 0 fs fs' t z in
          let at_b : (b == 0) ≡ false = ground (arith, far) in
          (
            b,
            record d { addrs = store d.addrs n b },
            fs',
            rw (absent, e, at_b) refl,
            record {
              here = ground arith;
              same = λ k h. ground (arith, h);
              old = λ h. absurd (h (ground (arith, absent)));
              new = λ e n₀. t;
              none_left = λ e. absurd (far (sym e));
              full = λ e. absurd (far (sym e));
            },
          )
    ]
  ]

  module _ (n a : ℕ) (d : Dinode) (fs : Fs) (d' : Dinode) (fs' : Fs)
      (s : Slots n a d fs d' fs') where
    same_words : (o : ℕ) → IsUsed fs o → fs'.words o ≡ fs.words o
    same_words o u = elim (Bool-cases (d.addrs n == 0)) [
      | inr there ↦ ap (λ (x : Fs). x.words o) (s.old (ground (arith, there))).2
      | inl absent ↦ elim (Bool-cases (a == 0)) [
        | inl z ↦ ap (λ (x : Fs). x.words o) (s.none_left (ground (arith, z))).1
        | inr nz ↦
            let t = s.new (ground (arith, absent)) (ground (arith, nz)) in
            (t.same_words o (not_taken a o fs fs' t u)).0
      ]
    ]

    pub slot-Grows : Grows fs fs'
    slot-Grows c h u = elim (Bool-cases (d.addrs n == 0)) [
      | inr there ↦ ap (λ (x : Fs). is_used sb x c) (s.old (ground (arith, there))).2 ∙ u
      | inl absent ↦ elim (Bool-cases (a == 0)) [
        | inl z ↦ ap (λ (x : Fs). is_used sb x c) (s.none_left (ground (arith, z))).1 ∙ u
        | inr nz ↦
            let t = s.new (ground (arith, absent)) (ground (arith, nz)) in
            t.used c h ∙ ground (arith, u)
      ]
    ]

    -- Block `n` of the file is one that the inode lists.
    pub direct-Places : n < ndirect → IsUsed fs (d.addrs ndirect) → Places n a d fs d' fs'
    direct-Places h u = record {
      found = ground (arith, h, s.here);
      others = λ m hm ne. elim (dec_lt m ndirect) [
        | yes dir ↦ ground (arith, dir, s.same m ne)
        | no ind ↦
            let at = s.same ndirect (omega (arith, h)) in
            let words = ap fs'.words at ∙ same_words (d.addrs ndirect) u in
            ground (arith, ind, at, ap (λ (w : ℕ → ℕ). w (m - ndirect)) words)
      ];
      kept = λ e. ground (arith, h, (s.old (ground (arith, h, e))).0);
      was_free = λ e ne.
          let t = s.new (ground (arith, h, e)) ne in (t.free, t.used a t.below ∙ ground arith);
      full = s.full;
    }
