-- ===== src/Fs/Map/Indirect.antt =====
-- bmap of kernel/fs.c: the blocks beyond the direct ones, and the whole of it.
use native.Mathlib.Decide.{dec_lt}
use os_spring.Prelude.{
  ℕ, ◌-◌, ◌≤◌, ◌<◌, ◌≡◌, ◌≢◌, inl, inr, refl, sym, ap, ◌∙◌, false, not, arith, ◌==◌, Bool-cases,
  if◌then◌else◌, Outcome, ok, ◌>>=◌,
}
use os_spring.Fs.{Superblock, Dinode, Fs, ndirect, maxfile, bblock, store, log_write, balloc}
use os_spring.Fs.Bitmap.{is_used}
use os_spring.Fs.Blocks.{MapReserved, balloc-Allocates}
use os_spring.Fs.Map.{bmap}
use os_spring.Fs.Map.Layout.{
  file_block, IsUsed, Sound, Places, Slots, not_taken, slot-Slots, slot-Grows, direct-Places,
}

module _ (sb : Superblock) where
  -- With the block of block numbers in place, every block of the file is where it was.
  module _ (addr : ℕ) (d : Dinode) (fs : Fs) (d' : Dinode) (fs' : Fs)
      (s : Slots sb ndirect addr d fs d' fs') where
    same_blocks :
        addr ≢ 0
        → IsUsed sb fs (d.addrs ndirect)
        → (m : ℕ) → file_block d' fs' m ≡ file_block d fs m
    same_blocks nz u m = elim (dec_lt m ndirect) [
      | yes dir ↦ ground (arith, dir, s.same m (omega (arith, dir)))
      | no ind ↦ elim (Bool-cases (d.addrs ndirect == 0)) [
        | inr there ↦
            let (_, same_d, same_fs) = s.old (ground (arith, there)) in
            ap (λ (x : Dinode). file_block x fs' m) same_d
            ∙ ap (λ (x : Fs). file_block d x m) same_fs
        | inl absent ↦
            let t = s.new (ground (arith, absent)) nz in
            let zero_word : fs'.words addr (m - ndirect) ≡ 0 =
              ap (λ (w : ℕ → ℕ). w (m - ndirect)) t.zeros.1 in
            let at : fs'.words (d'.addrs ndirect) (m - ndirect) ≡ 0 =
              ap (λ x. fs'.words x (m - ndirect)) s.here ∙ zero_word in
            ground (arith, ind, absent, at)
      ]
    ]

    addr-IsUsed : addr ≢ 0 → IsUsed sb fs (d.addrs ndirect) → IsUsed sb fs' addr
    addr-IsUsed nz u = elim (Bool-cases (d.addrs ndirect == 0)) [
      | inr there ↦
          let (at, same_d, same_fs) = s.old (ground (arith, there)) in
          ap (λ (x : Fs). is_used sb x addr) same_fs ∙ ap (is_used sb fs) at ∙ u
      | inl absent ↦ let t = s.new (ground (arith, absent)) nz in t.used addr t.below ∙ ground arith
    ]

    map_reserved : MapReserved sb fs → MapReserved sb fs'
    map_reserved m c h =
        ((m c h).0, slot-Grows sb ndirect addr d fs d' fs' s (bblock sb c) (m c h).0 (m c h).1)

    at_word :
        (x : Fs) (m : ℕ) → addr ≢ 0 → ndirect ≤ m → file_block d' x m ≡ x.words addr (m - ndirect)
    at_word x m nz h = ground (arith, h, s.here, nz, ap (λ q. x.words q (m - ndirect)) s.here)

    -- The block of block numbers with entry `n` written.
    with_word : ℕ → ℕ → Fs → Fs
    with_word n b t =
        log_write addr (record t { words = store t.words addr (store (t.words addr) n b) })

    word_others :
        (bn b m : ℕ) (t : Fs)
        → addr ≢ 0
        → ndirect ≤ bn
        → m ≢ bn
        → t.words addr ≡ fs'.words addr
        → file_block d' (with_word (bn - ndirect) b t) m ≡ file_block d' fs' m
    unfolding with_word
    word_others bn b m t nz h ne same = elim (dec_lt m ndirect) [
      | yes dir ↦ ground (arith, dir)
      | no ind ↦
          let word : store (t.words addr) (bn - ndirect) b (m - ndirect)
              ≡ fs'.words addr (m - ndirect) =
            ground (arith, h, ne, ind, ap (λ (w : ℕ → ℕ). w (m - ndirect)) same) in
          at_word (with_word (bn - ndirect) b t) m nz (omega (arith, ind))
          ∙ ground arith
          ∙ word
          ∙ sym (at_word fs' m nz (omega (arith, ind)))
    ]

    -- An entry of the block of block numbers, with a block allocated for it if it is 0.
    entry : ℕ → Outcome (ℕ × Dinode × Fs)
    entry n =
        let a = fs'.words addr n in
        if not (a == 0)
        then ok (a, d', fs')
        else balloc sb fs' >>= λ (b, t). ok (
          b,
          d',
          if b == 0
              then t
              else log_write addr
                  (record t { words = store t.words addr (store (t.words addr) n b) }),
        )

    entry-Places :
        (bn : ℕ)
        → addr ≢ 0
        → Sound sb d fs
        → ndirect ≤ bn
        → (b : ℕ) × (d₂ : Dinode) × (fs₂ : Fs) × (entry (bn - ndirect) ≡ ok (b, d₂, fs₂))
          × Places sb bn b d fs d₂ fs₂
    unfolding entry with_word
    entry-Places bn nz sound h =
        let same = same_blocks nz sound.indirect in
        let used = addr-IsUsed nz sound.indirect in
        let at : file_block d' fs' bn ≡ fs'.words addr (bn - ndirect) = at_word fs' bn nz h in
        elim (Bool-cases (fs'.words addr (bn - ndirect) == 0)) [
          | inr there ↦ (
            fs'.words addr (bn - ndirect),
            d',
            fs',
            rw there refl,
            record {
              found = at;
              others = λ m hm ne. same m;
              kept = λ e. sym at ∙ same bn;
              was_free = λ e ne. absurd (ne (sym at ∙ same bn ∙ e));
              full = λ e. absurd (ground (arith, e, there));
            },
          )
          | inl absent ↦ elim (balloc-Allocates sb fs' (map_reserved sound.map_reserved)) [
            | inl (e, full) ↦ (
              0,
              d',
              fs',
              rw (absent, e) refl,
              record {
                found = at ∙ ground (arith, absent);
                others = λ m hm ne. same m;
                kept = λ e'. absurd (e' (sym (same bn) ∙ at ∙ ground (arith, absent)));
                was_free = λ e' ne. absurd (ne refl);
                full = λ e'. full;
              },
            )
            | inr (b, t, e, takes) ↦
                let zero_used =
                  slot-Grows sb ndirect addr d fs d' fs' s 0 (omega (arith, takes.below))
                    sound.boot in
                let nb = not_taken sb b 0 fs' t takes zero_used in
                let not_zero : (b == 0) ≡ false = ground (arith, nb) in
                let same_word = (takes.same_words addr (not_taken sb b addr fs' t takes used)).0 in
                (
                  b,
                  d',
                  with_word (bn - ndirect) b t,
                  rw (absent, e, not_zero) refl,
                  record {
                    found = at_word (with_word (bn - ndirect) b t) bn nz h ∙ ground arith;
                    others = λ m hm ne. word_others bn b m t nz h ne same_word ∙ same m;
                    kept = λ e'. absurd (e' (sym (same bn) ∙ at ∙ ground (arith, absent)));
                    was_free = λ e' ne. (
                      elim (Bool-cases (is_used sb fs b)) [
                        | inl u ↦ cc (
                            sym takes.free
                            ∙ slot-Grows sb ndirect addr d fs d' fs' s b takes.below u)
                        | inr f ↦ f
                      ],
                      takes.used b takes.below ∙ ground arith,
                    );
                    full = λ e'. absurd (nb (sym e'));
                  },
                )
          ]
        ]

  -- bmap of a block below MAXFILE, where the bitmap, the boot block and the file's indirect block are in
  -- use: it does not panic. It answers the block that the file's map has for `bn` from then on, the one
  -- it had if there was one, or else one that was free and is in use now; or 0, and then
  -- every block of the disk is in use. Every other block of the file is where it was.
  pub bmap-Places :
      (bn : ℕ) (d : Dinode) (fs : Fs)
      → bn < maxfile
      → Sound sb d fs
      → (b : ℕ) × (d' : Dinode) × (fs' : Fs) × (bmap sb d bn fs ≡ ok (b, d', fs'))
        × Places sb bn b d fs d' fs'
  unfolding bmap entry
  bmap-Places bn d fs h sound = elim (dec_lt bn ndirect) [
    | yes dir ↦
        let (b, d', fs', e, s) = slot-Slots sb bn d fs sound.map_reserved sound.boot in
        (b, d', fs', ground (arith, dir, e), direct-Places sb bn b d fs d' fs' s dir sound.indirect)
    | no ind ↦
        let (addr, d', fs', e, s) = slot-Slots sb ndirect d fs sound.map_reserved sound.boot in
        elim (Bool-cases (addr == 0)) [
          | inl z ↦
              let (same_d, same_fs) = s.none_left (ground (arith, z)) in
              let none_there : d.addrs ndirect ≡ 0 =
                ap (λ (x : Dinode). x.addrs ndirect) (sym same_d) ∙ s.here ∙ ground (arith, z) in
              let nothing : file_block d fs bn ≡ 0 = ground (arith, ind, none_there) in
              let same_blocks' : (m : ℕ) → file_block d' fs' m ≡ file_block d fs m = λ m.
                ap (λ (x : Dinode). file_block x fs' m) same_d
                ∙ ap (λ (x : Fs). file_block d x m) same_fs in
              (
                0,
                d',
                fs',
                ground (arith, ind, h, e, z),
                record {
                  found = same_blocks' bn ∙ nothing;
                  others = λ m hm ne. same_blocks' m;
                  kept = λ n. absurd (n nothing);
                  was_free = λ e' n. absurd (n refl);
                  full = λ e'. s.full (ground (arith, z));
                },
              )
          | inr nz ↦
              let (b, d₂, fs₂, e₂, p) =
                entry-Places addr d fs d' fs' s bn (ground (arith, nz)) sound
                  (omega (arith, ind)) in
              (b, d₂, fs₂, ground (arith, ind, h, e, nz) ∙ e₂, p)
        ]
  ]
