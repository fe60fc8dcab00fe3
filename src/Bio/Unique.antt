-- ===== src/Bio/Unique.antt =====
-- kernel/bio.c: a block has one buffer.
use os_spring.Prelude.{
  ℕ, ◌≡◌, ◌≢◌, ◌⊎◌, inl, inr, refl, List, [], ◌∷◌, false, none, some, arith, All, All-map, ◌==◌,
  Bool-cases, ok, panic,
}
use os_spring.Bio.{Buf, has, ref, claim, find_cached, recycle, bget}

abbrev pub Apart : Buf → Buf → Type 0
Apart b c = b.dev ≢ 0 → has b.dev b.blockno c ≡ false

-- No two buffers are of one block of a device other than 0, the mark of a buffer never used.
abbrev pub Unique : List Buf → Type 0
Unique [] = Unit {0}
Unique (b ∷ bs) = All (Apart b) bs × Unique bs

abbrev pub Busy : List Buf → Type 0
Busy bs = All (λ b. b.refcnt ≢ 0) bs

module _ (dev blockno : ℕ) where
  abbrev Absent : List Buf → Type 0
  Absent bs = All (λ b. has dev blockno b ≡ false) bs

  -- What find_cached makes of the list, if it finds the block.
  abbrev Finds : List Buf → Type 0
  Finds bs =
      (r : Buf) × (bs' : List Buf) × (find_cached dev blockno bs ≡ some (r, bs'))
      × ((r.dev ≡ dev) × (r.blockno ≡ blockno))
      × ((x : Buf) → All (Apart x) bs → All (Apart x) bs')
      × (Unique bs → Unique bs')

  find_cached-Finds : (bs : List Buf) → ((find_cached dev blockno bs ≡ none) × Absent bs) ⊎ Finds bs
  unfolding find_cached
  find_cached-Finds [] = inl (refl, tt)
  find_cached-Finds (b ∷ bs) = elim (Bool-cases (has dev blockno b)) [
    | inl here ↦ inr (
      ref b,
      ref b ∷ bs,
      rw here,
      (ground (arith, here), ground (arith, here)),
      λ x h. (h.0, h.1),
      λ u. (u.0, u.1),
    )
    | inr there ↦ elim (find_cached-Finds bs) [
      | inl (e, absent) ↦ inl (rw (there, e), (there, absent))
      | inr (r, bs', e, key, apart, unique) ↦ inr (
        r,
        b ∷ bs',
        rw (there, e),
        key,
        λ x h. (h.0, apart x h.1),
        λ u. (apart b u.0, unique u.1),
      )
    ]
  ]

  -- What recycle makes of the list, if it finds a buffer to take for a block that is not there.
  abbrev Takes : List Buf → Type 0
  Takes bs =
      (r : Buf) × (bs' : List Buf) × (recycle dev blockno bs ≡ some (r, bs'))
      × ((r.dev ≡ dev) × (r.blockno ≡ blockno))
      × ((x : Buf) → has dev blockno x ≡ false → All (Apart x) bs → All (Apart x) bs')
      × (Absent bs → Unique bs → Unique bs')

  recycle-Takes : (bs : List Buf) → ((recycle dev blockno bs ≡ none) × Busy bs) ⊎ Takes bs
  unfolding recycle
  recycle-Takes [] = inl (refl, tt)
  recycle-Takes (b ∷ bs) = elim (recycle-Takes bs) [
    | inr (r, bs', e, key, apart, unique) ↦ inr (
      r,
      b ∷ bs',
      rw e,
      key,
      λ x nx h. (h.0, apart x nx h.1),
      λ a u. (apart b a.0 u.0, unique a.1 u.1),
    )
    | inl (e, busy) ↦ elim (Bool-cases (b.refcnt == 0)) [
      | inl free ↦ inr (
        claim dev blockno b,
        claim dev blockno b ∷ bs,
        rw (e, free),
        (refl, refl),
        λ x nx h. ((λ hx. ground (arith, nx)), h.1),
        λ a u. (All-map bs (λ c nc hc. nc) a.1, u.1),
      )
      | inr used ↦ inl (rw (e, used), ((λ z. ground (arith, z, used)), busy))
    ]
  ]

  -- In a cache where no two buffers are of one block, bget answers a buffer of the block and keeps
  -- it so, or panics, and that only when every buffer is referenced.
  pub bget-Unique :
      (bs : List Buf)
      → Unique bs
      → ((b : Buf) × (bs' : List Buf) × (bget dev blockno bs ≡ ok (b, bs'))
          × ((b.dev ≡ dev) × (b.blockno ≡ blockno))
          × Unique bs')
        ⊎ ((bget dev blockno bs ≡ panic) × Busy bs)
  unfolding bget
  bget-Unique bs u = elim (find_cached-Finds bs) [
    | inr (r, bs', e, key, _, unique) ↦ inl (r, bs', ground (arith, e), key, unique u)
    | inl (e, absent) ↦ elim (recycle-Takes bs) [
      | inr (r, bs', e', key, _, unique) ↦ inl (r, bs', ground (arith, e, e'), key, unique absent u)
      | inl (e', busy) ↦ inr (ground (arith, e, e'), busy)
    ]
  ]
