-- ===== src/Bio/Release.antt =====
-- kernel/bio.c: brelse keeps blocks apart.
use os_spring.Prelude.{
  ℕ, ◌+◌, ◌-◌, ◌%◌, ◌^◌, ◌≡◌, ◌≢◌, ◌⊎◌, inl, inr, refl, List, [], ◌∷◌, Bool, true, false, none,
  some, arith, All, ◌==◌, ==_iff, Bool-cases, ok, panic,
}
use os_spring.Bio.{Buf, has, unlink, put_back, brelse}
use os_spring.Bio.Unique.{Apart, Unique}

Apart-sym : (b c : Buf) → Apart b c → Apart c b
Apart-sym b c h n = elim (Bool-cases (has c.dev c.blockno b)) [
  | inl same ↦ absurd (ground (arith, h, n, same))
  | inr other ↦ other
]

abbrev counted : ℕ → Buf → Buf
counted n b = record b { refcnt = n }

module _ (id : ℕ) where
  -- The buffer that unlink finds, and the list without it and with its count changed.
  abbrev Unlinks : List Buf → Type 0
  Unlinks bs =
      (b : Buf) × (rest : List Buf) × (unlink id bs ≡ some (b, rest))
      × (b.id ≡ id)
      × ((x : Buf) → All (Apart x) bs → Apart x b × All (Apart x) rest)
      × (Unique bs → Unique rest × All (Apart b) rest)
      × ((n : ℕ) (x : Buf) → All (Apart x) bs → All (Apart x) (put_back (counted n b) bs))
      × ((n : ℕ) → Unique bs → Unique (put_back (counted n b) bs))

  unlink-Unlinks : (bs : List Buf) → (unlink id bs ≡ none) ⊎ Unlinks bs
  unfolding unlink put_back
  unlink-Unlinks [] = inl refl
  unlink-Unlinks (c ∷ cs) = elim (Bool-cases (c.id == id)) [
    | inl here ↦
        let same : (c.id == c.id) ≡ true = (==_iff c.id c.id).1 refl in
        inr (
          c,
          cs,
          rw here,
          (==_iff c.id id).0 here,
          λ x h. (h.0, h.1),
          λ u. (u.1, u.0),
          λ n x h. rw same (h.0, h.1),
          λ n u. rw same (u.0, u.1),
        )
    | inr there ↦ elim (unlink-Unlinks cs) [
      | inl e ↦ inl (rw (there, e))
      | inr (b, rest, e, named, apart, unique, apart', unique') ↦
          let other : (c.id == b.id) ≡ false = ground (arith, there, named) in
          inr (
            b,
            c ∷ rest,
            rw (there, e),
            named,
            λ x h. ((apart x h.1).0, (h.0, (apart x h.1).1)),
            λ u.
                let (far, all) = apart c u.0 in
                ((all, (unique u.1).0), (Apart-sym c b far, (unique u.1).1)),
            λ n x h. rw other (h.0, apart' n x h.1),
            λ n u. rw other (apart' n c u.0, unique' n u.1),
          )
    ]
  ]

  -- brelse of a buffer of the cache, with its lock held, keeps a cache where no two buffers are of
  -- one block of a device other than 0. Without the lock brelse panics.
  brelse-Unique :
      (holding : Bool) (bs : List Buf)
      → Unique bs
      → unlink id bs ≢ none
      → ((holding ≡ true) × (bs' : List Buf) × (brelse holding id bs ≡ ok bs') × Unique bs')
        ⊎ ((holding ≡ false) × (brelse holding id bs ≡ panic))
  unfolding brelse
  brelse-Unique false bs u there = inr (refl, refl)
  brelse-Unique true bs u there = elim (unlink-Unlinks bs) [
    | inl e ↦ absurd (there e)
    | inr (b, rest, e, named, apart, unique, apart', unique') ↦
        let n = (b.refcnt + 2 ^ 32 - 1) % 2 ^ 32 in
        elim (Bool-cases (n == 0)) [
          | inl last ↦
              inl (refl, counted n b ∷ rest, ground (arith, e, last), ((unique u).1, (unique u).0))
          | inr more ↦ inl (refl, put_back (counted n b) bs, ground (arith, e, more), unique' n u)
        ]
  ]
