-- ===== src/Log/Absorb.antt =====
-- log_write of kernel/log.c absorbs a block that is logged already, and pins each logged block once.
use native.Mathlib.Decide.{ℕ_discrete, dec_lt}
use os_spring.Prelude.{
  ℕ, zero, suc, ◌+◌, ◌%◌, ◌^◌, ◌≤◌, ◌<◌, ◌≡◌, ◌≢◌, ◌⊎◌, inl, inr, refl, sym, subst, ap, arith, ok,
}
use os_spring.Log.{Log, write, bpin, logsize, find_block, log_write}

-- The search of log_write: the first index from `i` that holds the block, or the end.
record Found (k i : ℕ) (block : ℕ → ℕ) (b r : ℕ) : Type 0 where
  from : i ≤ r
  upto : r ≤ i + k
  hit : r < i + k → block r ≡ b
  first : (j : ℕ) → i ≤ j → j < r → block j ≢ b

find_block-Found : (k i : ℕ) (block : ℕ → ℕ) (b : ℕ) → Found k i block b (find_block k i block b)
unfolding find_block
find_block-Found zero i block b = record {
  from = omega arith;
  upto = omega arith;
  hit = λ h. absurd (omega arith);
  first = λ j h h'. absurd (omega arith);
}
find_block-Found (suc k) i block b = elim (ℕ_discrete (block i) b) [
  | yes e ↦
      let here : find_block (suc k) i block b ≡ i = ground arith in
      subst (Found (suc k) i block b) (sym here) (record {
        from = omega arith;
        upto = omega arith;
        hit = λ h. e;
        first = λ j h h'. absurd (omega arith);
      })
  | no ne ↦
      let rest = find_block-Found k (i + 1) block b in
      let there : find_block (suc k) i block b ≡ find_block k (i + 1) block b = ground arith in
      subst (Found (suc k) i block b) (sym there) (record {
        from = omega (arith, rest.from);
        upto = omega (arith, rest.upto);
        hit = λ h. rest.hit (omega arith);
        first = λ j h h'. elim (ℕ_discrete i j) [
          | yes e ↦ subst (λ x. block x ≢ b) e ne
          | no far ↦ rest.first j (omega arith) h'
        ];
      })
]

-- The logged blocks are distinct.
abbrev Distinct : Log → Type 0
Distinct s = (i j : ℕ) → i < s.n → j < s.n → s.block i ≡ s.block j → i ≡ j

abbrev Logged : ℕ → Log → Type 0
Logged b s = (i : ℕ) × (i < s.n) × (s.block i ≡ b)

-- What log_write makes of the log: `b` is logged, with everything that was and nothing else, and
-- it is pinned once more and takes a new place only if it was not logged.
pub record Absorbs (b : ℕ) (s s' : Log) : Type 0 where
  pub logged : Logged b s'
  pub keeps : (c : ℕ) → Logged c s → Logged c s'
  pub adds : (c : ℕ) → Logged c s' → Logged c s ⊎ (c ≡ b)
  pub distinct : Distinct s → Distinct s'
  pub place :
      (Logged b s × (s'.n ≡ s.n) × (s'.pins ≡ s.pins))
      ⊎ (¬ Logged b s × (s'.n ≡ s.n + 1) × (s'.pins ≡ write s.pins b ((s.pins b + 1) % 2 ^ 32)))
  pub same_view : (s'.view ≡ s.view) × (s'.disk ≡ s.disk) × (s'.outstanding ≡ s.outstanding)

module _ (b : ℕ) (s : Log) where
  at_place : Log
  at_place = record s { block = write s.block (find_block s.n 0 s.block b) b }

  absorbed : find_block s.n 0 s.block b < s.n → Absorbs b s at_place
  unfolding at_place
  absorbed h = record {
    logged = (r, h, ground arith);
    keeps = λ c l. (l.0, l.1, ground (arith, l.2, hit, ap s.block));
    adds = λ c l. elim (ℕ_discrete r l.0) [
      | yes e ↦ inr (ground (arith, l.2))
      | no ne ↦ inl (l.0, l.1, ground (arith, l.2))
    ];
    distinct = λ d i j hi hj e. d i j hi hj (ground (arith, e, hit, ap s.block));
    place = inl ((r, h, hit), refl, refl);
    same_view = (refl, refl, refl);
  }
    where
      r : ℕ
      r = find_block s.n 0 s.block b

      hit : s.block r ≡ b
      hit = (find_block-Found s.n 0 s.block b).hit (omega arith)

  appended :
      find_block s.n 0 s.block b ≡ s.n → Absorbs b s (bpin b (record at_place { n = s.n + 1 }))
  unfolding at_place
  appended e = record {
    logged = (s.n, omega arith, ground arith);
    keeps = λ c l. (l.0, omega (arith, l.1), ground (arith, l.1, l.2));
    adds = λ c l. elim (ℕ_discrete s.n l.0) [
      | yes e' ↦ inr (ground (arith, l.2))
      | no ne ↦ inl (l.0, omega (arith, l.1), ground (arith, l.2))
    ];
    distinct = λ d i j hi hj e'. elim (dec_lt i s.n) [
      | yes li ↦ elim (dec_lt j s.n) [
        | yes lj ↦ d i j li lj (ground arith)
        | no nj ↦ absurd (absent i li (ground arith))
      ]
      | no ni ↦ elim (dec_lt j s.n) [
        | yes lj ↦ absurd (absent j lj (ground arith))
        | no nj ↦ omega arith
      ]
    ];
    place = inr (λ l. absent l.0 l.1 l.2, refl, refl);
    same_view = (refl, refl, refl);
  }
    where
      absent : (j : ℕ) → j < s.n → s.block j ≢ b
      absent j h = (find_block-Found s.n 0 s.block b).first j (omega arith) (omega arith)

  -- Inside an operation and with room in the log, log_write records the block.
  pub log_write-Absorbs :
      0 < s.outstanding
      → s.n < logsize
      → s.n + 1 < s.size
      → (s' : Log) × (log_write b s ≡ ok s') × Absorbs b s s'
  unfolding log_write at_place
  log_write-Absorbs h h' h'' = elim (ℕ_discrete (find_block s.n 0 s.block b) s.n) [
    | yes e ↦ (_, ground arith, appended e)
    | no ne ↦ (_, ground arith, absorbed (omega (arith, (find_block-Found s.n 0 s.block b).upto)))
  ]
