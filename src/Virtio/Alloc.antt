-- ===== src/Virtio/Alloc.antt =====
-- alloc3_desc of kernel/virtio_disk.c takes three descriptors or none.
use native.Mathlib.Decide.{ℕ_discrete}
use os_spring.Prelude.{
  ℕ, zero, suc, ◌+◌, ◌≤◌, ◌<◌, ◌≡◌, ◌≢◌, ◌⊎◌, inl, inr, refl, sym, ap, ◌∙◌, List, [], ◌∷◌, ◌++◌,
  true, false, Option, none, some, arith, Bool-cases, Outcome, ok, ◌>>=◌,
}
use os_spring.Virtio.{
  Disk, num, store, desc_freed, alloc_from, alloc_desc, free_desc, give_back, alloc3_from,
  alloc3_desc,
}

-- The disk with descriptor `i` marked in use.
abbrev pub take_desc : ℕ → Disk → Disk
take_desc i d = record d { free = store d.free i false }

abbrev NoneFree : Disk → Type 0
NoneFree d = (j : ℕ) → j < num → d.free j ≡ false

alloc_from_lem :
    (k i : ℕ) (d : Disk)
    → ((alloc_from k i d ≡ (none, d)) × ((j : ℕ) → i ≤ j → j < i + k → d.free j ≡ false))
      ⊎ ((j : ℕ) × (alloc_from k i d ≡ (some j, take_desc j d)) × (j < i + k) × (d.free j ≡ true))
unfolding alloc_from
alloc_from_lem zero i d = inl (refl, λ j h h'. absurd (omega arith))
alloc_from_lem (suc k) i d = elim (Bool-cases (d.free i)) [
  | inl free ↦ inr (i, rw free refl, omega arith, free)
  | inr used ↦ elim (alloc_from_lem k (i + 1) d) [
    | inl (e, full) ↦ inl (
      rw (used, e) refl,
      λ j h h'. elim (ℕ_discrete i j) [
        | yes same ↦ ap d.free (sym same) ∙ used
        | no ne ↦ full j (omega arith) (omega arith)
      ],
    )
    | inr (j, e, h, free) ↦ inr (j, rw (used, e) refl, omega (arith, h), free)
  ]
]

alloc_desc_lem :
    (d : Disk)
    → ((alloc_desc d ≡ (none, d)) × NoneFree d)
      ⊎ ((j : ℕ) × (alloc_desc d ≡ (some j, take_desc j d)) × (j < num) × (d.free j ≡ true))
unfolding alloc_desc
alloc_desc_lem d = elim (alloc_from_lem num 0 d) [
  | inl (e, full) ↦ inl (e, λ j h. full j (omega arith) (omega (arith, h)))
  | inr (j, e, h, free) ↦ inr (j, e, omega (arith, h), free)
]

-- Three descriptors that were free and are in use now.
pub record Taken (d : Disk) (i₀ i₁ i₂ : ℕ) (d' : Disk) : Type 0 where
  pub within : (i₀ < num) × (i₁ < num) × (i₂ < num)
  pub free : (d.free i₀ ≡ true) × (d.free i₁ ≡ true) × (d.free i₂ ≡ true)
  pub apart : (i₀ ≢ i₁) × (i₀ ≢ i₂) × (i₁ ≢ i₂)
  pub now : d' ≡ take_desc i₂ (take_desc i₁ (take_desc i₀ d))

-- The same descriptors are free, and those in use are as they were.
pub record SameFree (d d' : Disk) : Type 0 where
  pub same : (i : ℕ) → d'.free i ≡ d.free i
  pub kept : (i : ℕ) → d.free i ≡ false → d'.desc i ≡ d.desc i
  pub rings : (d'.ring ≡ d.ring) × (d'.avail_idx ≡ d.avail_idx) × (d'.owned ≡ d.owned)

-- Of three different descriptors one at least is in use.
abbrev pub FewFree : Disk → Type 0
FewFree d =
    (i j k : ℕ)
    → (i < num) × (j < num) × (k < num)
    → (i ≢ j) × (i ≢ k) × (j ≢ k)
    → (d.free i ≡ true) × (d.free j ≡ true) × (d.free k ≡ true)
    → ⊥

module _ (me : Option ℕ) (free_at : ℕ) (buf_at : ℕ → ℕ) where
  pub free_desc_used :
      (i : ℕ) (d : Disk)
      → i < num
      → d.free i ≡ false
      → free_desc me free_at buf_at i d ≡ ok (desc_freed me free_at buf_at i d)
  unfolding free_desc
  free_desc_used i d h used = ground (arith, h, used)

  -- What a round of alloc3_desc does with the answer of alloc_desc.
  abbrev after : ℕ → List ℕ → Option ℕ × Disk → Outcome (Option (List ℕ) × Disk)
  after k idx r = elim r.0 [
    | none ↦ give_back me free_at buf_at idx r.1 >>= λ d''. ok (none, d'')
    | some i ↦ alloc3_from me free_at buf_at k (idx ++ i ∷ []) r.1
  ]

  out_of_descriptors :
      (k : ℕ) (idx : List ℕ) (d d' : Disk)
      → alloc_desc d ≡ (none, d')
      → alloc3_from me free_at buf_at (suc k) idx d
        ≡ (give_back me free_at buf_at idx d' >>= λ d''. ok (none, d''))
  unfolding alloc3_from
  out_of_descriptors k idx d d' e = ap (after k idx) e

  one_more :
      (k i : ℕ) (idx : List ℕ) (d d' : Disk)
      → alloc_desc d ≡ (some i, d')
      → alloc3_from me free_at buf_at (suc k) idx d
        ≡ alloc3_from me free_at buf_at k (idx ++ i ∷ []) d'
  unfolding alloc3_from
  one_more k i idx d d' e = ap (after k idx) e

  -- alloc3_desc: it never panics. It takes three different free descriptors, or else, where there are
  -- not three, it leaves the free ones free, those in use as they were, and the requests alone.
  pub alloc3_desc_lem :
      (d : Disk)
      → ((i₀ i₁ i₂ : ℕ) × (d' : Disk) × (alloc3_desc me free_at buf_at d
            ≡ ok (some (i₀ ∷ i₁ ∷ i₂ ∷ []), d'))
          × Taken d i₀ i₁ i₂ d')
        ⊎ ((d' : Disk) × (alloc3_desc me free_at buf_at d ≡ ok (none, d'))
            × SameFree d d'
            × FewFree d)
  unfolding alloc3_desc alloc3_from give_back
  alloc3_desc_lem d = elim (alloc_desc_lem d) [
    | inl (e, full) ↦ inr (
      d,
      out_of_descriptors 2 [] d d e,
      record { same = λ i. refl; kept = λ i h. refl; rings = (refl, refl, refl) },
      λ i j k h ne f. cc (sym (full i h.0) ∙ f.0),
    )
    | inr (i₀, e₀, h₀, f₀) ↦
        let d₁ = take_desc i₀ d in
        elim (alloc_desc_lem d₁) [
          | inl (e₁, full) ↦ inr (
            desc_freed me free_at buf_at i₀ d₁,
            one_more 2 i₀ [] d d₁ e₀
                ∙ out_of_descriptors 1 (i₀ ∷ []) d₁ d₁ e₁
                ∙ rw (free_desc_used i₀ d₁ h₀ (ground arith)) refl,
            record {
              same = λ i. ground (arith, f₀);
              kept = λ i h. ground (arith, h, f₀);
              rings = (refl, refl, refl);
            },
            λ i j k h ne f. ground (arith, full i h.0, full j h.1, f, ne),
          )
          | inr (i₁, e₁, h₁, f₁) ↦
              let d₂ = take_desc i₁ d₁ in
              let ne₁ : i₀ ≢ i₁ = (λ same. ground (arith, f₁, same)) in
              let free₁ : d.free i₁ ≡ true = ground (arith, f₁, ne₁) in
              elim (alloc_desc_lem d₂) [
                | inl (e₂, full) ↦
                    let d₃ = desc_freed me free_at buf_at i₀ d₂ in
                    inr (
                      desc_freed me free_at buf_at i₁ d₃,
                      one_more 2 i₀ [] d d₁ e₀
                          ∙ one_more 1 i₁ (i₀ ∷ []) d₁ d₂ e₁
                          ∙ out_of_descriptors 0 (i₀ ∷ i₁ ∷ []) d₂ d₂ e₂
                          ∙ rw
                              (
                                free_desc_used i₀ d₂ h₀ (ground (arith, ne₁)),
                                free_desc_used i₁ d₃ h₁ (ground (arith, ne₁)),
                              )
                              refl,
                      record {
                        same = λ i. ground (arith, f₀, free₁);
                        kept = λ i h. ground (arith, h, f₀, free₁);
                        rings = (refl, refl, refl);
                      },
                      λ i j k h ne f. ground (arith, full i h.0, full j h.1, full k h.2, f, ne),
                    )
                | inr (i₂, e₂, h₂, f₂) ↦
                    let ne₂ : i₁ ≢ i₂ = (λ same. ground (arith, f₂, same)) in
                    let ne₃ : i₀ ≢ i₂ = (λ same. ground (arith, f₂, same)) in
                    inl (
                      i₀,
                      i₁,
                      i₂,
                      take_desc i₂ d₂,
                      one_more 2 i₀ [] d d₁ e₀
                          ∙ one_more 1 i₁ (i₀ ∷ []) d₁ d₂ e₁
                          ∙ one_more 0 i₂ (i₀ ∷ i₁ ∷ []) d₂ (take_desc i₂ d₂) e₂,
                      record {
                        within = (h₀, h₁, h₂);
                        free = (f₀, free₁, ground (arith, f₂, ne₂, ne₃));
                        apart = (ne₁, ne₃, ne₂);
                        now = refl;
                      },
                    )
              ]
        ]
  ]
