-- ===== src/File/Refs.antt =====
-- kernel/file.c: an open file is closed by as many calls of fileclose as there are references.
use os_spring.Prelude.{
  ℕ, zero, suc, ◌+◌, ◌-◌, ◌<◌, ◌≡◌, ◌≢◌, ◌⊎◌, inl, inr, refl, sym, ap, ◌∙◌, List, [], ◌∷◌, none,
  some, some-injective, arith, All, get_elem?, set, get_elem?-set_self, ltb, ◌==◌, Bool-cases, ok,
}
use os_spring.File.{File, filealloc, filedup, still_open, fileclose, Closing, closing, fd_none}

set-set : (t : List File) (i : ℕ) (f g : File) → set (set t i f) i g ≡ set t i g
set-set [] i f g = refl
set-set (x ∷ t) zero f g = refl
set-set (x ∷ t) (suc i) f g = ap (λ u. x ∷ u) (set-set t i f g)

set_same : (t : List File) (i : ℕ) (f : File) → get_elem? t i ≡ some f → set t i f ≡ t
set_same [] i f e = refl
set_same (x ∷ t) zero f e = ap (λ y. y ∷ t) (sym (some-injective x f e))
set_same (x ∷ t) (suc i) f e = ap (λ u. x ∷ u) (set_same t i f e)

fileclose_shared :
    (t : List File) (i : ℕ) (f : File)
    → get_elem? t i ≡ some f
    → 1 < f.ref
    → fileclose i t ≡ ok (still_open, set t i (record f { ref = f.ref - 1 }))
unfolding fileclose
fileclose_shared t i f e h = ground (arith, e, h)

-- A file that is referenced may be duplicated, and closing the duplicate closes nothing: the table
-- is as it was.
pub fileclose-filedup :
    (t : List File) (i : ℕ) (f : File)
    → get_elem? t i ≡ some f
    → 0 < f.ref
    → (t' : List File) × (filedup i t ≡ ok t') × (fileclose i t' ≡ ok (still_open, t))
unfolding filedup
fileclose-filedup t i f e h =
    let more = record f { ref = f.ref + 1 } in
    (
      set t i more,
      ground (arith, e, h),
      fileclose_shared (set t i more) i more (get_elem?-set_self t i f more e) (omega (arith, h))
          ∙ ap (λ (u : List File). ok (still_open, u))
              (set-set t i more (record f { ref = f.ref + 1 - 1 })
                ∙ ap (λ (r : ℕ). set t i (record f { ref = r })) (omega arith)
                ∙ set_same t i f e),
    )

-- filealloc answers an entry that was not referenced and gives it one reference, leaving every
-- other entry alone; it fails, changing nothing, only if every entry is referenced.
pub filealloc_lem :
    (t : List File)
    → ((i : ℕ) × (f : File) × (filealloc t ≡ (some i, set t i (record f { ref = 1 })))
        × (get_elem? t i ≡ some f)
        × (f.ref ≡ 0))
      ⊎ ((filealloc t ≡ (none, t)) × All (λ f. f.ref ≢ 0) t)
unfolding filealloc
filealloc_lem [] = inr (refl, tt)
filealloc_lem (f ∷ fs) = elim (Bool-cases (f.ref == 0)) [
  | inl free ↦ inl (0, f, rw free refl, refl, ground (arith, free))
  | inr used ↦ elim (filealloc_lem fs) [
    | inl (i, g, e, at, z) ↦ inl (suc i, g, rw (used, e) refl, at, z)
    | inr (e, all) ↦ inr (rw (used, e) refl, ((λ z. ground (arith, z, used)), all))
  ]
]

-- fileclose of a referenced file takes one reference away, and goes on to close the file with the last.
pub fileclose_lem :
    (t : List File) (i : ℕ) (f : File)
    → get_elem? t i ≡ some f
    → 0 < f.ref
    → (todo : Closing) × (f' : File) × (fileclose i t ≡ ok (todo, set t i f'))
      × (f'.ref + 1 ≡ f.ref)
      × (0 < f'.ref → todo ≡ still_open)
      × (f'.ref ≡ 0 → todo ≡ closing f)
unfolding fileclose
fileclose_lem t i f e h = elim (Bool-cases (ltb 0 (f.ref - 1))) [
  | inl more ↦ (
    still_open,
    record f { ref = f.ref - 1 },
    ground (arith, e, h, more),
    omega (arith, h),
    λ _. refl,
    λ z. absurd (ground (arith, more, z)),
  )
  | inr last ↦ (
    closing f,
    record f { ref = 0; type = fd_none },
    ground (arith, e, h, last),
    ground (arith, h, last),
    λ z. absurd (omega (arith, z)),
    λ _. refl,
  )
]

pub filedup_lem :
    (t : List File) (i : ℕ) (f : File)
    → get_elem? t i ≡ some f
    → 0 < f.ref
    → filedup i t ≡ ok (set t i (record f { ref = f.ref + 1 }))
unfolding filedup
filedup_lem t i f e h = ground (arith, e, h)
