-- ===== src/Cstring/Compare.antt =====
-- strncmp and memcmp of kernel/string.c: when they answer 0.
use native.Mathlib.Decide.{ℕ_discrete}
use os_spring.Prelude.{ℕ, zero, suc, ◌+◌, ◌<◌, ◌≡◌, ◌≢◌, ◌↔◌, refl, sym, subst, ap, ◌∙◌, arith, pos}
use os_spring.Cstring.{Mem, memcmp, strncmp}

-- The first n bytes agree, as far as the string at p goes.
abbrev SameString : ℕ → ℕ → ℕ → Mem → Type 0
SameString p q n mem =
    (i : ℕ) → i < n → ((j : ℕ) → j < i → mem (p + j) ≢ 0) → mem (p + i) ≡ mem (q + i)

-- The bytes after the first.
tail : (mem : Mem) (p i : ℕ) → mem (p + 1 + i) ≡ mem (p + suc i)
tail mem p i = ap mem (omega arith)

head : (mem : Mem) (p : ℕ) → mem (p + 0) ≡ mem p
head mem p = ap mem (omega arith)

module _ (n p q : ℕ) (mem : Mem)
    (ih : (memcmp (p + 1) (q + 1) n mem ≡ pos 0)
      ↔ ((i : ℕ) → i < n → mem (p + 1 + i) ≡ mem (q + 1 + i))) where
  memcmp_to : memcmp p q (suc n) mem ≡ pos 0 → (i : ℕ) → i < suc n → mem (p + i) ≡ mem (q + i)
  unfolding memcmp
  memcmp_to e zero h = ground (arith, head mem p, head mem q)
  memcmp_to e (suc i) h = sym (tail mem p i) ∙ ih.0 (ground arith) i (omega arith) ∙ tail mem q i

  memcmp_from : ((i : ℕ) → i < suc n → mem (p + i) ≡ mem (q + i)) → memcmp p q (suc n) mem ≡ pos 0
  unfolding memcmp
  memcmp_from f = ground (
    arith,
    f 0 (omega arith),
    head mem p,
    head mem q,
    ih.1 (λ i h. tail mem p i ∙ f (suc i) (omega arith) ∙ sym (tail mem q i)),
  )

-- memcmp answers 0 exactly when the two areas of n bytes are equal.
memcmp-eq_zero :
    (n p q : ℕ) (mem : Mem)
    → (memcmp p q n mem ≡ pos 0) ↔ ((i : ℕ) → i < n → mem (p + i) ≡ mem (q + i))
unfolding memcmp
memcmp-eq_zero zero p q mem = (λ e i h. absurd (omega arith), λ h. refl)
memcmp-eq_zero (suc n) p q mem =
    let ih = memcmp-eq_zero n (p + 1) (q + 1) mem in
    (memcmp_to n p q mem ih, memcmp_from n p q mem ih)

module _ (n p q : ℕ) (mem : Mem)
    (ih : (strncmp (p + 1) (q + 1) n mem ≡ pos 0) ↔ SameString (p + 1) (q + 1) n mem) where
  strncmp_to : strncmp p q (suc n) mem ≡ pos 0 → SameString p q (suc n) mem
  unfolding strncmp
  strncmp_to e zero h f = ground (arith, head mem p, head mem q)
  strncmp_to e (suc i) h f =
      sym (tail mem p i)
      ∙ ih.0 (ground (arith, f 0 (omega arith), head mem p)) i (omega arith)
          (λ j hj. subst (λ x. x ≢ 0) (sym (tail mem p j)) (f (suc j) (omega arith)))
      ∙ tail mem q i

  strncmp_rest : SameString p q (suc n) mem → mem p ≢ 0 → SameString (p + 1) (q + 1) n mem
  unfolding strncmp
  strncmp_rest f ne i h g =
      tail mem p i
      ∙ f (suc i) (omega arith) (elim [
        | zero ↦ λ hj. subst (λ x. x ≢ 0) (sym (head mem p)) ne
        | suc j ↦ λ hj. subst (λ x. x ≢ 0) (tail mem p j) (g j (omega arith))
      ])
      ∙ sym (tail mem q i)

  strncmp_first : SameString p q (suc n) mem → mem p ≡ mem q
  unfolding strncmp
  strncmp_first f = sym (head mem p) ∙ f 0 (omega arith) (λ j hj. absurd (omega arith)) ∙ head mem q

  strncmp_from : SameString p q (suc n) mem → strncmp p q (suc n) mem ≡ pos 0
  unfolding strncmp
  strncmp_from f = elim (ℕ_discrete (mem p) 0) [
    | yes e ↦ ground (arith, strncmp_first f)
    | no ne ↦ ground (arith, strncmp_first f, ih.1 (strncmp_rest f ne))
  ]

-- strncmp answers 0 exactly when the two strings have the same first n bytes, where a string ends
-- at its first 0 byte.
strncmp-eq_zero : (n p q : ℕ) (mem : Mem) → (strncmp p q n mem ≡ pos 0) ↔ SameString p q n mem
unfolding strncmp
strncmp-eq_zero zero p q mem = (λ e i h f. absurd (omega arith), λ h. refl)
strncmp-eq_zero (suc n) p q mem =
    let ih = strncmp-eq_zero n (p + 1) (q + 1) mem in
    (strncmp_to n p q mem ih, strncmp_from n p q mem ih)
