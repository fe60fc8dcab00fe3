-- ===== src/Kalloc/Report.antt =====
-- calculate_free_ram of kernel/kalloc.c, which sysinfo reports.
use os_spring.Prelude.{
  ℕ, ◌+◌, ◌*◌, ◌≡◌, ◌⊎◌, inl, inr, refl, List, [], ◌∷◌, arith, length, ok, fault,
}
use os_spring.Kalloc.{Kmem, pgsize, free_bytes_from, calculate_free_ram}

free_bytes_lem : (page : ℕ) (ps : List ℕ) → free_bytes_from page ps ≡ pgsize * length ps
unfolding free_bytes_from
free_bytes_lem page [] = omega arith
free_bytes_lem page (p ∷ ps) = omega (arith, free_bytes_lem p ps)

-- calculate_free_ram reports one page less than there is free memory, and faults on a null pointer
-- exactly when no page is free.
calculate_free_ram_lem :
    (k : Kmem)
    → ((k.freelist ≡ []) × (calculate_free_ram k ≡ fault))
      ⊎ ((n : ℕ) × (calculate_free_ram k ≡ ok n) × (n + pgsize ≡ pgsize * length k.freelist))
unfolding calculate_free_ram
calculate_free_ram_lem k = go k.freelist k.ref k.mem
  where
    go :
        (l : List ℕ) (ref mem : ℕ → ℕ)
        → let k : Kmem = record { freelist = l; ref = ref; mem = mem } in
          ((l ≡ []) × (calculate_free_ram k ≡ fault))
          ⊎ ((n : ℕ) × (calculate_free_ram k ≡ ok n) × (n + pgsize ≡ pgsize * length l))
    go [] ref mem = inl (refl, refl)
    go (p ∷ ps) ref mem = inr (free_bytes_from p ps, refl, omega (arith, free_bytes_lem p ps))
