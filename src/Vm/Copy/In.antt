-- ===== src/Vm/Copy/In.antt =====
-- copyin of kernel/vm.c: which bytes it copies.
use native.Mathlib.Decide.{dec_lt}
use os_spring.Prelude.{
  ℕ, zero, suc, ◌+◌, ◌-◌, ◌/◌, ◌%◌, ◌^◌, ◌≤◌, ◌<◌, ◌≡◌, ◌≢◌, ◌⊎◌, inl, inr, refl, sym, subst, ap,
  ◌∙◌, true, false, ◌&&◌, some, arith, ltb, leb, ◌==◌, Bool-cases, if◌then◌else◌, ok,
}
use os_spring.Vm.{Pages, Vm, pgsize, pgrounddown, pte2pa, walk_round, walk, walkaddr}
use os_spring.Cstring.{Mem, memmove}
use os_spring.Cstring.Move.{memmove_lem, moved}
use os_spring.Vm.Copy.{copyin_from, copyin}

module _ (P : Pages) (root : ℕ) (page : ℕ → ℕ) where
  -- The physical address of a user's address, where page number n stands at `page n`.
  abbrev phys : ℕ → ℕ
  phys va = page (va / pgsize) + va % pgsize

  abbrev pub Backed : ℕ → ℕ → Vm P → Type 0
  Backed srcva len s =
      (i : ℕ)
      → i < len
      → walkaddr P root (pgrounddown (srcva + i)) s ≡ ok (some (page ((srcva + i) / pgsize)))

  -- The bytes from `dst` on are the user's, and no other byte has changed.
  abbrev pub Copied : ℕ → ℕ → ℕ → Mem → Mem → Type 0
  Copied dst srcva len mem mem' =
      ((j : ℕ) → j < len → mem' (dst + j) ≡ mem (phys (srcva + j)))
      × ((a : ℕ) → (a < dst) ⊎ (dst + len ≤ a) → mem' a ≡ mem a)

  walkaddr_mem :
      (va : ℕ) (mem : Mem) (s : Vm P)
      → walkaddr P root va (record s { mem = mem }) ≡ walkaddr P root va s
  unfolding walkaddr walk walk_round
  walkaddr_mem va mem s = elim (Bool-cases (s.table root (va / 2 ^ 30 % 512)).flags.v) [
    | inr n ↦ ground (arith, n)
    | inl v ↦
        elim (Bool-cases
          (s.table (pte2pa (s.table root (va / 2 ^ 30 % 512))) (va / 2 ^ 21 % 512)).flags.v) [
            | inr n ↦ ground (arith, v, n)
            | inl v' ↦ ground (arith, v, v')
          ]
  ]

  abbrev pub Apart : ℕ → ℕ → ℕ → Type 0
  Apart dst srcva len = (i j : ℕ) → i < len → j < len → phys (srcva + i) ≢ dst + j

  -- A round of the loop: n bytes up to the end of the page, or all that is left.
  module _ (k dst srcva len : ℕ) (s : Vm P) (some_left : (len == 0) ≡ false)
      (b : Backed srcva len s) (far : Apart dst srcva len) where
    n : ℕ
    n =
        if ltb len (pgsize - (srcva - pgrounddown srcva))
        then len
        else pgsize - (srcva - pgrounddown srcva)

    n_lem :
        (n ≤ len)
        × (n + srcva % pgsize ≤ pgsize)
        × (0 < n)
        × ((n ≡ len) ⊎ (n + srcva % pgsize ≡ pgsize))
    unfolding n
    n_lem = (ground arith, ground arith, ground arith, ground arith)

    mem₁ : Mem
    mem₁ = memmove dst (page (srcva / pgsize) + (srcva - pgrounddown srcva)) n s.mem

    mem₁_lem :
        (a : ℕ)
        → mem₁ a
          ≡ (if leb dst a && ltb a (dst + n) then s.mem (phys srcva + (a - dst)) else s.mem a)
    unfolding mem₁
    mem₁_lem a =
        memmove_lem dst (page (srcva / pgsize) + (srcva - pgrounddown srcva)) n s.mem a
        ∙ ap (λ (o : ℕ). moved dst (page (srcva / pgsize) + o) n s.mem a) (omega arith)

    next : ℕ
    next = pgrounddown srcva + pgsize

    next_lem : (i : ℕ) → i < len - n → next + i ≡ srcva + (n + i)
    unfolding next
    next_lem i h = omega (arith, n_lem)

    here : walkaddr P root (pgrounddown srcva) s ≡ ok (some (page (srcva / pgsize)))
    here =
        subst (λ (a : ℕ). walkaddr P root (pgrounddown a) s ≡ ok (some (page (a / pgsize))))
          (omega arith) (b 0 (ground (arith, some_left)))

    round :
        copyin_from P (suc k) root dst srcva len s
        ≡ copyin_from P k root (dst + n) next (len - n) (record s { mem = mem₁ })
    unfolding copyin_from n mem₁ next
    round = rw (some_left, here) refl

    backed₁ : Backed next (len - n) (record s { mem = mem₁ })
    backed₁ i h =
        walkaddr_mem (pgrounddown (next + i)) mem₁ s
        ∙ subst (λ (a : ℕ). walkaddr P root (pgrounddown a) s ≡ ok (some (page (a / pgsize))))
            (sym (next_lem i h)) (b (n + i) (omega (arith, n_lem)))

    apart₁ : Apart (dst + n) next (len - n)
    apart₁ i j h h' e =
        far (n + i) (n + j) (omega (arith, n_lem)) (omega (arith, n_lem))
          (ap phys (sym (next_lem i h)) ∙ e ∙ omega arith)

    same_page : (j : ℕ) → j < n → phys (srcva + j) ≡ phys srcva + j
    same_page j h =
        let same : (srcva + j) / pgsize ≡ srcva / pgsize = omega (arith, n_lem) in
        ap (λ (x : ℕ). page x + (srcva + j) % pgsize) same ∙ omega (arith, n_lem)

    kept_apart :
        (j : ℕ)
        → j < len
        → let a = phys (srcva + j) in
          (if leb dst a && ltb a (dst + n) then s.mem (phys srcva + (a - dst)) else s.mem a)
          ≡ s.mem a
    kept_apart j h =
        let a = phys (srcva + j) in
        elim (Bool-cases (leb dst a && ltb a (dst + n))) [
          | inl inside ↦
              let within : (dst ≤ a) × (a < dst + n) = ground (arith, inside) in
              absurd (far j (a - dst) h (omega (arith, within, n_lem)) (omega (arith, within)))
          | inr outside ↦ rw outside refl
        ]

    copied₁ :
        (mem' : Mem) → Copied (dst + n) next (len - n) mem₁ mem' → Copied dst srcva len s.mem mem'
    copied₁ mem' (got, kept) = (
      λ j h. elim (dec_lt j n) [
        | yes early ↦
            kept (dst + j) (inl (omega arith))
            ∙ mem₁_lem (dst + j)
            ∙ ground (arith, same_page j early)
        | no late ↦
            let i = j - n in
            let to : next + i ≡ srcva + j = next_lem i (omega arith) ∙ omega arith in
            ap mem' (omega arith)
            ∙ got i (omega arith)
            ∙ mem₁_lem (phys (next + i))
            ∙ ap
                (λ (a : ℕ).
                  if leb dst (phys a) && ltb (phys a) (dst + n)
                  then s.mem (phys srcva + (phys a - dst))
                  else s.mem (phys a))
                to
            ∙ kept_apart j h
      ],
      λ a h. kept a (omega (arith, h, n_lem)) ∙ mem₁_lem a ∙ ground (arith, h, n_lem),
    )

  copyin_from-Copied :
      (k dst srcva len : ℕ) (s : Vm P)
      → len < k
      → Backed srcva len s
      → Apart dst srcva len
      → (mem' : Mem) × (copyin_from P k root dst srcva len s ≡ ok (true, mem'))
        × Copied dst srcva len s.mem mem'
  unfolding copyin_from
  copyin_from-Copied zero dst srcva len s h b far = absurd (omega arith)
  copyin_from-Copied (suc k) dst srcva len s h b far = elim (Bool-cases (len == 0)) [
    | inl none_left ↦
        (s.mem, rw none_left refl, ((λ j hj. absurd (ground (arith, none_left))), λ a ha. refl))
    | inr some_left ↦
        let (mem', e, c) =
          copyin_from-Copied k (dst + n k dst srcva len s some_left b far)
            (next k dst srcva len s some_left b far) (len - n k dst srcva len s some_left b far)
            (record s { mem = mem₁ k dst srcva len s some_left b far })
            (omega (arith, n_lem k dst srcva len s some_left b far))
            (backed₁ k dst srcva len s some_left b far)
            (apart₁ k dst srcva len s some_left b far) in
        (
          mem',
          round k dst srcva len s some_left b far ∙ e,
          copied₁ k dst srcva len s some_left b far mem' c,
        )
  ]

  -- copyin of bytes that are all mapped for the user, to an area that none of them stands in: it
  -- ends with 0, the bytes have been copied in order, and no other byte has changed.
  pub copyin-Copied :
      (dst srcva len : ℕ) (s : Vm P)
      → Backed srcva len s
      → Apart dst srcva len
      → (mem' : Mem) × (copyin P root dst srcva len s ≡ ok (true, mem'))
        × Copied dst srcva len s.mem mem'
  unfolding copyin
  copyin-Copied dst srcva len s b far =
      copyin_from-Copied (suc len) dst srcva len s (omega arith) b far
