-- ===== src/Exec.antt =====
-- kernel/exec.c, with proc_pagetable and proc_freepagetable of kernel/proc.c, over Vm and Fs. The file and
-- program headers are read to local memory at 0; argv[] is the list of the addresses of its strings.
-- The image of the process is what exec sets in p->pagetable, p->sz and the trapframe. A call that
-- sleeps on the lock of an inode ends there.
pub mod Stack
pub mod Load
use os_spring.Prelude.{
  ℕ, zero, suc, ◌+◌, ◌-◌, ◌*◌, ◌/◌, ◌%◌, ◌^◌, ◌≤◌, ◌<◌, ◌≡◌, ◌≢◌, ◌⊎◌, ◌↔◌, inl, inr, refl, sym,
  subst, ap, ◌∙◌, fun_ext, List, [], ◌∷◌, ◌++◌, map, Bool, true, false, not, ◌&&◌, ◌||◌, Option,
  none, some, some-injective, arith, All, All-map, length, get_elem?, get_or, set, take, drop,
  replicate, length-append, length-set, get_or-set_self, get_elem?-set_self, get_elem?-set_ne,
  get_or-set_ne, ℤ, pos, negsuc, sub_ℕ, sub_ℕ-eq_zero, ltb, leb, ◌==◌, ==_iff, Bool-cases,
  Option-cases, if◌then◌else◌, Outcome, ok, panic, fault, no_fuel, ◌>>=◌,
}
use os_spring.Vm.{Pages, Vm, Flags, no_flags, pgsize, maxva, mappages, uvmunmap}
use os_spring.Vm.User.{uvmcreate, uvmfree}

-- TRAMPOLINE and TRAPFRAME of kernel/memlayout.h
abbrev trampoline_va : ℕ
trampoline_va = maxva - pgsize

abbrev trapframe_va : ℕ
trapframe_va = trampoline_va - pgsize

-- PTE_R | PTE_X and PTE_R | PTE_W
abbrev read_exec : Flags
read_exec = record no_flags { r = true; x = true }

abbrev read_write : Flags
read_write = record no_flags { r = true; w = true }

module _ (P : Pages) (trampoline : ℕ) where
  -- Its page-table argument is `root`, the frame p->trapframe; none is the source's 0.
  pub proc_pagetable : ℕ → Vm P → Outcome (Option ℕ × Vm P)
  proc_pagetable trapframe s =
      let created = uvmcreate P s in
      elim created.0 [
        | none ↦ ok (none, created.1)
        | some root ↦
            mappages P root trampoline_va pgsize trampoline read_exec created.1 >>= λ (one, s₁).
            elim one [
              | false ↦ uvmfree P root 0 s₁ >>= λ s₂. ok (none, s₂)
              | true ↦ mappages P root trapframe_va pgsize trapframe read_write s₁ >>= λ (two, s₂).
                  elim two [
                    | true ↦ ok (some root, s₂)
                    | false ↦ uvmunmap P root trampoline_va 1 false s₂ >>= λ s₃.
                        uvmfree P root 0 s₃ >>= λ s₄. ok (none, s₄)
                  ]
            ]
      ]

  pub proc_freepagetable : ℕ → ℕ → Vm P → Outcome (Vm P)
  proc_freepagetable root sz s = uvmunmap P root trampoline_va 1 false s >>= λ s₁.
      uvmunmap P root trapframe_va 1 false s₁ >>= uvmfree P root sz

abbrev pte_x : ℕ → Bool
pte_x flags = flags % 2 == 1

abbrev pte_w : ℕ → Bool
pte_w flags = flags / 2 % 2 == 1

pub flags2perm : ℕ → Flags
flags2perm flags = record no_flags { x = pte_x flags; w = pte_w flags }

-- `n` bytes from `a` on, as a number, the low one first
pub word_at : ℕ → ℕ → (ℕ → ℕ) → ℕ
word_at zero a mem = 0
word_at (suc n) a mem = mem a + 256 * word_at n (a + 1) mem
