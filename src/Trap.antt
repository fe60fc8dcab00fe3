-- ===== src/Trap.antt =====
-- kernel/trap.c: traps from user code, device interrupts and the clock; the copy of a page that a store
-- to a copy-on-write page asks for. The registers that a trap reads are arguments.
pub mod Cow
pub mod Leak
pub mod Ticks
mod Tests
use os_spring.Prelude.{
  ℕ, zero, suc, ◌+◌, ◌-◌, ◌*◌, ◌/◌, ◌%◌, ◌^◌, ◌≤◌, ◌<◌, ◌≡◌, ◌≢◌, ◌⊎◌, ◌↔◌, inl, inr, refl, sym,
  subst, ap, ◌∙◌, fun_ext, List, [], ◌∷◌, ◌++◌, map, Bool, true, false, not, ◌&&◌, ◌||◌, Option,
  none, some, some-injective, arith, All, All-map, length, get_elem?, get_or, set, take, drop,
  replicate, length-append, length-set, get_or-set_self, get_elem?-set_self, get_elem?-set_ne,
  get_or-set_ne, ℤ, pos, negsuc, sub_ℕ, sub_ℕ-eq_zero, ltb, leb, ◌==◌, ==_iff, Bool-cases,
  Option-cases, if◌then◌else◌, Outcome, ok, panic, fault, no_fuel, ◌>>=◌,
}
use os_spring.Cstring.{memmove}
use os_spring.Proc.{Table, at_object, tick, wakeup, update_pinfo}
use os_spring.Vm.{Pages, Vm, Flags, no_pte, pte2pa, pgsize, pgrounddown, set_pte, walk, mappages}

-- r_sstatus() & SSTATUS_SPP, r_scause(), r_stval() and r_sepc()
record Regs : Type 0 where
  pub spp : Bool
  pub scause : ℕ
  pub stval : ℕ
  pub sepc : ℕ

-- How usertrap ends: it does not return, or it gives up the processor first, or it does not.
data End : Type 0 where
  exits yields resumes : End

-- What devintr calls.
data Service : Type 0 where
  uartintr : Service
  virtio_disk_intr : Service
  unexpected : ℕ → Service
  plic_complete : ℕ → Service

-- ticks, and the process table that the clock looks at
pub record Clock : Type 0 where
  pub ticks : ℕ
  pub procs : Table

-- The flags of the page that a process gets for itself.
abbrev pub own_flags : Flags → Flags
own_flags f = record f { w = true; cow = false }

module _ (P : Pages) where
  open P use {kalloc, inckref, deckref}

  -- What of `struct proc` a trap uses: p->trapframe->epc, p->killed and p's memory.
  record Task : Type 0 where
    pub epc : ℕ
    pub killed : Bool
    pub vm : Vm P

  -- The copy of a page, for the entry `i` of the page-table page `pt`; true sets p->killed. kalloc's
  -- answer is used unchecked: with no page free, memmove writes through a null pointer.
  pub copy_page : ℕ → ℕ → ℕ → ℕ → Vm P → Outcome (Bool × Vm P)
  copy_page pagetable start_va pt i s =
      let e = s.table pt i in
      let (page, pages) = kalloc s.pages in
      elim page [
        | none ↦ fault
        | some mem ↦
            mappages P pagetable start_va pgsize mem (own_flags e.flags) (
              set_pte P pt i no_pte (record s {
                pages = deckref (pte2pa e) pages;
                mem = memmove mem (pte2pa e) pgsize s.mem;
              }))
            >>= λ (done, s'). ok (not done, record s' { pages = inckref mem s'.pages })
      ]

  -- The branch of usertrap for a store page fault. The answer of walk is used unchecked.
  pub store_fault : ℕ → ℕ → Vm P → Outcome (Bool × Vm P)
  unfolding copy_page
  store_fault pagetable stval s =
      let start_va = pgrounddown stval in
      walk P pagetable start_va false s >>= λ (found, s'). elim found [
        | none ↦ fault
        | some (pt, i) ↦
            let f = (s'.table pt i).flags in
            if f.v && (f.u && f.cow) then copy_page pagetable start_va pt i s' else ok (false, s')
      ]

  -- The end of usertrap.
  end_trap : ℕ → Task → Outcome (End × Task)
  end_trap which_dev t =
      if t.killed then ok (exits, t) else if which_dev == 2 then ok (yields, t) else ok (resumes, t)

  -- usertrap, with `syscall` for the system call and `which_dev` the answer of devintr.
  usertrap : (Task → Outcome Task) → ℕ → ℕ → Regs → Task → Outcome (End × Task)
  unfolding end_trap store_fault
  usertrap syscall which_dev pagetable r t =
      let t' = record t { epc = r.sepc } in
      if r.spp
      then panic
      else if r.scause == 8
      then (if t.killed
          then ok (exits, t')
          else (syscall (record t' { epc = (r.sepc + 4) % 2 ^ 64 }) >>= end_trap 0))
      else if r.scause == 15
      then (store_fault pagetable r.stval t.vm >>= λ (hit, vm).
          end_trap 0 (record t' { killed = t.killed || hit; vm = vm }))
      else if not (which_dev == 0)
      then end_trap which_dev t'
      else end_trap 0 (record t' { killed = true })

-- kerneltrap: true where it gives up the processor; `running` is whether this processor runs a process.
kerneltrap : Bool → Bool → ℕ → Bool → Outcome Bool
kerneltrap spp interrupts_on which_dev running =
    if not spp
    then panic
    else if interrupts_on
    then panic
    else if which_dev == 0
    then panic
    else ok ((which_dev == 2) && running)

-- clockintr; `ticks_at` is the address of ticks, `me` is myproc().
module _ (me : Option ℕ) (ticks_at : ℕ) where
  pub clockintr : Clock → Clock
  clockintr c = record {
    ticks = tick c.ticks;
    procs = wakeup me (at_object ticks_at) (update_pinfo c.procs);
  }

  -- devintr: its answer, what it calls and the clock. `irq` is plic_claim()'s answer, `cpu` cpuid()'s.
  devintr : ℕ → ℕ → ℕ → Clock → ℕ × List Service × Clock
  devintr scause irq cpu c =
      let service =
        if irq == 10
        then uartintr ∷ []
        else if irq == 1
        then virtio_disk_intr ∷ []
        else if not (irq == 0)
        then unexpected irq ∷ []
        else [] in
      let complete = if not (irq == 0) then plic_complete irq ∷ [] else [] in
      if leb (2 ^ 63) scause && (scause % 256 == 9)
      then (1, service ++ complete, c)
      else if scause == 2 ^ 63 + 1
      then (2, [], if cpu == 0 then clockintr c else c)
      else (0, [], c)
