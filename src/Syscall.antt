-- ===== src/Syscall.antt =====
-- kernel/syscall.c: the arguments of a system call and its dispatch. `regs` are the registers a0 to a5
-- and a7 of the trapframe, by their number.
pub mod Arguments
mod Tests
use os_spring.Prelude.{
  ℕ, zero, suc, ◌+◌, ◌-◌, ◌*◌, ◌/◌, ◌%◌, ◌^◌, ◌≤◌, ◌<◌, ◌≡◌, ◌≢◌, ◌⊎◌, ◌↔◌, inl, inr, refl, sym,
  subst, ap, ◌∙◌, fun_ext, List, [], ◌∷◌, ◌++◌, map, Bool, true, false, not, ◌&&◌, ◌||◌, Option,
  none, some, some-injective, arith, All, All-map, length, get_elem?, get_or, set, take, drop,
  replicate, length-append, length-set, get_or-set_self, get_elem?-set_self, get_elem?-set_ne,
  get_or-set_ne, ℤ, pos, negsuc, sub_ℕ, sub_ℕ-eq_zero, ltb, leb, ◌==◌, ==_iff, Bool-cases,
  Option-cases, if◌then◌else◌, Outcome, ok, panic, fault, no_fuel, ◌>>=◌,
}
use os_spring.Cstring.{Mem, strlen}
use os_spring.Vm.{Pages, Vm}
use os_spring.Vm.Copy.{copyin, copyinstr}

-- fetchaddr and fetchstr, for the process with page table `pagetable` and size `sz`; the answer is the
-- source's int and the memory.
module _ (P : Pages) (pagetable sz : ℕ) where
  pub fetchaddr : ℕ → ℕ → Vm P → Outcome (ℤ × Mem)
  fetchaddr addr ip s =
      if leb sz addr || ltb sz ((addr + 8) % 2 ^ 64)
      then ok (negsuc 0, s.mem)
      else copyin P pagetable ip addr 8 s >>= λ (done, mem).
          ok (if done then pos 0 else negsuc 0, mem)

  -- strlen runs over at most `max` bytes, since the string ends below.
  fetchstr : ℕ → ℕ → ℕ → Vm P → Outcome (ℤ × Mem)
  fetchstr addr buf max s = copyinstr P pagetable buf addr max s >>= λ (done, mem).
      if not done then ok (negsuc 0, mem) else (strlen max buf mem >>= λ n. ok (pos n, mem))

argraw : (ℕ → ℕ) → ℕ → Outcome ℕ
argraw regs n = if leb n 5 then ok (regs n) else panic

-- An int is 32 bits of a register.
argint : (ℕ → ℕ) → ℕ → Outcome ℕ
unfolding argraw
argint regs n = argraw regs n >>= λ x. ok (x % 2 ^ 32)

argaddr : (ℕ → ℕ) → ℕ → Outcome ℕ
unfolding argraw
argaddr regs n = argraw regs n

-- The functions of the table `syscalls`.
data Call : Type 0 where
  sys_fork sys_exit sys_wait sys_pipe sys_read sys_kill sys_exec sys_fstat sys_chdir sys_dup
        sys_getpid sys_sbrk sys_sleep sys_uptime :
      Call
  sys_open sys_write sys_mknod sys_unlink sys_link sys_mkdir sys_close sys_sysinfo sys_proctick
        sys_procinfo sys_change_scheduler sys_history :
      Call

-- The table from entry 1 on.
abbrev calls : List Call
calls =
    sys_fork
    ∷ (sys_exit
        ∷ (sys_wait
            ∷ (sys_pipe
                ∷ (sys_read
                    ∷ (sys_kill
                        ∷ (sys_exec
                            ∷ (sys_fstat
                                ∷ (sys_chdir
                                    ∷ (sys_dup
                                        ∷ (sys_getpid
                                            ∷ (sys_sbrk
                                                ∷ (sys_sleep
                                                    ∷ (sys_uptime
                                                        ∷ (sys_open
                                                            ∷ (sys_write
                                                            ∷ (sys_mknod
                                                            ∷ (sys_unlink
                                                            ∷ (sys_link
                                                            ∷ (sys_mkdir
                                                            ∷ (sys_close
                                                            ∷ (sys_sysinfo
                                                            ∷ (sys_proctick
                                                            ∷ (sys_procinfo
                                                            ∷ (sys_change_scheduler
                                                            ∷ (sys_history
                                                            ∷ [])))))))))))))))))))))))))

-- syscall, with `run` for the functions; `regs` 7 is a7. The answer is the new a0.
syscall : {W : Type 0} → (Call → W → ℕ × W) → (ℕ → ℕ) → W → ℕ × W
syscall {W = W} run regs w =
    let num = regs 7 % 2 ^ 32 in
    let unknown : ℕ × W = (2 ^ 64 - 1, w) in
    if ltb 0 num && ltb num 27
    then elim (get_elem? calls (num - 1)) [ none ↦ unknown | some c ↦ run c w ]
    else unknown

-- argstr, for the process with page table `pagetable`
argstr : (P : Pages) → ℕ → (ℕ → ℕ) → ℕ → ℕ → ℕ → Vm P → Outcome (ℤ × Mem)
unfolding argaddr fetchstr
argstr P pagetable regs n buf max s =
    argaddr regs n >>= λ addr. fetchstr P pagetable 0 addr buf max s
