-- ===== src/Sysfile.antt =====
-- kernel/sysfile.c: the system calls on names in the file system. The strings are those that argstr fetched
-- (Syscall); begin_op and end_op are Log's. A call runs to its end or to its first sleep on the lock of an
-- inode, and what it does after a sleep is left out.
pub mod Rw
pub mod Links
pub mod Create
pub mod Open
use os_spring.Prelude.{
  ℕ, zero, suc, ◌+◌, ◌-◌, ◌*◌, ◌/◌, ◌%◌, ◌^◌, ◌≤◌, ◌<◌, ◌≡◌, ◌≢◌, ◌⊎◌, ◌↔◌, inl, inr, refl, sym,
  subst, ap, ◌∙◌, fun_ext, List, [], ◌∷◌, ◌++◌, map, Bool, true, false, not, ◌&&◌, ◌||◌, Option,
  none, some, some-injective, arith, All, All-map, length, get_elem?, get_or, set, take, drop,
  replicate, length-append, length-set, get_or-set_self, get_elem?-set_self, get_elem?-set_ne,
  get_or-set_ne, ℤ, pos, negsuc, sub_ℕ, sub_ℕ-eq_zero, ltb, leb, ◌==◌, ==_iff, Bool-cases,
  Option-cases, if◌then◌else◌, Outcome, ok, panic, fault, no_fuel, ◌>>=◌,
}
use os_spring.Fs.{Superblock, Dinode, Inode, Fs}
use os_spring.Fs.Map.{iupdate}
use os_spring.Fs.Itable.{put_inode, ilock, iunlockput}

-- The answer of a call, or a sleep.
pub data Answer (A : Type 0) : Type 0 where
  answered : A → Answer A
  asleep : Answer A

-- A short that is less than 1.
abbrev pub below_one : ℕ → Bool
below_one n = n == 0 || leb (2 ^ 15) n

abbrev pub inc16 : ℕ → ℕ
inc16 n = (n + 1) % 2 ^ 16

abbrev pub dec16 : ℕ → ℕ
dec16 n = (n + 2 ^ 16 - 1) % 2 ^ 16

module _ (sb : Superblock) (me pid : ℕ) (lock_at : ℕ → ℕ) where
  -- ilock, and what follows with the inode; a null inode makes ilock panic.
  pub with_lock :
      {A : Type 0} → ℕ → Fs → (Inode → Fs → Outcome (Answer A × Fs)) → Outcome (Answer A × Fs)
  with_lock i fs then_do = ilock sb me pid lock_at i fs >>= λ locked. elim locked [
    | none ↦ ok (asleep, fs)
    | some fs' ↦ elim (get_elem? fs'.itable i) [ none ↦ fault | some ip ↦ then_do ip fs' ]
  ]

  -- iunlockput, and the end of a call
  pub put_and : {A : Type 0} → A → ℕ → Fs → Outcome (Answer A × Fs)
  put_and a i fs = iunlockput sb me pid lock_at i fs >>= λ fs'. ok (answered a, fs')

-- The fields of a locked inode written, and iupdate
pub write_copy : Superblock → ℕ → Inode → Dinode → Fs → Fs
write_copy sb i ip d fs = iupdate sb ip.inum d (put_inode i (record ip { copy = d }) fs)
