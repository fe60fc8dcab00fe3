-- ===== src/Sysfile/Rw.antt =====
-- kernel/sysfile.c: sys_read, sys_write and sys_fstat over kernel/file.c. `n` is the pattern of an int.
use os_spring.Prelude.{ℕ, Bool, Option, none, some, get_elem?, ℤ, negsuc, Outcome, ok, fault}
use os_spring.Cstring.{Mem}
use os_spring.Fd.{Ofile, argfd}
use os_spring.File.Io.{World, Io, answers, fileread, filewrite, filestat}
use os_spring.Fs.{Superblock}
use os_spring.Fs.Itable.{Stat}

-- The parameters are those of File.Io.
module _ (copyout : ℕ → (ℕ → ℕ) → ℕ → Mem → Bool × Mem)
    (copyin : ℕ → ℕ → ℕ → Mem → (ℕ → ℕ) → Bool × (ℕ → ℕ)) (takes : ℕ → Bool)
    (byte_at : ℕ → Option ℕ) (sb : Superblock) (me pid : ℕ) (killed : Bool) (lock_at : ℕ → ℕ)
    (D : Type 0) (dev_read dev_write : ℕ → Option (ℕ → ℕ → D → ℤ × D)) where
  sys_read : ℤ → ℕ → ℕ → Ofile → World D → Outcome (Io × World D)
  sys_read fd p n ofile w = elim (argfd fd ofile) [
    | none ↦ ok (answers (negsuc 0), w)
    | some (_, i) ↦ elim (get_elem? w.files i) [
      | none ↦ fault
      | some f ↦
          fileread copyout copyin takes byte_at sb me pid killed lock_at D dev_read dev_write i f p
            n w
    ]
  ]

  sys_write : ℤ → ℕ → ℕ → Ofile → World D → Outcome (Io × World D)
  sys_write fd p n ofile w = elim (argfd fd ofile) [
    | none ↦ ok (answers (negsuc 0), w)
    | some (_, i) ↦ elim (get_elem? w.files i) [
      | none ↦ fault
      | some f ↦
          filewrite copyout copyin takes byte_at sb me pid killed lock_at D dev_read dev_write i f p
            n w
    ]
  ]

  -- As filestat, up to its copyout.
  sys_fstat : ℤ → Ofile → World D → Outcome (Option (Option Stat × World D))
  sys_fstat fd ofile w = elim (argfd fd ofile) [
    | none ↦ ok (some (none, w))
    | some (_, i) ↦ elim (get_elem? w.files i) [
      | none ↦ fault
      | some f ↦
          filestat copyout copyin takes byte_at sb me pid killed lock_at D dev_read dev_write f w
    ]
  ]
