-- ===== src/Sysfile/Create.antt =====
-- kernel/sysfile.c: create, sys_mkdir, sys_mknod and sys_chdir.
use os_spring.Prelude.{
  ℕ, ◌%◌, ◌^◌, List, [], ◌∷◌, Bool, true, false, not, ◌&&◌, ◌||◌, Option, none, some, get_elem?, ℤ,
  pos, negsuc, ◌==◌, if◌then◌else◌, Outcome, ok, fault, ◌>>=◌,
}
use os_spring.Cstring.{Mem}
use os_spring.Fs.{Superblock, Inode, Fs}
use os_spring.Fs.Itable.{ialloc, iunlock, iput, iunlockput}
use os_spring.Fs.Dir.{Walk, at_inode, no_inode, dirlookup, dirlink, namei, nameiparent, t_dir}
use os_spring.Sysfile.{Answer, answered, asleep, inc16, with_lock, put_and, write_copy}

-- T_FILE and T_DEVICE of kernel/stat.h
abbrev pub t_file : ℕ
t_file = 2

abbrev pub t_device : ℕ
t_device = 3

module _ (copyout : ℕ → (ℕ → ℕ) → ℕ → Mem → Bool × Mem)
    (copyin : ℕ → ℕ → ℕ → Mem → (ℕ → ℕ) → Bool × (ℕ → ℕ)) (sb : Superblock) (me pid : ℕ)
    (lock_at : ℕ → ℕ) where
  -- create from `fail` on
  create_failed : ℕ → ℕ → Fs → Outcome (Answer (Option ℕ) × Fs)
  create_failed d i fs = elim (get_elem? fs.itable i) [
    | none ↦ fault
    | some ip ↦
        iunlockput sb me pid lock_at i (write_copy sb i ip (record (ip.copy) { nlink = 0 }) fs)
        >>= put_and sb me pid lock_at none d
  ]

  -- The entries "." and ".." of a new directory; whether both were made.
  add_dots : ℕ → ℕ → ℕ → ℕ → Fs → Outcome (Bool × Fs)
  add_dots i inum parent type fs =
      if not (type == t_dir)
      then ok (true, fs)
      else dirlink copyout copyin sb me pid lock_at i (46 ∷ []) inum fs >>= λ (one, fs₁).
          if not one
          then ok (false, fs₁)
          else dirlink copyout copyin sb me pid lock_at i (46 ∷ 46 ∷ []) parent fs₁

  -- create with the new inode locked
  fill_new : ℕ → List ℕ → ℕ → ℕ → ℕ → ℕ → Inode → Fs → Outcome (Answer (Option ℕ) × Fs)
  unfolding create_failed add_dots
  fill_new d name i type major minor ip fs = elim (get_elem? fs.itable d) [
    | none ↦ fault
    | some dp ↦
        add_dots i ip.inum dp.inum type
          (write_copy sb i ip (record (ip.copy) { major = major; minor = minor; nlink = 1 }) fs)
        >>= λ (dots, fs₁).
            if not dots
            then create_failed d i fs₁
            else dirlink copyout copyin sb me pid lock_at d name ip.inum fs₁ >>= λ (linked, fs₂).
                elim (get_elem? fs₂.itable d) [
                  | none ↦ fault
                  | some dp' ↦
                      let fs₃ =
                        if type == t_dir
                        then write_copy sb d dp'
                            (record (dp'.copy) { nlink = inc16 dp'.copy.nlink }) fs₂
                        else fs₂ in
                      if not linked
                      then create_failed d i fs₂
                      else put_and sb me pid lock_at (some i) d fs₃
                ]
  ]

  -- The inode is locked; none is the source's 0.
  pub create : List ℕ → ℕ → ℕ → ℕ → ℕ → Fs → Outcome (Answer (Option ℕ) × Fs)
  unfolding fill_new
  create path type major minor cwd fs =
      nameiparent copyout copyin sb me pid lock_at path cwd fs >>= λ (found, fs₁). elim found [
        | Walk.asleep ↦ ok (asleep, fs₁)
        | no_inode ↦ ok (answered none, fs₁)
        | at_inode d name ↦ with_lock sb me pid lock_at d fs₁ λ dp fs₂.
            dirlookup copyout copyin sb d name fs₂ >>= λ (entry, fs₃). elim entry [
              | some (_, i) ↦ iunlockput sb me pid lock_at d fs₃ >>= λ fs₄.
                  with_lock sb me pid lock_at i fs₄ λ ip fs₅.
                    if type == t_file && (ip.copy.type == t_file || ip.copy.type == t_device)
                    then ok (answered (some i), fs₅)
                    else put_and sb me pid lock_at none i fs₅
              | none ↦ ialloc sb dp.dev type fs₃ >>= λ (new, fs₄). elim new [
                | none ↦ put_and sb me pid lock_at none d fs₄
                | some i ↦ with_lock sb me pid lock_at i fs₄ (fill_new d name i type major minor)
              ]
            ]
      ]

  -- sys_mkdir and sys_mknod; a path that argstr did not fetch is none.
  make : Option (List ℕ) → ℕ → ℕ → ℕ → ℕ → Fs → Outcome (Answer ℤ × Fs)
  unfolding create
  make none type major minor cwd fs = ok (answered (negsuc 0), fs)
  make (some path) type major minor cwd fs = create path type major minor cwd fs >>= λ (made, fs').
      elim made [
        | asleep ↦ ok (asleep, fs')
        | answered none ↦ ok (answered (negsuc 0), fs')
        | answered (some i) ↦ put_and sb me pid lock_at (pos 0) i fs'
      ]

  sys_mkdir : Option (List ℕ) → ℕ → Fs → Outcome (Answer ℤ × Fs)
  unfolding make
  sys_mkdir path cwd fs = make path t_dir 0 0 cwd fs

  -- The arguments are ints, the fields shorts.
  sys_mknod : Option (List ℕ) → ℕ → ℕ → ℕ → Fs → Outcome (Answer ℤ × Fs)
  unfolding make
  sys_mknod path major minor cwd fs = make path t_device (major % 2 ^ 16) (minor % 2 ^ 16) cwd fs

  -- The answer, p->cwd and the file system.
  sys_chdir : Option (List ℕ) → ℕ → Fs → Outcome (Answer (ℤ × ℕ) × Fs)
  sys_chdir none cwd fs = ok (answered (negsuc 0, cwd), fs)
  sys_chdir (some path) cwd fs =
      namei copyout copyin sb me pid lock_at path cwd fs >>= λ (found, fs₁). elim found [
        | Walk.asleep ↦ ok (asleep, fs₁)
        | no_inode ↦ ok (answered (negsuc 0, cwd), fs₁)
        | at_inode i _ ↦ with_lock sb me pid lock_at i fs₁ λ ip fs₂.
            if not (ip.copy.type == t_dir)
            then put_and sb me pid lock_at (negsuc 0, cwd) i fs₂
            else iunlock sb me pid lock_at i fs₂ >>= λ fs₃.
                iput sb me pid lock_at cwd fs₃ >>= λ fs₄. ok (answered (pos 0, i), fs₄)
      ]
