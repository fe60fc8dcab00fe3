-- ===== src/Sysfile/Links.antt =====
-- kernel/sysfile.c: sys_link and sys_unlink.
use os_spring.Prelude.{
  ℕ, zero, suc, ◌+◌, ◌/◌, List, Bool, true, false, not, ◌||◌, none, some, get_elem?, ℤ, pos, negsuc,
  ltb, ◌==◌, if◌then◌else◌, Outcome, ok, panic, fault, ◌>>=◌,
}
use os_spring.Cstring.{Mem}
use os_spring.Fs.{Superblock, Inode, Fs}
use os_spring.Fs.Itable.{put_inode, iunlock, iput, iunlockput}
use os_spring.Fs.Content.{readi, writei}
use os_spring.Fs.Dir.{
  Walk, at_inode, no_inode, namecmp, with_name, de_inum, equals, dirlookup, dirlink, namei,
  nameiparent, t_dir,
}
use os_spring.Sysfile.{
  Answer, answered, asleep, below_one, inc16, dec16, with_lock, put_and, write_copy,
}

-- The name at 16, with a string of `k` dots at 0.
abbrev dots : ℕ → List ℕ → Mem
dots k name a = if ltb a k then 46 else with_name name a

module _ (copyout : ℕ → (ℕ → ℕ) → ℕ → Mem → Bool × Mem)
    (copyin : ℕ → ℕ → ℕ → Mem → (ℕ → ℕ) → Bool × (ℕ → ℕ)) (sb : Superblock) (me pid : ℕ)
    (lock_at : ℕ → ℕ) where
  -- The end of sys_link from `bad` on.
  undo_link : ℕ → Fs → Outcome (Answer ℤ × Fs)
  undo_link i fs = with_lock sb me pid lock_at i fs λ ip fs'.
      put_and sb me pid lock_at (negsuc 0) i
        (write_copy sb i ip (record (ip.copy) { nlink = dec16 ip.copy.nlink }) fs')

  -- sys_link once the inode has one link more: the entry in the new directory.
  add_link : ℕ → List ℕ → ℕ → Fs → Outcome (Answer ℤ × Fs)
  unfolding undo_link
  add_link i new cwd fs =
      nameiparent copyout copyin sb me pid lock_at new cwd fs >>= λ (found, fs₁). elim found [
        | Walk.asleep ↦ ok (asleep, fs₁)
        | no_inode ↦ undo_link i fs₁
        | at_inode dp name ↦ with_lock sb me pid lock_at dp fs₁ λ dir fs₂.
            elim (get_elem? fs₂.itable i) [
              | none ↦ fault
              | some ip ↦
                  let failed = λ (fs₃ : Fs). iunlockput sb me pid lock_at dp fs₃ >>= undo_link i in
                  if not (dir.dev == ip.dev)
                  then failed fs₂
                  else dirlink copyout copyin sb me pid lock_at dp name ip.inum fs₂
                    >>= λ (done, fs₃).
                        if not done
                        then failed fs₃
                        else iunlockput sb me pid lock_at dp fs₃ >>= λ fs₄.
                            iput sb me pid lock_at i fs₄ >>= λ fs₅. ok (answered (pos 0), fs₅)
            ]
      ]

  sys_link : List ℕ → List ℕ → ℕ → Fs → Outcome (Answer ℤ × Fs)
  unfolding add_link
  sys_link old new cwd fs = namei copyout copyin sb me pid lock_at old cwd fs >>= λ (found, fs₁).
      elim found [
        | Walk.asleep ↦ ok (asleep, fs₁)
        | no_inode ↦ ok (answered (negsuc 0), fs₁)
        | at_inode i _ ↦ with_lock sb me pid lock_at i fs₁ λ ip fs₂.
            if ip.copy.type == t_dir
            then put_and sb me pid lock_at (negsuc 0) i fs₂
            else iunlock sb me pid lock_at i
                (write_copy sb i ip (record (ip.copy) { nlink = inc16 ip.copy.nlink }) fs₂)
              >>= add_link i new cwd
      ]

  -- The loop of isdirempty from `off` on; the first argument is the rounds left.
  isdirempty_from : ℕ → ℕ → Inode → Fs → Outcome (Bool × Inode × Fs)
  isdirempty_from zero off dp fs = ok (true, dp, fs)
  isdirempty_from (suc k) off dp fs =
      if not (ltb off dp.copy.size)
      then ok (true, dp, fs)
      else readi copyout copyin sb dp false 0 off 16 (λ a. 0) fs >>= λ (r, dp', mem, fs').
          let rest = isdirempty_from k (off + 16) dp' fs' in
          if not (equals r 16)
          then panic
          else if not (de_inum mem == 0)
          then ok (false, dp', fs')
          else rest

  isdirempty : Inode → Fs → Outcome (Bool × Inode × Fs)
  isdirempty dp fs = isdirempty_from (suc (dp.copy.size / 16)) 32 dp fs

  -- The end of sys_unlink: the entry at `off` of the directory `d` is cleared, then `i` loses a link.
  remove_entry : ℕ → ℕ → ℕ → Fs → Outcome (Answer ℤ × Fs)
  remove_entry d off i fs = elim (get_elem? fs.itable d) [
    | none ↦ fault
    | some dp ↦ writei copyout copyin sb dp false 0 off 16 (λ a. 0) fs >>= λ (r, dp', fs₁).
        elim (get_elem? fs₁.itable i) [
          | none ↦ fault
          | some ip ↦
              let fs₂ =
                if ip.copy.type == t_dir
                then write_copy sb d dp' (record (dp'.copy) { nlink = dec16 dp'.copy.nlink }) fs₁
                else put_inode d dp' fs₁ in
              if not (equals r 16)
              then panic
              else iunlockput sb me pid lock_at d fs₂ >>= λ fs₃.
                  put_and sb me pid lock_at (pos 0) i
                    (write_copy sb i ip (record (ip.copy) { nlink = dec16 ip.copy.nlink }) fs₃)
        ]
  ]

  sys_unlink : List ℕ → ℕ → Fs → Outcome (Answer ℤ × Fs)
  unfolding isdirempty remove_entry
  sys_unlink path cwd fs =
      nameiparent copyout copyin sb me pid lock_at path cwd fs >>= λ (found, fs₁). elim found [
        | Walk.asleep ↦ ok (asleep, fs₁)
        | no_inode ↦ ok (answered (negsuc 0), fs₁)
        | at_inode d name ↦ with_lock sb me pid lock_at d fs₁ λ dir fs₂.
            let bad = put_and sb me pid lock_at (negsuc 0) d in
            if equals (namecmp 16 0 (dots 1 name)) 0 || equals (namecmp 16 0 (dots 2 name)) 0
            then bad fs₂
            else dirlookup copyout copyin sb d name fs₂ >>= λ (entry, fs₃). elim entry [
              | none ↦ bad fs₃
              | some (off, i) ↦ with_lock sb me pid lock_at i fs₃ λ ip fs₄.
                  if below_one ip.copy.nlink
                  then panic
                  else (if ip.copy.type == t_dir then isdirempty ip fs₄ else ok (true, ip, fs₄))
                    >>= λ (empty, ip', fs₅).
                        let fs₆ = put_inode i ip' fs₅ in
                        if not empty
                        then (iunlockput sb me pid lock_at i fs₆ >>= bad)
                        else remove_entry d off i fs₆
            ]
      ]
