-- ===== src/Fs/Dir.antt =====
-- kernel/fs.c: directories and the walk along a path. A directory entry is 16 bytes, the inode number
-- (two bytes, the low one first) and 14 bytes of name. The functions keep it and the name in local
-- memory: the entry at 0, the name at 16.
use os_spring.Prelude.{
  ℕ, zero, suc, ◌+◌, ◌-◌, ◌*◌, ◌/◌, ◌%◌, List, [], Bool, true, false, not, ◌&&◌, Option, none, some,
  length, get_elem?, get_or, ℤ, pos, negsuc, ltb, ◌==◌, if◌then◌else◌, Outcome, ok, panic, fault,
  no_fuel, ◌>>=◌,
}
use os_spring.Cstring.{Mem, strncmp, strncpy}
use os_spring.Fs.{Superblock, Inode, Fs}
use os_spring.Fs.Itable.{put_inode, idup, iget, ilock, iunlock, iput, iunlockput}
use os_spring.Fs.Content.{readi, writei}
use os_spring.Fs.Path.{slash, dirsiz, skipelem}

-- T_DIR of kernel/stat.h
abbrev pub t_dir : ℕ
t_dir = 1

pub namecmp : ℕ → ℕ → Mem → ℤ
namecmp s t mem = strncmp s t dirsiz mem

-- The local memory with the name in it.
abbrev pub with_name : List ℕ → Mem
with_name name a = if ltb a 16 then 0 else get_or name (a - 16) 0

abbrev pub de_inum : Mem → ℕ
de_inum mem = mem 0 + 256 * mem 1

abbrev pub equals : ℤ → ℕ → Bool
equals (pos a) n = a == n
equals (negsuc a) n = false

module _ (copyout : ℕ → (ℕ → ℕ) → ℕ → Mem → Bool × Mem)
    (copyin : ℕ → ℕ → ℕ → Mem → (ℕ → ℕ) → Bool × (ℕ → ℕ)) (sb : Superblock) where
  -- The loop of dirlookup from offset `off` on: the offset and the inode number of the entry.
  dirlookup_from : ℕ → ℕ → Inode → Mem → Fs → Outcome (Option (ℕ × ℕ) × Inode × Fs)
  unfolding namecmp
  dirlookup_from zero off dp mem fs = ok (none, dp, fs)
  dirlookup_from (suc k) off dp mem fs =
      if not (ltb off dp.copy.size)
      then ok (none, dp, fs)
      else readi copyout copyin sb dp false 0 off 16 mem fs >>= λ (r, dp', mem', fs').
          let next = dirlookup_from k (off + 16) dp' mem' fs' in
          if not (equals r 16)
          then panic
          else if de_inum mem' == 0
          then next
          else if equals (namecmp 16 2 mem') 0
          then ok (some (off, de_inum mem'), dp', fs')
          else next

  -- The offset of the entry and its inode, or none for 0.
  pub dirlookup : ℕ → List ℕ → Fs → Outcome (Option (ℕ × ℕ) × Fs)
  dirlookup i name fs = elim (get_elem? fs.itable i) [
    | none ↦ fault
    | some dp ↦
        if not (dp.copy.type == t_dir)
        then panic
        else dirlookup_from (suc (dp.copy.size / 16)) 0 dp (with_name name) fs
          >>= λ (found, dp', fs').
              let fs₁ = put_inode i dp' fs' in
              elim found [
                | none ↦ ok (none, fs₁)
                | some (off, inum) ↦ iget dp'.dev inum fs₁ >>= λ (ip, fs₂). ok (some (off, ip), fs₂)
              ]
  ]

  -- The loop of dirlink: the offset of a free entry, or the end.
  free_entry : ℕ → ℕ → Inode → Mem → Fs → Outcome (ℕ × Inode × Fs)
  free_entry zero off dp mem fs = ok (off, dp, fs)
  free_entry (suc k) off dp mem fs =
      if not (ltb off dp.copy.size)
      then ok (off, dp, fs)
      else readi copyout copyin sb dp false 0 off 16 mem fs >>= λ (r, dp', mem', fs').
          let next = free_entry k (off + 16) dp' mem' fs' in
          if not (equals r 16)
          then panic
          else if de_inum mem' == 0
          then ok (off, dp', fs')
          else next

  -- de.inum = inum; a ushort
  abbrev put_inum : ℕ → Mem → Mem
  put_inum inum mem a = if a == 0 then inum % 256 else if a == 1 then inum / 256 % 256 else mem a

  module _ (me pid : ℕ) (lock_at : ℕ → ℕ) where
    -- true is the source's 0, false its -1.
    pub dirlink : ℕ → List ℕ → ℕ → Fs → Outcome (Bool × Fs)
    unfolding free_entry
    dirlink i name inum fs = dirlookup i name fs >>= λ (found, fs₁). elim found [
      | some (off, ip) ↦ iput sb me pid lock_at ip fs₁ >>= λ fs₂. ok (false, fs₂)
      | none ↦ elim (get_elem? fs₁.itable i) [
        | none ↦ fault
        | some dp ↦
            free_entry (suc (dp.copy.size / 16)) 0 dp (with_name name) fs₁ >>= λ (off, dp', fs₂).
            writei copyout copyin sb dp' false 0 off 16
              (put_inum inum (strncpy 2 16 dirsiz (with_name name))) fs₂
            >>= λ (r, dp'', fs₃). ok (equals r 16, put_inode i dp'' fs₃)
      ]
    ]

    -- What a walk along a path ends with: an inode and the last name, 0, or a sleep on an inode's lock.
    pub data Walk : Type 0 where
      at_inode : ℕ → List ℕ → Walk
      no_inode : Walk
      asleep : Walk

    -- The loop of namex, on fuel. `parent` is nameiparent, `name` what the array holds.
    pub namex_from : ℕ → Bool → ℕ → List ℕ → List ℕ → Fs → Outcome (Walk × Fs)
    namex_from zero parent ip path name fs = no_fuel
    namex_from (suc k) parent ip path name fs = elim (skipelem path) [
      | none ↦
          if parent
          then (iput sb me pid lock_at ip fs >>= λ fs'. ok (no_inode, fs'))
          else ok (at_inode ip name, fs)
      | some (name', path') ↦ ilock sb me pid lock_at ip fs >>= λ locked. elim locked [
        | none ↦ ok (asleep, fs)
        | some fs₁ ↦ elim (get_elem? fs₁.itable ip) [
          | none ↦ fault
          | some dp ↦
              if not (dp.copy.type == t_dir)
              then (iunlockput sb me pid lock_at ip fs₁ >>= λ fs₂. ok (no_inode, fs₂))
              else if parent && length path' == 0
              then (iunlock sb me pid lock_at ip fs₁ >>= λ fs₂. ok (at_inode ip name', fs₂))
              else dirlookup ip name' fs₁ >>= λ (found, fs₂).
                  iunlockput sb me pid lock_at ip fs₂ >>= λ fs₃. elim found [
                    | none ↦ ok (no_inode, fs₃)
                    | some (off, next) ↦ namex_from k parent next path' name' fs₃
                  ]
        ]
      ]
    ]

    -- ROOTDEV and ROOTINO are 1. `cwd` is myproc()->cwd.
    pub namex : List ℕ → Bool → ℕ → Fs → Outcome (Walk × Fs)
    namex path parent cwd fs =
        (if get_or path 0 0 == slash then iget 1 1 fs else idup cwd fs) >>= λ (ip, fs').
        namex_from (suc (length path)) parent ip path [] fs'

    pub namei : List ℕ → ℕ → Fs → Outcome (Walk × Fs)
    namei path cwd fs = namex path false cwd fs

    pub nameiparent : List ℕ → ℕ → Fs → Outcome (Walk × Fs)
    nameiparent path cwd fs = namex path true cwd fs
