-- ===== src/Sysfile/Open.antt =====
-- kernel/sysfile.c: sys_open. fileclose of the file that could not be filled_file is part of it.
use os_spring.Prelude.{
  ℕ, ◌/◌, ◌%◌, List, ◌∷◌, Bool, not, ◌&&◌, ◌||◌, Option, none, some, get_elem?, set, ℤ, pos, negsuc,
  leb, ◌==◌, if◌then◌else◌, Outcome, ok, fault, ◌>>=◌,
}
use os_spring.Cstring.{Mem}
use os_spring.Fd.{Ofile, fdalloc}
use os_spring.File.{File, fd_inode, fd_device, Closing, filealloc, fileclose}
use os_spring.Fs.{Superblock, Inode, Fs}
use os_spring.Fs.Map.{itrunc}
use os_spring.Fs.Itable.{put_inode, iunlock}
use os_spring.Fs.Dir.{Walk, at_inode, no_inode, namei, t_dir}
use os_spring.Sysfile.{Answer, answered, asleep, with_lock, put_and}
use os_spring.Sysfile.Create.{create, t_file, t_device}

-- O_WRONLY, O_RDWR, O_CREATE and O_TRUNC of kernel/fcntl.h in the word `omode`
abbrev wronly : ℕ → Bool
wronly omode = omode % 2 == 1

abbrev rdwr : ℕ → Bool
rdwr omode = omode / 2 % 2 == 1

abbrev creates : ℕ → Bool
creates omode = omode / 512 % 2 == 1

abbrev truncates : ℕ → Bool
truncates omode = omode / 1024 % 2 == 1

-- The open files of the process, the table of files, and what fileclose goes on to do.
record Opens : Type 0 where
  pub ofile : Ofile
  pub files : List File
  pub todo : List Closing

-- The file entry that sys_open fills for the inode `i`.
filled_file : ℕ → ℕ → Inode → File → File
filled_file omode i ip f =
    let f' =
      if ip.copy.type == t_device
      then record f { type = fd_device; major = ip.copy.major }
      else record f { type = fd_inode; off = 0 } in
    record f' { ip = i; readable = not (wronly omode); writable = wronly omode || rdwr omode }

-- filealloc and fdalloc: the descriptor and its file, or none once the file was closed again.
new_fd : Opens → Outcome (Option (ℕ × ℕ) × Opens)
new_fd o =
    let (file, files) = filealloc o.files in
    elim file [
      | none ↦ ok (none, record o { files = files })
      | some f ↦
          let (fd, ofile) = fdalloc f o.ofile in
          elim fd [
            | some n ↦ ok (some (n, f), record o { ofile = ofile; files = files })
            | none ↦ fileclose f files >>= λ (todo, files').
                ok (none, record o { files = files'; todo = todo ∷ o.todo })
          ]
    ]

module _ (copyout : ℕ → (ℕ → ℕ) → ℕ → Mem → Bool × Mem)
    (copyin : ℕ → ℕ → ℕ → Mem → (ℕ → ℕ) → Bool × (ℕ → ℕ)) (sb : Superblock) (me pid : ℕ)
    (lock_at : ℕ → ℕ) where
  -- sys_open with the inode `i` locked
  open_inode : ℕ → ℕ → Opens → Inode → Fs → Outcome (Answer (ℤ × Opens) × Fs)
  unfolding filled_file new_fd
  open_inode omode i o ip fs =
      if ip.copy.type == t_device && leb 10 ip.copy.major
      then put_and sb me pid lock_at (negsuc 0, o) i fs
      else new_fd o >>= λ (new, o'). elim new [
        | none ↦ put_and sb me pid lock_at (negsuc 0, o') i fs
        | some (fd, f) ↦ elim (get_elem? o'.files f) [
          | none ↦ fault
          | some file ↦
              (if truncates omode && ip.copy.type == t_file
                then itrunc sb ip.inum ip.copy fs
                else ok (ip.copy, fs))
              >>= λ (d, fs₁).
                  iunlock sb me pid lock_at i (put_inode i (record ip { copy = d }) fs₁) >>= λ fs₂.
                  ok (
                    answered (
                      pos fd,
                      record o' { files = set o'.files f (filled_file omode i ip file) },
                    ),
                    fs₂,
                  )
        ]
      ]

  -- A path that argstr did not fetch is none.
  sys_open : Option (List ℕ) → ℕ → ℕ → Opens → Fs → Outcome (Answer (ℤ × Opens) × Fs)
  unfolding open_inode
  sys_open none omode cwd o fs = ok (answered (negsuc 0, o), fs)
  sys_open (some path) omode cwd o fs =
      if creates omode
      then (create copyout copyin sb me pid lock_at path t_file 0 0 cwd fs >>= λ (made, fs₁).
          elim made [
            | asleep ↦ ok (asleep, fs₁)
            | answered none ↦ ok (answered (negsuc 0, o), fs₁)
            | answered (some i) ↦ elim (get_elem? fs₁.itable i) [
              | none ↦ fault
              | some ip ↦ open_inode omode i o ip fs₁
            ]
          ])
      else namei copyout copyin sb me pid lock_at path cwd fs >>= λ (found, fs₁). elim found [
        | Walk.asleep ↦ ok (asleep, fs₁)
        | no_inode ↦ ok (answered (negsuc 0, o), fs₁)
        | at_inode i _ ↦ with_lock sb me pid lock_at i fs₁ λ ip fs₂.
            if ip.copy.type == t_dir && not (omode == 0)
            then put_and sb me pid lock_at (negsuc 0, o) i fs₂
            else open_inode omode i o ip fs₂
      ]
