-- ===== src/File/Io.antt =====
-- kernel/file.c: filestat, fileread and filewrite, over the pipes, the inodes and the device switch. `n` is the
-- pattern of an int. A call runs to its end or to the next sleep; begin_op and end_op are Log's.
use os_spring.Prelude.{
  ℕ, zero, suc, ◌+◌, ◌-◌, ◌%◌, ◌^◌, List, Bool, true, not, ◌&&◌, Option, none, some, length,
  get_elem?, get_or, set, ℤ, pos, negsuc, ltb, leb, ◌==◌, if◌then◌else◌, Outcome, ok, panic, fault,
  no_fuel, ◌>>=◌,
}
use os_spring.Cstring.{Mem}
use os_spring.File.{File, fd_none, fd_pipe, fd_inode, fd_device}
use os_spring.Fs.{Superblock, Fs}
use os_spring.Fs.Itable.{Stat, stati, put_inode, ilock, iunlock}
use os_spring.Fs.Content.{readi, writei}
use os_spring.Pipe.{Pipe, Ended, returns, fails, piperead, pipewrite}

-- What the calls change: the pipes and inodes, user memory, and the state `D` of the devices.
pub record World (D : Type 0) : Type 0 where
  pub files : List File
  pub pipes : ℕ → Pipe
  pub fs : Fs
  pub mem : Mem
  pub devices : D

-- The answer of a call, or a sleep with a times done so far.
pub data Io : Type 0 where
  answers : ℤ → Io
  sleeps : ℕ → Io

abbrev ndev : ℕ
ndev = 10

-- `n` as the bound of a loop over an int
abbrev times : ℕ → ℕ
times n = if leb (2 ^ 31) n then 0 else n

abbrev pub store {ℓ} : {A : Type ℓ} → (ℕ → A) → ℕ → A → ℕ → A
store f i a j = if i == j then a else f j

-- The bytes `bs` at `addr` on.
abbrev put_list : ℕ → List ℕ → Mem → Mem
put_list addr bs mem a =
    if leb addr a && ltb a (addr + length bs) then get_or bs (a - addr) 0 else mem a

abbrev io_of : Ended → Io
io_of (returns k) = answers (pos k)
io_of fails = answers (negsuc 0)
io_of (Ended.sleeps k) = sleeps k

-- copyout and copyin of kernel/vm.c, as in Fs.Content, and for a byte as in Pipe; the process that runs
-- and whether it is killed; the addresses of the inodes' locks; devsw[], none for a null function.
module _ (copyout : ℕ → (ℕ → ℕ) → ℕ → Mem → Bool × Mem)
    (copyin : ℕ → ℕ → ℕ → Mem → (ℕ → ℕ) → Bool × (ℕ → ℕ)) (takes : ℕ → Bool)
    (byte_at : ℕ → Option ℕ) (sb : Superblock) (me pid : ℕ) (killed : Bool) (lock_at : ℕ → ℕ)
    (D : Type 0) (dev_read dev_write : ℕ → Option (ℕ → ℕ → D → ℤ × D)) where
  -- filestat up to its copyout: the struct stat, or none for -1; none where it sleeps.
  pub filestat : File → World D → Outcome (Option (Option Stat × World D))
  filestat f w =
      let stat : Outcome (Option (Option Stat × World D)) =
        ilock sb me pid lock_at f.ip w.fs >>= λ locked. elim locked [
          | none ↦ ok none
          | some fs ↦ elim (get_elem? fs.itable f.ip) [
            | none ↦ fault
            | some ip ↦ iunlock sb me pid lock_at f.ip fs >>= λ fs'.
                ok (some (some (stati ip), record w { fs = fs' }))
          ]
        ] in
      let bad : Outcome (Option (Option Stat × World D)) = ok (some (none, w)) in
      elim f.type [ fd_inode ↦ stat | fd_device ↦ stat | fd_pipe ↦ bad | fd_none ↦ bad ]

  -- f->off += r, for the file `i`; and the inode's new copy and lock
  abbrev pub moved : ℕ → File → ℕ → List File → List File
  moved i f r files = set files i (record f { off = (f.off + r) % 2 ^ 32 })

  read_inode : ℕ → File → ℕ → ℕ → World D → Outcome (Io × World D)
  read_inode i f addr n w = ilock sb me pid lock_at f.ip w.fs >>= λ locked. elim locked [
    | none ↦ ok (sleeps 0, w)
    | some fs ↦ elim (get_elem? fs.itable f.ip) [
      | none ↦ fault
      | some ip ↦ readi copyout copyin sb ip true addr f.off n w.mem fs >>= λ (r, ip', mem, fs').
          iunlock sb me pid lock_at f.ip (put_inode f.ip ip' fs') >>= λ fs''.
          let w' = record w { mem = mem; fs = fs'' } in
          elim r [
            | pos k ↦ ok (answers (pos k), record w' { files = moved i f k w.files })
            | negsuc k ↦ ok (answers (negsuc k), w')
          ]
    ]
  ]

  pub fileread : ℕ → File → ℕ → ℕ → World D → Outcome (Io × World D)
  unfolding read_inode
  fileread i f addr n w =
      let from_pipe : Io × World D =
        let (r, out, p) = piperead takes killed addr (times n) (w.pipes f.pipe) in
        (io_of r, record w { pipes = store w.pipes f.pipe p; mem = put_list addr out w.mem }) in
      let from_device : Io × World D =
        if leb ndev f.major then (answers (negsuc 0), w) else elim (dev_read f.major) [
          | none ↦ (answers (negsuc 0), w)
          | some read ↦ let (r, d) = read addr n w.devices in (answers r, record w { devices = d })
        ] in
      if not f.readable then ok (answers (negsuc 0), w) else elim f.type [
        | fd_pipe ↦ ok from_pipe
        | fd_device ↦ ok from_device
        | fd_inode ↦ read_inode i f addr n w
        | fd_none ↦ panic
      ]

  -- ((MAXOPBLOCKS-1-1-2) / 2) * BSIZE
  abbrev max_bytes : ℕ
  max_bytes = 3072

  -- One round of the loop of filewrite: r, or none where ilock sleeps.
  write_some : ℕ → File → ℕ → ℕ → World D → Outcome (Option ℤ × File × World D)
  write_some i f addr n₁ w = ilock sb me pid lock_at f.ip w.fs >>= λ locked. elim locked [
    | none ↦ ok (none, f, w)
    | some fs ↦ elim (get_elem? fs.itable f.ip) [
      | none ↦ fault
      | some ip ↦ writei copyout copyin sb ip true addr f.off n₁ w.mem fs >>= λ (r, ip', fs').
          iunlock sb me pid lock_at f.ip (put_inode f.ip ip' fs') >>= λ fs''.
          let w' = record w { fs = fs'' } in
          elim r [
            | pos k ↦
                let f' = record f { off = (f.off + k) % 2 ^ 32 } in
                ok (some (pos k), f', record w' { files = set w.files i f' })
            | negsuc k ↦ ok (some (negsuc k), f, w')
          ]
    ]
  ]

  -- The loop of filewrite from byte `j` on, with fuel: a round that goes on has written a byte at least.
  filewrite_from : ℕ → ℕ → File → ℕ → ℕ → ℕ → World D → Outcome (Io × World D)
  unfolding write_some
  filewrite_from zero i f addr n j w = no_fuel
  filewrite_from (suc fuel) i f addr n j w =
      let n₁ = if ltb max_bytes (n - j) then max_bytes else n - j in
      if not (ltb j n)
      then ok (answers (pos n), w)
      else write_some i f (addr + j) n₁ w >>= λ (r, f', w'). elim r [
        | none ↦ ok (sleeps j, w')
        | some (negsuc k) ↦ ok (answers (negsuc 0), w')
        | some (pos k) ↦
            let rest = filewrite_from fuel i f' addr n (j + k) w' in
            if not (k == n₁) then ok (answers (negsuc 0), w') else rest
      ]

  pub filewrite : ℕ → File → ℕ → ℕ → World D → Outcome (Io × World D)
  filewrite i f addr n w =
      let to_pipe : Io × World D =
        let (r, p) = pipewrite byte_at killed addr 0 (times n) (w.pipes f.pipe) in
        (io_of r, record w { pipes = store w.pipes f.pipe p }) in
      let to_device : Io × World D =
        if leb ndev f.major then (answers (negsuc 0), w) else elim (dev_write f.major) [
          | none ↦ (answers (negsuc 0), w)
          | some write ↦
              let (r, d) = write addr n w.devices in (answers r, record w { devices = d })
        ] in
      if not f.writable then ok (answers (negsuc 0), w) else elim f.type [
        | fd_pipe ↦ ok to_pipe
        | fd_device ↦ ok to_device
        | fd_inode ↦
            if leb (2 ^ 31) n
            then ok (answers (negsuc 0), w)
            else filewrite_from (suc n) i f addr n 0 w
        | fd_none ↦ panic
      ]
