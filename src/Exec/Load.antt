-- ===== src/Exec/Load.antt =====
-- kernel/exec.c: loadseg and exec.
use os_spring.Prelude.{
  ℕ, zero, suc, ◌+◌, ◌-◌, ◌*◌, ◌/◌, ◌%◌, ◌^◌, List, [], ◌∷◌, Bool, true, false, not, ◌||◌, Option,
  none, some, get_elem?, ℤ, ltb, ◌==◌, if◌then◌else◌, Outcome, ok, panic, fault, no_fuel, ◌>>=◌,
}
use os_spring.Cstring.{Mem}
use os_spring.Exec.{proc_pagetable, proc_freepagetable, flags2perm, word_at}
use os_spring.Exec.Stack.{push_args}
use os_spring.Fs.{Superblock, Inode, Fs}
use os_spring.Fs.Itable.{put_inode, ilock, iunlockput}
use os_spring.Fs.Content.{readi}
use os_spring.Fs.Dir.{Walk, at_inode, no_inode, equals, namei}
use os_spring.Fs.Path.{slash}
use os_spring.Sysfile.{Answer, answered, asleep}
use os_spring.Vm.{Pages, Vm, Flags, no_flags, pgsize, pgroundup, walkaddr}
use os_spring.Vm.User.{uvmalloc, uvmclear}

-- What exec sets in the process: argc is its answer, `name` what `last` points to.
record Image : Type 0 where
  pub argc : ℕ
  pub pagetable : ℕ
  pub sz : ℕ
  pub epc : ℕ
  pub sp : ℕ
  pub name : List ℕ

-- for(last=s=path; *s; s++) if(*s == '/') last = s+1;
abbrev last_name : List ℕ → List ℕ → List ℕ
last_name last [] = last
last_name last (c ∷ s) = last_name (if c == slash then s else last) s

-- PTE_W
abbrev writable_page : Flags
writable_page = record no_flags { w = true }

module _ (P : Pages) (trampoline : ℕ) (copyout : ℕ → (ℕ → ℕ) → ℕ → Mem → Bool × Mem)
    (copyin : ℕ → ℕ → ℕ → Mem → (ℕ → ℕ) → Bool × (ℕ → ℕ)) (sb : Superblock) (me pid : ℕ)
    (lock_at : ℕ → ℕ) (ustack_at : ℕ) where
  -- The file system with the inode that is locked, and the memory.
  record Loading : Type 0 where
    ip : Inode
    fs : Fs
    vm : Vm P

  -- readi to kernel memory; the bytes are read to local memory, from address 0 on.
  read_header : ℕ → ℕ → Loading → Outcome (ℤ × Mem × Loading)
  read_header off n l =
      readi copyout copyin sb l.ip false 0 off n (λ a. 0) l.fs >>= λ (r, ip, mem, fs).
      ok (r, mem, record l { ip = ip; fs = fs })

  -- The loop of loadseg from `i` on; the first argument bounds the rounds. true is its 0.
  loadseg_from : ℕ → ℕ → ℕ → ℕ → ℕ → ℕ → Loading → Outcome (Bool × Loading)
  loadseg_from zero pagetable va offset sz i l = no_fuel
  loadseg_from (suc k) pagetable va offset sz i l =
      let n = if ltb (sz - i) pgsize then sz - i else pgsize in
      if not (ltb i sz)
      then ok (true, l)
      else walkaddr P pagetable (va + i) l.vm >>= λ found. elim found [
        | none ↦ panic
        | some pa ↦
            readi copyout copyin sb l.ip false pa ((offset + i) % 2 ^ 32) n (Vm.mem l.vm) l.fs
            >>= λ (r, ip, mem, fs).
                let l' : Loading = record { ip = ip; fs = fs; vm = record (l.vm) { mem = mem } } in
                let rest = loadseg_from k pagetable va offset sz (i + pgsize) l' in
                if not (equals r n) then ok (false, l') else rest
      ]

  loadseg : ℕ → ℕ → ℕ → ℕ → Loading → Outcome (Bool × Loading)
  unfolding loadseg_from
  loadseg pagetable va offset sz l =
      loadseg_from (suc (sz / pgsize + 1)) pagetable va (offset % 2 ^ 32) (sz % 2 ^ 32) 0 l

  -- The loop of exec over the program headers; the first argument is the rounds left. Whether it came to
  -- its end, and sz.
  load_segments : ℕ → ℕ → ℕ → ℕ → Loading → Outcome (Bool × ℕ × Loading)
  unfolding read_header loadseg
  load_segments zero off pagetable sz l = ok (true, sz, l)
  load_segments (suc k) off pagetable sz l = read_header off 56 l >>= λ (r, ph, l₁).
      let vaddr = word_at 8 16 ph in
      let filesz = word_at 8 32 ph in
      let memsz = word_at 8 40 ph in
      let end_va = (vaddr + memsz) % 2 ^ 64 in
      let next =
        λ (sz' : ℕ) (l' : Loading). load_segments k ((off + 56) % 2 ^ 32) pagetable sz' l' in
      if not (equals r 56)
      then ok (false, sz, l₁)
      else if not (word_at 4 0 ph == 1)
      then next sz l₁
      else if ltb memsz filesz || (ltb end_va vaddr || not (vaddr % pgsize == 0))
      then ok (false, sz, l₁)
      else uvmalloc P pagetable sz end_va (flags2perm (word_at 4 4 ph)) l₁.vm >>= λ (sz₁, vm).
          let l₂ = record l₁ { vm = vm } in
          if sz₁ == 0
          then ok (false, sz, l₂)
          else loadseg pagetable vaddr (word_at 8 8 ph) filesz l₂ >>= λ (done, l₃).
              if done then next sz₁ l₃ else ok (false, sz₁, l₃)

  -- The label `bad`, once the inode is unlocked.
  bad_image : ℕ → ℕ → Vm P → Fs → Outcome (Answer (Option Image) × Fs × Vm P)
  bad_image pagetable sz vm fs =
      proc_freepagetable P trampoline pagetable sz vm >>= λ vm'. ok (answered none, fs, vm')

  -- exec once the segments are loaded and the inode is unlocked: the stack, and the new image.
  make_stack : List ℕ → List ℕ → ℕ → ℕ → ℕ → Vm P → Fs → Outcome (Answer (Option Image) × Fs × Vm P)
  unfolding bad_image
  make_stack path argv entry pagetable loaded vm fs =
      let sz = pgroundup loaded in
      uvmalloc P pagetable sz (sz + 2 * pgsize) writable_page vm >>= λ (sz₁, vm₁).
      if sz₁ == 0
      then bad_image pagetable sz vm₁ fs
      else uvmclear P pagetable (sz₁ - 2 * pgsize) vm₁ >>= λ vm₂.
          push_args P pagetable (sz₁ - pgsize) ustack_at argv sz₁ vm₂ >>= λ (pushed, vm₃).
          elim pushed [
            | none ↦ bad_image pagetable sz₁ vm₃ fs
            | some (argc, sp) ↦
                let image : Image = record {
                  argc = argc;
                  pagetable = pagetable;
                  sz = sz₁;
                  epc = entry;
                  sp = sp;
                  name = last_name path path;
                } in
                ok (answered (some image), fs, vm₃)
          ]

  -- exec with the inode `i` locked.
  exec_inode : List ℕ → List ℕ → ℕ → ℕ → Loading → Outcome (Answer (Option Image) × Fs × Vm P)
  unfolding read_header load_segments bad_image make_stack
  exec_inode path argv trapframe i l = read_header 0 64 l >>= λ (r, elf, l₁).
      let unlock = λ (l' : Loading). iunlockput sb me pid lock_at i (put_inode i l'.ip l'.fs) in
      if not (equals r 64) || not (word_at 4 0 elf == 1179403647)
      then (unlock l₁ >>= λ fs. ok (answered none, fs, l₁.vm))
      else proc_pagetable P trampoline trapframe l₁.vm >>= λ (created, vm).
          let l₂ = record l₁ { vm = vm } in
          elim created [
            | none ↦ unlock l₂ >>= λ fs. ok (answered none, fs, vm)
            | some pagetable ↦
                load_segments (word_at 2 56 elf) (word_at 8 32 elf % 2 ^ 32) pagetable 0 l₂
                >>= λ (done, sz, l₃). unlock l₃ >>= λ fs.
                    if done
                    then make_stack path argv (word_at 8 24 elf) pagetable sz l₃.vm fs
                    else bad_image pagetable sz l₃.vm fs
          ]

  -- exec, with p->trapframe and p->cwd. The old image is freed where there is a new one.
  exec : List ℕ → List ℕ → ℕ → ℕ → ℕ → ℕ → Fs → Vm P → Outcome (Answer (Option Image) × Fs × Vm P)
  unfolding exec_inode
  exec path argv trapframe cwd oldpagetable oldsz fs vm =
      namei copyout copyin sb me pid lock_at path cwd fs >>= λ (found, fs₁). elim found [
        | Walk.asleep ↦ ok (asleep, fs₁, vm)
        | no_inode ↦ ok (answered none, fs₁, vm)
        | at_inode i _ ↦ ilock sb me pid lock_at i fs₁ >>= λ locked. elim locked [
          | none ↦ ok (asleep, fs₁, vm)
          | some fs₂ ↦ elim (get_elem? fs₂.itable i) [
            | none ↦ fault
            | some ip ↦
                exec_inode path argv trapframe i (record { ip = ip; fs = fs₂; vm = vm })
                >>= λ (image, fs₃, vm₁). elim image [
                  | asleep ↦ ok (asleep, fs₃, vm₁)
                  | answered none ↦ ok (answered none, fs₃, vm₁)
                  | answered (some new) ↦
                      proc_freepagetable P trampoline oldpagetable oldsz vm₁ >>= λ vm₂.
                      ok (answered (some new), fs₃, vm₂)
                ]
          ]
        ]
      ]
