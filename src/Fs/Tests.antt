-- ===== src/Fs/Tests.antt =====
-- Runs of kernel/fs.c on a disk of 100 blocks, of which the first eight are in use.
use os_spring.Prelude.{
  ℕ, zero, suc, ◌+◌, ◌-◌, ◌/◌, ◌≡◌, ◌≢◌, refl, subst, ap, [], ◌∷◌, map, Bool, true, false, ◌&&◌,
  some, some-injective, arith, take, pos, ◌==◌, if◌then◌else◌, ok,
}
use os_spring.Cstring.{Mem}
use os_spring.Fs.{
  Superblock, Dinode, Inode, Fs, no_dinode, bblock, test_bit, set_bit, bzero, find_free,
  balloc_from, balloc,
}
use os_spring.Fs.Bitmap.{is_used}
use os_spring.Fs.Blocks.{MapReserved, Allocates, balloc-Allocates}
use os_spring.Fs.Map.{bmap}
use os_spring.Fs.Map.Layout.{file_block, Sound, Places}
use os_spring.Fs.Map.Indirect.{bmap-Places}
use os_spring.Fs.Itable.{iget}
use os_spring.Fs.Itable.Unique.{Unique, Gets, iget-Unique}
use os_spring.Fs.Content.{min, put_bytes, readi}
use os_spring.Fs.Content.Read.{file_byte, readi_lem}
use os_spring.Fs.Path.{dirsiz}
use os_spring.Fs.Path.Split.{names, path_of, names-path_of}

abbrev small : Superblock
small = record {
  magic = 270544960;
  size = 100;
  nblocks = 90;
  ninodes = 16;
  nlog = 2;
  logstart = 2;
  inodestart = 4;
  bmapstart = 5;
}

abbrev root_inode : Inode
root_inode = record {
  dev = 1;
  inum = 1;
  ref = 1;
  lock = record { locked = false; pid = 0 };
  valid = false;
  copy = no_dinode;
}

abbrev spare : Inode
spare = record root_inode { ref = 0; inum = 0 }

abbrev disk : Fs
disk = record {
  bytes = λ b i. if b == 5 && i == 0 then 255 else if b == 7 then 60 + i else 0;
  words = λ _ _. 0;
  dinodes = λ _ _. no_dinode;
  logged = [];
  itable = root_inode ∷ spare ∷ [];
  procs = [];
}

disk-MapReserved : MapReserved small disk
unfolding test_bit
disk-MapReserved c h =
    let at : 5 ≡ bblock small c = omega (arith, h) in
    (omega (arith, h), subst (λ b. is_used small disk b ≡ true) at refl)

balloc-Allocates_example : Allocates small disk (balloc small disk)
balloc-Allocates_example = balloc-Allocates small disk disk-MapReserved

abbrev after_alloc : Fs
after_alloc = elim (balloc small disk) [ ok (b, fs) ↦ fs | _ ↦ disk ]

balloc_run : balloc small disk ≡ ok (8, after_alloc)
unfolding balloc balloc_from find_free test_bit set_bit bzero
balloc_run = refl

-- A file with its block of block numbers at 6.
abbrev file : Dinode
file = record no_dinode {
  type = 2;
  nlink = 1;
  size = 5;
  addrs = λ n. if n == 12 then 6 else if n == 0 then 7 else 0;
}

file-Sound : Sound small file disk
unfolding test_bit
file-Sound = record { map_reserved = disk-MapReserved; boot = refl; indirect = refl }

bmap-Places_example :
    (b : ℕ) × (d' : Dinode) × (fs' : Fs) × (bmap small file 12 disk ≡ ok (b, d', fs'))
    × Places small 12 b file disk d' fs'
bmap-Places_example = bmap-Places small 12 file disk (omega arith) file-Sound

disk-Unique : Unique disk.itable
disk-Unique zero zero a b at_a at_b same used = refl
disk-Unique zero (suc zero) a b at_a at_b same used =
    absurd (omega (arith, ap (λ (x : Inode). x.ref) (some-injective spare b at_b), used))
disk-Unique zero (suc (suc j)) a b at_a at_b same used = cc at_b
disk-Unique (suc zero) zero a b at_a at_b same used =
    absurd (ground (arith, ap (λ (x : Inode). x.ref) (some-injective spare a at_a), same))
disk-Unique (suc zero) (suc zero) a b at_a at_b same used = refl
disk-Unique (suc zero) (suc (suc j)) a b at_a at_b same used = cc at_b
disk-Unique (suc (suc i)) j a b at_a at_b same used = cc at_a

iget-Unique_example : Gets 1 7 disk (iget 1 7 disk)
iget-Unique_example = iget-Unique 1 7 disk disk-Unique

abbrev no_copyout : ℕ → (ℕ → ℕ) → ℕ → Mem → Bool × Mem
no_copyout dst b len mem = (false, mem)

abbrev no_copyin : ℕ → ℕ → ℕ → Mem → (ℕ → ℕ) → Bool × (ℕ → ℕ)
no_copyin dst src len mem b = (false, b)

readi_lem_example :
    readi no_copyout no_copyin small (record root_inode { copy = file }) false 300 2 9 (λ _. 0) disk
    ≡ ok (
      pos (min 9 (5 - 2)),
      record root_inode { copy = file },
      put_bytes 300 (λ i. file_byte file disk (2 + i)) (min 9 (5 - 2)) (λ _. 0),
      disk,
    )
readi_lem_example =
    readi_lem small disk no_copyout no_copyin (record root_inode { copy = file }) 300 2 9 (λ _. 0)
      (omega arith) (omega arith) (omega arith)
      (λ i h.
        let first : 0 ≡ (2 + i) / 1024 = omega (arith, h) in
        subst (λ x. file_block file disk x ≢ 0) first (λ e. absurd (omega (arith, e))))

-- /usr/b
names-path_of_example :
    names (suc 6) (path_of ((117 ∷ 115 ∷ 114 ∷ []) ∷ (98 ∷ []) ∷ []))
    ≡ some (map (take dirsiz) ((117 ∷ 115 ∷ 114 ∷ []) ∷ (98 ∷ []) ∷ []))
names-path_of_example = names-path_of ((117 ∷ 115 ∷ 114 ∷ []) ∷ (98 ∷ []) ∷ []) (
  (
    omega arith,
    (
      (λ e. absurd (omega (arith, e))),
      ((λ e. absurd (omega (arith, e))), ((λ e. absurd (omega (arith, e))), tt)),
    ),
  ),
  ((omega arith, ((λ e. absurd (omega (arith, e))), tt)), tt),
)
