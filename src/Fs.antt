-- ===== src/Fs.antt =====
-- kernel/fs.c, kernel/fs.h and kernel/file.h: the file system, over what bread() answers. A block
-- holds bytes, inodes or block numbers, by its use, so these are three functions of the block number;
-- bzero clears all three. log_write is kept as the list of the blocks it is called for, the last
-- first (Log has what it does with them). There is one device. The locks of the buffers and of the
-- inode table are held across each step.
pub mod Bitmap
pub mod Blocks
pub mod Map
pub mod Itable
pub mod Content
pub mod Path
pub mod Dir
mod Tests
use os_spring.Prelude.{
  ℕ, zero, suc, ◌+◌, ◌-◌, ◌*◌, ◌/◌, ◌%◌, ◌^◌, ◌≤◌, ◌<◌, ◌≡◌, ◌≢◌, ◌⊎◌, ◌↔◌, inl, inr, refl, sym,
  subst, ap, ◌∙◌, fun_ext, List, [], ◌∷◌, ◌++◌, map, Bool, true, false, not, ◌&&◌, ◌||◌, Option,
  none, some, some-injective, arith, All, All-map, length, get_elem?, get_or, set, take, drop,
  replicate, length-append, length-set, get_or-set_self, get_elem?-set_self, get_elem?-set_ne,
  get_or-set_ne, ℤ, pos, negsuc, sub_ℕ, sub_ℕ-eq_zero, ltb, leb, ◌==◌, ==_iff, Bool-cases,
  Option-cases, if◌then◌else◌, Outcome, ok, panic, fault, no_fuel, ◌>>=◌,
}
use os_spring.Proc.{Table}
use os_spring.Sleeplock.{Sleeplock}

abbrev pub bsize : ℕ
bsize = 1024

abbrev pub ndirect : ℕ
ndirect = 12

abbrev pub nindirect : ℕ
nindirect = bsize / 4

abbrev pub maxfile : ℕ
maxfile = ndirect + nindirect

abbrev pub bpb : ℕ
bpb = bsize * 8

-- sizeof(struct dinode) is 64.
abbrev pub ipb : ℕ
ipb = bsize / 64

abbrev fsmagic : ℕ
fsmagic = 270544960

pub record Superblock : Type 0 where
  pub magic : ℕ
  pub size : ℕ
  pub nblocks : ℕ
  pub ninodes : ℕ
  pub nlog : ℕ
  pub logstart : ℕ
  pub inodestart : ℕ
  pub bmapstart : ℕ

pub record Dinode : Type 0 where
  pub type : ℕ
  pub major : ℕ
  pub minor : ℕ
  pub nlink : ℕ
  pub size : ℕ
  pub addrs : ℕ → ℕ

-- An entry of the inode table, with the on-disk fields it has a copy of.
pub record Inode : Type 0 where
  pub dev : ℕ
  pub inum : ℕ
  -- an int that stays far below its bound
  pub ref : ℕ
  pub lock : Sleeplock
  pub valid : Bool
  pub copy : Dinode

pub record Fs : Type 0 where
  pub bytes : ℕ → ℕ → ℕ
  pub words : ℕ → ℕ → ℕ
  pub dinodes : ℕ → ℕ → Dinode
  pub logged : List ℕ
  pub itable : List Inode
  pub procs : Table

-- What memset(dip, 0, sizeof(*dip)) leaves.
abbrev pub no_dinode : Dinode
no_dinode = record { type = 0; major = 0; minor = 0; nlink = 0; size = 0; addrs = λ _. 0 }

abbrev pub store {ℓ} : {A : Type ℓ} → (ℕ → A) → ℕ → A → ℕ → A
store f i a j = if i == j then a else f j

abbrev pub log_write : ℕ → Fs → Fs
log_write b fs = record fs { logged = b ∷ fs.logged }

-- (x & 1 << k) != 0, x | 1 << k and x & ~(1 << k)
pub test_bit : ℕ → ℕ → Bool
test_bit x zero = x % 2 == 1
test_bit x (suc k) = test_bit (x / 2) k

pub set_bit : ℕ → ℕ → ℕ
set_bit x zero = x / 2 * 2 + 1
set_bit x (suc k) = set_bit (x / 2) k * 2 + x % 2

pub clear_bit : ℕ → ℕ → ℕ
clear_bit x zero = x / 2 * 2
clear_bit x (suc k) = clear_bit (x / 2) k * 2 + x % 2

pub bzero : ℕ → Fs → Fs
bzero bno fs = log_write bno (record fs {
  bytes = store fs.bytes bno (λ _. 0);
  words = store fs.words bno (λ _. 0);
  dinodes = store fs.dinodes bno (λ _. no_dinode);
})

-- fsinit up to the log: the superblock that readsb read is checked.
fsinit : Superblock → Outcome Superblock
fsinit sb = if not (sb.magic == fsmagic) then panic else ok sb

module _ (sb : Superblock) where
  abbrev pub iblock : ℕ → ℕ
  iblock i = i / ipb + sb.inodestart

  abbrev pub bblock : ℕ → ℕ
  bblock b = b / bpb + sb.bmapstart

  -- bp->data[bi/8] of the bitmap block of `b`, written
  abbrev pub put_bits : ℕ → ℕ → ℕ → Fs → Fs
  put_bits b bi x fs = record fs {
    bytes = store fs.bytes (bblock b) (store (fs.bytes (bblock b)) (bi / 8) x);
  }

  -- The inner loop of balloc from `bi` on; the first argument is the rounds left.
  pub find_free : ℕ → ℕ → ℕ → Fs → Option ℕ
  find_free zero b bi fs = none
  find_free (suc k) b bi fs =
      let rest = find_free k b (bi + 1) fs in
      if not (ltb (b + bi) sb.size)
      then none
      else if not (test_bit (fs.bytes (bblock b) (bi / 8)) (bi % 8))
      then some bi
      else rest

  -- The outer loop from `b` on, with fuel.
  pub balloc_from : ℕ → ℕ → Fs → Outcome (ℕ × Fs)
  balloc_from zero b fs = no_fuel
  balloc_from (suc k) b fs =
      let rest = balloc_from k (b + bpb) fs in
      if not (ltb b sb.size) then ok (0, fs) else elim (find_free bpb b 0 fs) [
        | none ↦ rest
        | some bi ↦
            let x = set_bit (fs.bytes (bblock b) (bi / 8)) (bi % 8) in
            ok (b + bi, bzero (b + bi) (log_write (bblock b) (put_bits b bi x fs)))
      ]

  pub balloc : Fs → Outcome (ℕ × Fs)
  balloc fs = balloc_from (suc (sb.size / bpb + 1)) 0 fs

  pub bfree : ℕ → Fs → Outcome Fs
  bfree b fs =
      let bi = b % bpb in
      let x = fs.bytes (bblock b) (bi / 8) in
      if not (test_bit x (bi % 8))
      then panic
      else ok (log_write (bblock b) (put_bits b bi (clear_bit x (bi % 8)) fs))
