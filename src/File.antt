-- ===== src/File.antt =====
-- kernel/file.c and kernel/file.h: the table of open files and its reference counts. A
-- `struct file *` is an index of the table; pipes and inodes are named by numbers.
pub mod Refs
pub mod Io
mod Tests
use os_spring.Prelude.{
  ℕ, zero, suc, ◌+◌, ◌-◌, ◌*◌, ◌/◌, ◌%◌, ◌^◌, ◌≤◌, ◌<◌, ◌≡◌, ◌≢◌, ◌⊎◌, ◌↔◌, inl, inr, refl, sym,
  subst, ap, ◌∙◌, fun_ext, List, [], ◌∷◌, ◌++◌, map, Bool, true, false, not, ◌&&◌, ◌||◌, Option,
  none, some, some-injective, arith, All, All-map, length, get_elem?, get_or, set, take, drop,
  replicate, length-append, length-set, get_or-set_self, get_elem?-set_self, get_elem?-set_ne,
  get_or-set_ne, ℤ, pos, negsuc, sub_ℕ, sub_ℕ-eq_zero, ltb, leb, ◌==◌, ==_iff, Bool-cases,
  Option-cases, if◌then◌else◌, Outcome, ok, panic, fault, no_fuel, ◌>>=◌,
}

pub data FileType : Type 0 where
  fd_none fd_pipe fd_inode fd_device : FileType

pub record File : Type 0 where
  pub type : FileType
  -- an int that stays far below its bound
  pub ref : ℕ
  pub readable : Bool
  pub writable : Bool
  pub pipe : ℕ
  pub ip : ℕ
  pub off : ℕ
  pub major : ℕ

-- filealloc: the index of the first entry that is not referenced, or none.
pub filealloc : List File → Option ℕ × List File
filealloc [] = (none, [])
filealloc (f ∷ fs) =
    let (found, fs') = filealloc fs in
    if f.ref == 0
    then (some 0, record f { ref = 1 } ∷ fs)
    else (elim found [ none ↦ none | some i ↦ some (suc i) ], f ∷ fs')

-- An index out of the table is no file.
pub filedup : ℕ → List File → Outcome (List File)
filedup i t = elim (get_elem? t i) [
  | none ↦ fault
  | some f ↦ if ltb f.ref 1 then panic else ok (set t i (record f { ref = f.ref + 1 }))
]

-- What fileclose goes on to do once the table is unlocked.
pub data Closing : Type 0 where
  still_open : Closing
  close_pipe : ℕ → Bool → Closing
  put_inode : ℕ → Closing
  nothing : Closing

abbrev pub closing : File → Closing
closing f = elim f.type [
  | fd_pipe ↦ close_pipe f.pipe f.writable
  | fd_inode ↦ put_inode f.ip
  | fd_device ↦ put_inode f.ip
  | fd_none ↦ nothing
]

pub fileclose : ℕ → List File → Outcome (Closing × List File)
fileclose i t = elim (get_elem? t i) [
  | none ↦ fault
  | some f ↦
      if ltb f.ref 1
      then panic
      else if ltb 0 (f.ref - 1)
      then ok (still_open, set t i (record f { ref = f.ref - 1 }))
      else ok (closing f, set t i (record f { ref = 0; type = fd_none }))
]
