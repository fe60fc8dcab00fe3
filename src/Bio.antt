-- ===== src/Bio.antt =====
-- kernel/bio.c: the buffer cache. The buffers are a list in the order of use, the head's next, the
-- most recent, first. A buffer is named by `id`, its index in bcache.buf. The sleep lock that bget
-- takes last is a step of its own (Sleeplock).
pub mod Unique
pub mod Release
mod Tests
use os_spring.Prelude.{
  ℕ, zero, suc, ◌+◌, ◌-◌, ◌*◌, ◌/◌, ◌%◌, ◌^◌, ◌≤◌, ◌<◌, ◌≡◌, ◌≢◌, ◌⊎◌, ◌↔◌, inl, inr, refl, sym,
  subst, ap, ◌∙◌, fun_ext, List, [], ◌∷◌, ◌++◌, map, Bool, true, false, not, ◌&&◌, ◌||◌, Option,
  none, some, some-injective, arith, All, All-map, length, get_elem?, get_or, set, take, drop,
  replicate, length-append, length-set, get_or-set_self, get_elem?-set_self, get_elem?-set_ne,
  get_or-set_ne, ℤ, pos, negsuc, sub_ℕ, sub_ℕ-eq_zero, ltb, leb, ◌==◌, ==_iff, Bool-cases,
  Option-cases, if◌then◌else◌, Outcome, ok, panic, fault, no_fuel, ◌>>=◌,
}

pub record Buf : Type 0 where
  pub id : ℕ
  pub valid : Bool
  pub dev : ℕ
  pub blockno : ℕ
  pub refcnt : ℕ
  pub contents : ℕ → ℕ

-- NBUF of kernel/param.h
abbrev nbuf : ℕ
nbuf = 30

-- for (b = bcache.buf; b < bcache.buf + NBUF; b++), each put at the head: the first argument is the
-- index of the buffer behind the one to insert last. The statics are zeros.
binit_from : ℕ → List Buf
binit_from zero = []
binit_from (suc k) =
    record { id = k; valid = false; dev = 0; blockno = 0; refcnt = 0; contents = λ _. 0 }
    ∷ binit_from k

binit : List Buf
binit = binit_from nbuf

abbrev pub has : ℕ → ℕ → Buf → Bool
has dev blockno b = b.dev == dev && b.blockno == blockno

-- uint reference counts
abbrev pub ref : Buf → Buf
ref b = record b { refcnt = (b.refcnt + 1) % 2 ^ 32 }

-- The first scan of bget: the buffer that holds the block, with one reference more.
pub find_cached : ℕ → ℕ → List Buf → Option (Buf × List Buf)
find_cached dev blockno [] = none
find_cached dev blockno (b ∷ bs) =
    if has dev blockno b
    then some (ref b, ref b ∷ bs)
    else elim (find_cached dev blockno bs) [ none ↦ none | some (r, bs') ↦ some (r, b ∷ bs') ]

abbrev pub claim : ℕ → ℕ → Buf → Buf
claim dev blockno b = record b { dev = dev; blockno = blockno; valid = false; refcnt = 1 }

-- The second scan, from the least recently used: an unused buffer is taken for the block.
pub recycle : ℕ → ℕ → List Buf → Option (Buf × List Buf)
recycle dev blockno [] = none
recycle dev blockno (b ∷ bs) = elim (recycle dev blockno bs) [
  | some (r, bs') ↦ some (r, b ∷ bs')
  | none ↦ if b.refcnt == 0 then some (claim dev blockno b, claim dev blockno b ∷ bs) else none
]

-- bget up to acquiresleep
pub bget : ℕ → ℕ → List Buf → Outcome (Buf × List Buf)
bget dev blockno bs = elim (find_cached dev blockno bs) [
  | some found ↦ ok found
  | none ↦ elim (recycle dev blockno bs) [ some taken ↦ ok taken | none ↦ panic ]
]

pub put_back : Buf → List Buf → List Buf
put_back b [] = []
put_back b (c ∷ cs) = if c.id == b.id then b ∷ cs else c ∷ put_back b cs

-- bread over the contents of the disk, from the lock on: virtio_disk_rw(b, 0) reads the block.
bread : (ℕ → ℕ → ℕ → ℕ) → ℕ → ℕ → List Buf → Outcome (Buf × List Buf)
bread disk dev blockno bs = bget dev blockno bs >>= λ (b, bs').
    if b.valid
    then ok (b, bs')
    else let full = record b { contents = disk b.dev b.blockno; valid = true } in
      ok (full, put_back full bs')

-- The list without the buffer, and the buffer.
pub unlink : ℕ → List Buf → Option (Buf × List Buf)
unlink id [] = none
unlink id (b ∷ bs) =
    if b.id == id
    then some (b, bs)
    else elim (unlink id bs) [ none ↦ none | some (r, bs') ↦ some (r, b ∷ bs') ]

-- brelse from the release of the sleep lock on; `holding` is holdingsleep(&b->lock).
pub brelse : Bool → ℕ → List Buf → Outcome (List Buf)
brelse holding id bs = if not holding then panic else elim (unlink id bs) [
  | none ↦ fault
  | some (b, rest) ↦
      let b' = record b { refcnt = (b.refcnt + 2 ^ 32 - 1) % 2 ^ 32 } in
      ok (if b'.refcnt == 0 then b' ∷ rest else put_back b' bs)
]
