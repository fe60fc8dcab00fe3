-- ===== src/Bio/Tests.antt =====
-- A run of kernel/bio.c on a cache of two buffers, one of them in use.
use os_spring.Prelude.{ℕ, ◌≡◌, ◌≢◌, ◌⊎◌, refl, List, [], ◌∷◌, true, none, ok, panic}
use os_spring.Bio.{Buf, bget, unlink}
use os_spring.Bio.Unique.{Unique, Busy, bget-Unique}

abbrev a_buf : ℕ → ℕ → ℕ → ℕ → Buf
a_buf id dev blockno refcnt = record {
  id = id;
  valid = true;
  dev = dev;
  blockno = blockno;
  refcnt = refcnt;
  contents = λ _. 0;
}

abbrev cache : List Buf
cache = a_buf 1 1 40 0 ∷ a_buf 0 1 50 1 ∷ []

cache-Unique : Unique cache
cache-Unique = (((λ h. refl), tt), (tt, tt))

bget-Unique_example :
    ((b : Buf) × (bs' : List Buf) × (bget 1 60 cache ≡ ok (b, bs'))
      × ((b.dev ≡ 1) × (b.blockno ≡ 60))
      × Unique bs')
    ⊎ ((bget 1 60 cache ≡ panic) × Busy cache)
bget-Unique_example = bget-Unique 1 60 cache cache-Unique

buffer_zero : unlink 0 cache ≢ none
unfolding unlink
buffer_zero e = cc e
