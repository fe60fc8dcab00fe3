-- ===== src/Wc.antt =====
-- user/wc.c: counting lines, words and bytes. The input is the list of what the calls of read answer, each
-- with a byte at least, and how they end. The counters are ints, kept as their 32-bit patterns.
pub mod Words
mod Tests
use os_spring.Prelude.{
  ℕ, zero, suc, ◌+◌, ◌-◌, ◌*◌, ◌/◌, ◌%◌, ◌^◌, ◌≤◌, ◌<◌, ◌≡◌, ◌≢◌, ◌⊎◌, ◌↔◌, inl, inr, refl, sym,
  subst, ap, ◌∙◌, fun_ext, List, [], ◌∷◌, ◌++◌, map, Bool, true, false, not, ◌&&◌, ◌||◌, Option,
  none, some, some-injective, arith, All, All-map, length, get_elem?, get_or, set, take, drop,
  replicate, length-append, length-set, get_or-set_self, get_elem?-set_self, get_elem?-set_ne,
  get_or-set_ne, ℤ, pos, negsuc, sub_ℕ, sub_ℕ-eq_zero, ltb, leb, ◌==◌, ==_iff, Bool-cases,
  Option-cases, if◌then◌else◌, Outcome, ok, panic, fault, no_fuel, ◌>>=◌,
}

-- strchr(" \r\t\n\v", c)
abbrev pub is_blank : ℕ → Bool
is_blank c = c == 32 || (c == 13 || (c == 9 || (c == 10 || c == 11)))

-- l, w, c and inword
pub record Counts : Type 0 where
  pub l : ℕ
  pub w : ℕ
  pub c : ℕ
  pub inword : Bool

-- ++ on an int
abbrev int_inc : ℕ → ℕ
int_inc n = (n + 1) % 2 ^ 32

-- The body of the inner loop, for a byte of buf.
pub count_byte : ℕ → Counts → Counts
count_byte b k =
    let k' = record k { l = if b == 10 then int_inc k.l else k.l; c = int_inc k.c } in
    if is_blank b
    then record k' { inword = false }
    else if not k.inword
    then record k' { w = int_inc k.w; inword = true }
    else k'

pub count_buf : List ℕ → Counts → Counts
unfolding count_byte
count_buf [] k = k
count_buf (b ∷ buf) k = count_buf buf (count_byte b k)

pub count_reads : List (List ℕ) → Counts → Counts
unfolding count_buf
count_reads [] k = k
count_reads (buf ∷ bufs) k = count_reads bufs (count_buf buf k)

-- wc up to its printf: lines, words and bytes, or none where a read fails.
pub wc : List (List ℕ) → Bool → Option (ℕ × ℕ × ℕ)
unfolding count_reads
wc bufs fails =
    let k = count_reads bufs (record { l = 0; w = 0; c = 0; inword = false }) in
    if fails then none else some (k.l, k.w, k.c)
