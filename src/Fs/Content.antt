-- ===== src/Fs/Content.antt =====
-- kernel/fs.c: reading and writing the bytes of a file, and either_copyout and either_copyin of
-- kernel/proc.c. Bytes of memory and of a block are functions of the address; `copyout` and `copyin`
-- are those of kernel/vm.c with the page table of the process that runs: whether they answer 0, and the
-- memory, or the block, after the bytes they have copied, all or some.
pub mod Read
use os_spring.Prelude.{
  ℕ, zero, suc, ◌+◌, ◌-◌, ◌*◌, ◌/◌, ◌%◌, ◌^◌, ◌≤◌, ◌<◌, ◌≡◌, ◌≢◌, ◌⊎◌, ◌↔◌, inl, inr, refl, sym,
  subst, ap, ◌∙◌, fun_ext, List, [], ◌∷◌, ◌++◌, map, Bool, true, false, not, ◌&&◌, ◌||◌, Option,
  none, some, some-injective, arith, All, All-map, length, get_elem?, get_or, set, take, drop,
  replicate, length-append, length-set, get_or-set_self, get_elem?-set_self, get_elem?-set_ne,
  get_or-set_ne, ℤ, pos, negsuc, sub_ℕ, sub_ℕ-eq_zero, ltb, leb, ◌==◌, ==_iff, Bool-cases,
  Option-cases, if◌then◌else◌, Outcome, ok, panic, fault, no_fuel, ◌>>=◌,
}
use os_spring.Cstring.{Mem, memmove}
use os_spring.Fs.{Superblock, Dinode, Inode, Fs, bsize, maxfile, store, log_write}
use os_spring.Fs.Map.{bmap, iupdate}

abbrev pub min : ℕ → ℕ → ℕ
min a b = if ltb a b then a else b

-- `len` bytes from `b` on, put at `dst`
abbrev pub put_bytes : ℕ → (ℕ → ℕ) → ℕ → Mem → Mem
put_bytes dst b len mem a = if leb dst a && ltb a (dst + len) then b (a - dst) else mem a

-- off + n < off for uints
abbrev pub overflows : ℕ → ℕ → Bool
overflows off n = ltb ((off + n) % 2 ^ 32) off

module _ (copyout : ℕ → (ℕ → ℕ) → ℕ → Mem → Bool × Mem)
    (copyin : ℕ → ℕ → ℕ → Mem → (ℕ → ℕ) → Bool × (ℕ → ℕ)) where
  pub either_copyout : Bool → ℕ → (ℕ → ℕ) → ℕ → Mem → Bool × Mem
  either_copyout true dst b len mem = copyout dst b len mem
  either_copyout false dst b len mem = (true, put_bytes dst b len mem)

  either_copyin : ℕ → Bool → ℕ → ℕ → Mem → (ℕ → ℕ) → Bool × (ℕ → ℕ)
  either_copyin dst true src len mem b = copyin dst src len mem b
  either_copyin dst false src len mem b = (true, put_bytes dst (λ i. mem (src + i)) len b)

  module _ (sb : Superblock) where
    -- The loop of readi, with fuel.
    pub readi_from : ℕ → Bool → ℕ → ℕ → ℕ → ℕ → Dinode → Mem → Fs → Outcome (ℤ × Dinode × Mem × Fs)
    readi_from zero user dst off n tot d mem fs = no_fuel
    readi_from (suc k) user dst off n tot d mem fs =
        let m = min (n - tot) (bsize - off % bsize) in
        if not (ltb tot n)
        then ok (pos tot, d, mem, fs)
        else bmap sb d (off / bsize) fs >>= λ (addr, d', fs').
            if addr == 0
            then ok (pos tot, d', mem, fs')
            else let (copied, mem') =
                either_copyout user dst (λ i. fs'.bytes addr (off % bsize + i)) m mem in
              let rest = readi_from k user (dst + m) (off + m) n (tot + m) d' mem' fs' in
              if not copied then ok (negsuc 0, d', mem', fs') else rest

    -- Each round reads a byte at least.
    pub readi : Inode → Bool → ℕ → ℕ → ℕ → Mem → Fs → Outcome (ℤ × Inode × Mem × Fs)
    readi ip user dst off n mem fs =
        let size = ip.copy.size in
        let n' = if ltb size (off + n) then size - off else n in
        if ltb size off || overflows off n
        then ok (pos 0, ip, mem, fs)
        else readi_from (suc n') user dst off n' 0 ip.copy mem fs >>= λ (r, d, mem', fs').
            ok (r, record ip { copy = d }, mem', fs')

    -- The loop of writei; it answers the offset too.
    pub writei_from : ℕ → Bool → ℕ → ℕ → ℕ → ℕ → Dinode → Mem → Fs → Outcome (ℕ × ℕ × Dinode × Fs)
    writei_from zero user src off n tot d mem fs = no_fuel
    writei_from (suc k) user src off n tot d mem fs =
        let m = min (n - tot) (bsize - off % bsize) in
        if not (ltb tot n)
        then ok (tot, off, d, fs)
        else bmap sb d (off / bsize) fs >>= λ (addr, d', fs').
            if addr == 0
            then ok (tot, off, d', fs')
            else let (copied, block) =
                either_copyin (off % bsize) user src m mem (fs'.bytes addr) in
              let fs₁ = record fs' { bytes = store fs'.bytes addr block } in
              let rest =
                writei_from k user (src + m) (off + m) n (tot + m) d' mem (log_write addr fs₁) in
              if not copied then ok (tot, off, d', fs₁) else rest

    pub writei : Inode → Bool → ℕ → ℕ → ℕ → Mem → Fs → Outcome (ℤ × Inode × Fs)
    writei ip user src off n mem fs =
        if ltb ip.copy.size off || overflows off n
        then ok (negsuc 0, ip, fs)
        else if ltb (maxfile * bsize) (off + n)
        then ok (negsuc 0, ip, fs)
        else writei_from (suc n) user src off n 0 ip.copy mem fs >>= λ (tot, off', d, fs').
            let d' = if ltb d.size off' then record d { size = off' } else d in
            ok (pos tot, record ip { copy = d' }, iupdate sb ip.inum d' fs')
