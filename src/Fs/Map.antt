-- ===== src/Fs/Map.antt =====
-- kernel/fs.c: the blocks of a file. A function that changes the fields of a `struct inode` takes and
-- answers the copy of them; `put_inode` of Itable writes it to the table.
pub mod Layout
pub mod Indirect
pub mod Found
use os_spring.Prelude.{
  ℕ, zero, suc, ◌+◌, ◌-◌, ◌*◌, ◌/◌, ◌%◌, ◌^◌, ◌≤◌, ◌<◌, ◌≡◌, ◌≢◌, ◌⊎◌, ◌↔◌, inl, inr, refl, sym,
  subst, ap, ◌∙◌, fun_ext, List, [], ◌∷◌, ◌++◌, map, Bool, true, false, not, ◌&&◌, ◌||◌, Option,
  none, some, some-injective, arith, All, All-map, length, get_elem?, get_or, set, take, drop,
  replicate, length-append, length-set, get_or-set_self, get_elem?-set_self, get_elem?-set_ne,
  get_or-set_ne, ℤ, pos, negsuc, sub_ℕ, sub_ℕ-eq_zero, ltb, leb, ◌==◌, ==_iff, Bool-cases,
  Option-cases, if◌then◌else◌, Outcome, ok, panic, fault, no_fuel, ◌>>=◌,
}
use os_spring.Fs.{
  Superblock, Dinode, Fs, ndirect, nindirect, ipb, store, log_write, iblock, balloc, bfree,
}

module _ (sb : Superblock) where
  pub iupdate : ℕ → Dinode → Fs → Fs
  iupdate inum d fs =
      let b = iblock sb inum in
      log_write b (record fs { dinodes = store fs.dinodes b (store (fs.dinodes b) (inum % ipb) d) })

  -- ip->addrs[n], with a block allocated for it if it is 0; 0 if the disk is full.
  pub slot : Dinode → ℕ → Fs → Outcome (ℕ × Dinode × Fs)
  slot d n fs =
      let addr = d.addrs n in
      if not (addr == 0)
      then ok (addr, d, fs)
      else balloc sb fs >>= λ (a, fs').
          if a == 0 then ok (0, d, fs') else ok (a, record d { addrs = store d.addrs n a }, fs')

  pub bmap : Dinode → ℕ → Fs → Outcome (ℕ × Dinode × Fs)
  bmap d bn fs =
      let n = bn - ndirect in
      if ltb bn ndirect
      then slot d bn fs
      else if ltb n nindirect
      then (slot d ndirect fs >>= λ (addr, d', fs').
          let a = fs'.words addr n in
          if addr == 0
          then ok (0, d', fs')
          else if not (a == 0)
          then ok (a, d', fs')
          else balloc sb fs' >>= λ (b, t). ok (
            b,
            d',
            if b == 0
                then t
                else log_write addr
                    (record t { words = store t.words addr (store (t.words addr) n b) }),
          ))
      else panic

  -- The loop of itrunc over the direct blocks; the first argument is the rounds left.
  trunc_direct : ℕ → ℕ → Dinode → Fs → Outcome (Dinode × Fs)
  trunc_direct zero i d fs = ok (d, fs)
  trunc_direct (suc k) i d fs =
      (if d.addrs i == 0
        then ok (d, fs)
        else bfree sb (d.addrs i) fs >>= λ fs'. ok (record d { addrs = store d.addrs i 0 }, fs'))
      >>= λ (d', fs'). trunc_direct k (i + 1) d' fs'

  -- Its loop over the entries of the indirect block.
  free_words : ℕ → ℕ → (ℕ → ℕ) → Fs → Outcome Fs
  free_words zero j a fs = ok fs
  free_words (suc k) j a fs =
      (if a j == 0 then ok fs else bfree sb (a j) fs) >>= free_words k (j + 1) a

  pub itrunc : ℕ → Dinode → Fs → Outcome (Dinode × Fs)
  itrunc inum d fs = trunc_direct ndirect 0 d fs >>= λ (d₁, fs₁).
      let b = d₁.addrs ndirect in
      (if b == 0
        then ok (d₁, fs₁)
        else free_words nindirect 0 (fs₁.words b) fs₁ >>= bfree sb b >>= λ fs₂.
            ok (record d₁ { addrs = store d₁.addrs ndirect 0 }, fs₂))
      >>= λ (d₂, fs₂). let d₃ = record d₂ { size = 0 } in ok (d₃, iupdate inum d₃ fs₂)
