-- ===== src/Fs/Map/Found.antt =====
-- bmap of kernel/fs.c, of a block that the file has.
use native.Mathlib.Decide.{dec_lt}
use os_spring.Prelude.{ℕ, ◌-◌, ◌<◌, ◌≡◌, ◌≢◌, arith, ok}
use os_spring.Fs.{Superblock, Dinode, Fs, ndirect, maxfile}
use os_spring.Fs.Map.{slot, bmap}
use os_spring.Fs.Map.Layout.{file_block}

module _ (sb : Superblock) (d : Dinode) (fs : Fs) where
  slot_there : (n : ℕ) → d.addrs n ≢ 0 → slot sb d n fs ≡ ok (d.addrs n, d, fs)
  unfolding slot
  slot_there n h = ground (arith, h)

  pub bmap_there :
      (bn : ℕ)
      → bn < maxfile
      → file_block d fs bn ≢ 0
      → bmap sb d bn fs ≡ ok (file_block d fs bn, d, fs)
  unfolding bmap
  bmap_there bn h there = elim (dec_lt bn ndirect) [
    | yes dir ↦ let e = slot_there bn (ground (arith, dir, there)) in ground (arith, dir, e)
    | no ind ↦
        let at : d.addrs ndirect ≢ 0 = ground (arith, ind, there) in
        let e = slot_there ndirect at in
        let word : fs.words (d.addrs ndirect) (bn - ndirect) ≢ 0 = ground (arith, ind, there) in
        ground (arith, ind, h, e, at, word)
  ]
