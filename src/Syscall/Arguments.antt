-- ===== src/Syscall/Arguments.antt =====
-- fetchaddr of kernel/syscall.c: which addresses it reads.
use native.Mathlib.Decide.{dec_lt}
use os_spring.Prelude.{
  ℕ, ◌+◌, ◌%◌, ◌^◌, ◌≤◌, ◌<◌, ◌≡◌, ◌⊎◌, inl, inr, refl, false, ◌||◌, arith, pos, negsuc, ltb, leb,
  ok,
}
use os_spring.Cstring.{Mem}
use os_spring.Vm.{Pages, Vm}
use os_spring.Vm.Copy.In.{Backed, Apart, Copied, copyin-Copied}
use os_spring.Syscall.{fetchaddr}

-- fetchaddr reads a word if and only if all of its eight bytes stand below the size of the process: it
-- answers 0 with these bytes copied, in order, and no other changed, or -1 with nothing changed. The
-- bytes are mapped for the user, and the word is read to another place.
pub fetchaddr-Copied :
    (P : Pages) (root : ℕ) (page : ℕ → ℕ) (sz addr ip : ℕ) (s : Vm P)
    → sz + 8 ≤ 2 ^ 64
    → addr < 2 ^ 64
    → Backed P root page addr 8 s
    → Apart P root page ip addr 8
    → ((addr + 8 ≤ sz)
        × (mem' : Mem) × (fetchaddr P root sz addr ip s ≡ ok (pos 0, mem'))
        × Copied P root page ip addr 8 s.mem mem')
      ⊎ ((sz < addr + 8) × (fetchaddr P root sz addr ip s ≡ ok (negsuc 0, s.mem)))
unfolding fetchaddr
fetchaddr-Copied P root page sz addr ip s bound word backed far = elim (dec_lt sz (addr + 8)) [
  | yes out ↦ inr (out, ground (arith, out, bound, word))
  | no within ↦
      let (mem', run, copied) = copyin-Copied P root page ip addr 8 s backed far in
      let passes : (leb sz addr || ltb sz ((addr + 8) % 2 ^ 64)) ≡ false =
        ground (arith, within, bound, word) in
      inl (omega (arith, within), mem', rw (passes, run) refl, copied)
]
