-- ===== src/Fs/Content/Read.antt =====
-- readi of kernel/fs.c: which bytes it reads.
use native.Mathlib.Decide.{dec_lt}
use os_spring.Prelude.{
  ℕ, zero, suc, ◌+◌, ◌-◌, ◌*◌, ◌/◌, ◌%◌, ◌^◌, ◌≤◌, ◌<◌, ◌≡◌, ◌≢◌, inl, inr, sym, subst, ap, ◌∙◌,
  fun_ext, Bool, false, ◌&&◌, ◌||◌, arith, ℤ, pos, ltb, leb, Bool-cases, if◌then◌else◌, Outcome, ok,
  ◌>>=◌,
}
use os_spring.Cstring.{Mem}
use os_spring.Fs.{Superblock, Dinode, Inode, Fs, bsize, maxfile}
use os_spring.Fs.Map.Layout.{file_block}
use os_spring.Fs.Map.Found.{bmap_there}
use os_spring.Fs.Content.{min, put_bytes, overflows, either_copyout, readi_from, readi}

-- The byte at an offset of a file.
abbrev pub file_byte : Dinode → Fs → ℕ → ℕ
file_byte d fs o = fs.bytes (file_block d fs (o / bsize)) (o % bsize)

-- The blocks of the bytes from `off` on are allocated.
abbrev pub Backed : Dinode → Fs → ℕ → ℕ → Type 0
Backed d fs off len = (i : ℕ) → i < len → file_block d fs ((off + i) / bsize) ≢ 0

module _ (sb : Superblock) (d : Dinode) (fs : Fs) where
  module _ (copyout : ℕ → (ℕ → ℕ) → ℕ → Mem → Bool × Mem)
      (copyin : ℕ → ℕ → ℕ → Mem → (ℕ → ℕ) → Bool × (ℕ → ℕ)) where
    -- What a round that reads `m` bytes and the rest put together.
    put_rest :
        (dst off len m : ℕ) (mem : Mem)
        → m ≤ len
        → m ≤ bsize - off % bsize
        → put_bytes
            (dst + m)
            (λ i. file_byte d fs (off + m + i))
            (len - m)
            (put_bytes dst (λ i. fs.bytes (file_block d fs (off / bsize)) (off % bsize + i)) m mem)
          ≡ put_bytes dst (λ i. file_byte d fs (off + i)) len mem
    put_rest dst off len m mem h h' = fun_ext λ a.
        let i = a - dst in
        elim (Bool-cases (leb dst a && ltb i m)) [
          | inl now ↦
              let block : (off + i) / bsize ≡ off / bsize = ground (arith, now, h') in
              let place : (off + i) % bsize ≡ off % bsize + i = ground (arith, now, h') in
              let same : file_byte d fs (off + i)
                  ≡ fs.bytes (file_block d fs (off / bsize)) (off % bsize + i) =
                ap (λ x. fs.bytes (file_block d fs x) ((off + i) % bsize)) block
                ∙ ap (fs.bytes (file_block d fs (off / bsize))) place in
              ground (arith, now, h, same)
          | inr later ↦ elim (dec_lt a (dst + m)) [
            | yes before ↦ ground (arith, later, before, h)
            | no after ↦
                let place : off + m + (a - (dst + m)) ≡ off + i = omega (arith, after) in
                ground (arith, later, after, h, ap (file_byte d fs) place)
          ]
        ]

    put_none : (dst len : ℕ) (b : ℕ → ℕ) (mem : Mem) → len ≡ 0 → put_bytes dst b len mem ≡ mem
    put_none dst len b mem e = fun_ext λ a. ground (arith, e)

    readi_from_lem :
        (k dst off n tot : ℕ) (mem : Mem)
        → tot ≤ n
        → n - tot < k
        → off + (n - tot) ≤ maxfile * bsize
        → Backed d fs off (n - tot)
        → readi_from copyout copyin sb k false dst off n tot d mem fs
          ≡ ok (pos n, d, put_bytes dst (λ i. file_byte d fs (off + i)) (n - tot) mem, fs)
    unfolding readi_from either_copyout
    readi_from_lem zero dst off n tot mem h hk hm b = absurd (omega (arith, hk))
    readi_from_lem (suc k) dst off n tot mem h hk hm b = elim (dec_lt tot n) [
      | no done ↦
          let none_left : n - tot ≡ 0 = omega (arith, done) in
          let all : tot ≡ n = omega (arith, done, h) in
          let stop : readi_from copyout copyin sb (suc k) false dst off n tot d mem fs
              ≡ ok (pos tot, d, mem, fs) =
            ground (arith, done) in
          stop
          ∙ ap (λ x. ok (pos x, d, mem, fs)) all
          ∙ ap (λ x. ok (pos n, d, x, fs))
              (sym (put_none dst (n - tot) (λ i. file_byte d fs (off + i)) mem none_left))
      | yes more ↦
          let m = min (n - tot) (bsize - off % bsize) in
          let there : file_block d fs (off / bsize) ≢ 0 =
            subst (λ x. file_block d fs (x / bsize) ≢ 0) (omega arith)
              (b 0 (omega (arith, more))) in
          let e = bmap_there sb d fs (off / bsize) (omega (arith, hm, more)) there in
          let m_lem : (m ≤ n - tot) × (m ≤ bsize - off % bsize) × (0 < m) =
            (ground arith, ground arith, ground (arith, more)) in
          let mem' =
            put_bytes dst (λ i. fs.bytes (file_block d fs (off / bsize)) (off % bsize + i)) m mem in
          let left : n - (tot + m) ≡ n - tot - m = omega (arith, more) in
          let round : readi_from copyout copyin sb (suc k) false dst off n tot d mem fs
              ≡ readi_from copyout copyin sb k false (dst + m) (off + m) n (tot + m) d mem' fs =
            ground (arith, more, e, there) in
          round
          ∙ readi_from_lem k (dst + m) (off + m) n (tot + m) mem' (omega (arith, m_lem, h))
              (omega (arith, m_lem, more, hk)) (omega (arith, m_lem, hm))
              (λ i hi.
                subst (λ x. file_block d fs (x / bsize) ≢ 0) (omega arith)
                  (b (m + i) (omega (arith, m_lem, hi))))
          ∙ ap
              (λ l.
                ok (pos n, d, put_bytes (dst + m) (λ i. file_byte d fs (off + m + i)) l mem', fs))
              left
          ∙ ap (λ x. ok (pos n, d, x, fs)) (put_rest dst off (n - tot) m mem m_lem.0 m_lem.1)
    ]

-- The end of readi.
abbrev finish : Inode → Outcome (ℤ × Dinode × Mem × Fs) → Outcome (ℤ × Inode × Mem × Fs)
finish ip r = r >>= λ (x, d, mem, fs). ok (x, record ip { copy = d }, mem, fs)

-- readi to kernel memory at an offset within the file, with no overflow, where the bytes it covers stand
-- in allocated blocks: it reads the bytes of the file from there on, up to its end, answers how many,
-- writes no other byte of memory and changes nothing on the disk or in the inode.
pub readi_lem :
    (sb : Superblock) (fs : Fs) (copyout : ℕ → (ℕ → ℕ) → ℕ → Mem → Bool × Mem)
    (copyin : ℕ → ℕ → ℕ → Mem → (ℕ → ℕ) → Bool × (ℕ → ℕ)) (ip : Inode) (dst off n : ℕ) (mem : Mem)
    → off ≤ ip.copy.size
    → off + n < 2 ^ 32
    → ip.copy.size ≤ maxfile * bsize
    → let len = min n (ip.copy.size - off) in
      Backed ip.copy fs off len
      → readi copyout copyin sb ip false dst off n mem fs
        ≡ ok (pos len, ip, put_bytes dst (λ i. file_byte ip.copy fs (off + i)) len mem, fs)
unfolding readi
readi_lem sb fs copyout copyin ip dst off n mem h fits small b =
    let size = ip.copy.size in
    let len = min n (size - off) in
    let same : (if ltb size (off + n) then size - off else n) ≡ len = ground arith in
    let guard : (ltb size off || overflows off n) ≡ false = ground arith in
    let loop : ℕ → Outcome (ℤ × Inode × Mem × Fs) =
      λ l. finish ip (readi_from copyout copyin sb (suc l) false dst off l 0 ip.copy mem fs) in
    let start : readi copyout copyin sb ip false dst off n mem fs ≡ loop len =
      rw guard (ap loop same) in
    let body =
      readi_from_lem sb ip.copy fs copyout copyin (suc len) dst off len 0 mem (omega arith)
        (omega arith) (ground arith) (λ i hi. b i (omega (arith, hi))) in
    let zero_off : len - 0 ≡ len = omega arith in
    start
    ∙ ap (finish ip) body
    ∙ ap (λ l. ok (pos len, ip, put_bytes dst (λ i. file_byte ip.copy fs (off + i)) l mem, fs))
        zero_off
