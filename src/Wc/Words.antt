-- ===== src/Wc/Words.antt =====
-- wc of user/wc.c counts the lines, the words and the bytes of the whole input, however it is read.
use os_spring.Prelude.{
  ℕ, suc, ◌+◌, ◌^◌, ◌≤◌, ◌<◌, ◌≡◌, inl, inr, refl, sym, ◌∙◌, List, [], ◌∷◌, ◌++◌, Bool, true, false,
  some, arith, length, ◌==◌, Bool-cases, if◌then◌else◌,
}
use os_spring.Wc.{Counts, is_blank, count_byte, count_buf, count_reads, wc}

-- The bytes of all reads, in order.
abbrev pub concat : List (List ℕ) → List ℕ
concat [] = []
concat (s ∷ ss) = s ++ concat ss

abbrev pub newlines : List ℕ → ℕ
newlines [] = 0
newlines (c ∷ t) = (if c == 10 then 1 else 0) + newlines t

abbrev push_word : List ℕ → List (List ℕ) → List (List ℕ)
push_word [] ws = ws
push_word (c ∷ w) ws = (c ∷ w) ∷ ws

-- The word that a text begins with, which may be empty, and the later words.
abbrev cut : List ℕ → List ℕ × List (List ℕ)
cut [] = ([], [])
cut (c ∷ t) = let r = cut t in if is_blank c then ([], push_word r.0 r.1) else (c ∷ r.0, r.1)

-- The words of a text: its longest runs of bytes that are not blank.
abbrev pub words : List ℕ → List (List ℕ)
words t = push_word (cut t).0 (cut t).1

count_buf-append : (s t : List ℕ) (k : Counts) → count_buf (s ++ t) k ≡ count_buf t (count_buf s k)
unfolding count_buf
count_buf-append [] t k = refl
count_buf-append (b ∷ s) t k = count_buf-append s t (count_byte b k)

count_reads-concat :
    (bufs : List (List ℕ)) (k : Counts) → count_reads bufs k ≡ count_buf (concat bufs) k
unfolding count_reads count_buf
count_reads-concat [] k = refl
count_reads-concat (buf ∷ bufs) k =
    count_reads-concat bufs (count_buf buf k) ∙ sym (count_buf-append buf (concat bufs) k)

-- The words that begin in a text, when the byte before it is in a word or is not.
abbrev new_words : Bool → List ℕ → ℕ
new_words true t = length (cut t).1
new_words false t = length (words t)

new_words_step :
    (inword : Bool) (b : ℕ) (t : List ℕ)
    → new_words inword (b ∷ t)
      ≡ (if is_blank b then new_words false t else (if inword then 0 else 1) + new_words true t)
new_words_step true b t = elim (Bool-cases (is_blank b)) [
  | inl blank ↦ ground (arith, blank)
  | inr ink ↦ ground (arith, ink)
]
new_words_step false b t = elim (Bool-cases (is_blank b)) [
  | inl blank ↦ ground (arith, blank)
  | inr ink ↦ ground (arith, ink)
]

-- The counts are of bytes read so far, and with `n` more they stay below the bound of an int.
record Fits (k : Counts) (n : ℕ) : Type 0 where
  bound : k.c + n < 2 ^ 31
  lines : k.l ≤ k.c
  words : k.w ≤ k.c

count_byte_w :
    (b : ℕ) (t : List ℕ) (k : Counts) (n : ℕ)
    → Fits k (suc n)
    → (count_byte b k).w + new_words (count_byte b k).inword t ≡ k.w + new_words k.inword (b ∷ t)
unfolding count_byte
count_byte_w b t k n f = elim (Bool-cases (is_blank b)) [
  | inl blank ↦ ground (arith, blank, new_words_step k.inword b t)
  | inr ink ↦ elim (Bool-cases k.inword) [
    | inl inside ↦ ground (arith, ink, inside, new_words_step true b t)
    | inr outside ↦ ground (arith, ink, outside, f.bound, f.words, new_words_step false b t)
  ]
]

count_byte_l :
    (b : ℕ) (k : Counts) (m n : ℕ)
    → Fits k (suc n)
    → (count_byte b k).l + m ≡ k.l + ((if b == 10 then 1 else 0) + m)
unfolding count_byte
count_byte_l b k m n f = ground (arith, f.bound, f.lines)

count_byte_c : (b : ℕ) (k : Counts) (n : ℕ) → Fits k (suc n) → (count_byte b k).c + n ≡ k.c + suc n
unfolding count_byte
count_byte_c b k n f = ground (arith, f.bound)

count_byte-Fits : (b : ℕ) (k : Counts) (n : ℕ) → Fits k (suc n) → Fits (count_byte b k) n
unfolding count_byte
count_byte-Fits b k n f = record {
  bound = ground (arith, f.bound);
  lines = ground (arith, f.bound, f.lines);
  words = ground (arith, f.bound, f.words);
}

count_buf_lem :
    (t : List ℕ) (k : Counts)
    → Fits k (length t)
    → ((count_buf t k).l ≡ k.l + newlines t)
      × ((count_buf t k).w ≡ k.w + new_words k.inword t)
      × ((count_buf t k).c ≡ k.c + length t)
unfolding count_buf
count_buf_lem [] k f = (omega arith, nothing k.inword, omega arith)
  where
    nothing : (inword : Bool) → k.w ≡ k.w + new_words inword []
    nothing true = omega arith
    nothing false = omega arith
count_buf_lem (b ∷ t) k f =
    let n = length t in
    let (l, w, c) = count_buf_lem t (count_byte b k) (count_byte-Fits b k n f) in
    (l ∙ count_byte_l b k (newlines t) n f, w ∙ count_byte_w b t k n f, c ∙ count_byte_c b k n f)

-- For an input of fewer than 2 ^ 31 bytes, wc answers the number of newlines, of words and of bytes of the
-- whole input, however the reads cut it, unless a read fails.
pub wc_lem :
    (bufs : List (List ℕ))
    → length (concat bufs) < 2 ^ 31
    → wc bufs false
      ≡ some (newlines (concat bufs), length (words (concat bufs)), length (concat bufs))
unfolding wc
wc_lem bufs small =
    let zero_counts : Counts = record { l = 0; w = 0; c = 0; inword = false } in
    let (l, w, c) =
      count_buf_lem (concat bufs) zero_counts
        (record { bound = omega (arith, small); lines = omega arith; words = omega arith }) in
    ground (arith, count_reads-concat bufs zero_counts, l, w, c)
