-- ===== src/Fd/Tests.antt =====
-- Runs of dup and close of kernel/sysfile.c, with one open file.
use os_spring.Prelude.{
  ℕ, zero, suc, ◌+◌, ◌<◌, ◌≡◌, refl, sym, ap, List, [], ◌∷◌, true, none, some, some-injective,
  arith, get_elem?, replicate, pos, ok,
}
use os_spring.File.{File, Closing, still_open, closing, fd_inode}
use os_spring.Fd.{Ofile, open_file, sys_close}
use os_spring.Fd.Pipes.{sys_pipe}
use os_spring.Fd.Pipes.Undo.{Piping, sys_pipe-Piping}
use os_spring.Fd.Counts.{uses, Counted, sys_close-Counted}

abbrev opened : File
opened = record {
  type = fd_inode;
  ref = 2;
  readable = true;
  writable = true;
  pipe = 0;
  ip = 3;
  off = 0;
  major = 0;
}

-- Descriptor 0 is open, and another process has the file open too.
abbrev descriptors : Ofile
descriptors = some 0 ∷ replicate 15 none

abbrev others : ℕ → ℕ
others f = 1

descriptors-Counted : Counted others descriptors (opened ∷ [])
descriptors-Counted = record { size = refl; refs = refs; known = known }
  where
    refs :
        (f : ℕ) (file : File)
        → get_elem? (opened ∷ []) f ≡ some file
        → file.ref ≡ uses f descriptors + 1
    refs zero file at = ap (λ (x : File). x.ref) (sym (some-injective opened file at))
    refs (suc f) file at = cc at

    known :
        (n f : ℕ)
        → open_file descriptors n ≡ some f
        → (file : File) × (get_elem? (opened ∷ []) f ≡ some file)
    known zero f e = (opened, ap (get_elem? (opened ∷ [])) (sym (some-injective 0 f e)))
    known (suc n) f e = absurd (none_there 15 n f e)
      where
        none_there : (k n f : ℕ) → ¬ (open_file (replicate k none) n ≡ some f)
        none_there zero n f e = cc e
        none_there (suc k) zero f e = cc e
        none_there (suc k) (suc n) f e = none_there k n f e

sys_close-Counted_example :
    (todo : Closing) × (ofile' : Ofile) × (files' : List File) × (sys_close
        (pos 0)
        descriptors
        (opened ∷ [])
      ≡ ok (pos 0, todo, ofile', files'))
    × Counted others ofile' files'
    × (open_file ofile' 0 ≡ none)
    × (0 < uses 0 ofile' + others 0 → todo ≡ still_open)
    × ((file : File)
        → get_elem? (opened ∷ []) 0 ≡ some file
        → uses 0 ofile' + others 0 ≡ 0
        → todo ≡ closing file)
sys_close-Counted_example =
    sys_close-Counted others descriptors (opened ∷ []) descriptors-Counted 0 0 (omega arith) refl

-- sys_pipe with every entry of the table in use.
sys_pipe-Piping_example :
    Piping
      (λ a b. true)
      (some 4096)
      descriptors
      (opened ∷ [])
      (sys_pipe (λ a b. true) (some 4096) descriptors (opened ∷ []))
sys_pipe-Piping_example = sys_pipe-Piping (λ a b. true) (some 4096) descriptors (opened ∷ [])
