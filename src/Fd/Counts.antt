-- ===== src/Fd/Counts.antt =====
-- dup and close of kernel/sysfile.c against the reference counts of kernel/file.c.
use native.Mathlib.Decide.{ℕ_discrete}
use os_spring.Prelude.{
  ℕ, zero, suc, ◌+◌, ◌<◌, ◌≡◌, ◌≢◌, ◌⊎◌, inl, inr, refl, sym, ap, ◌∙◌, List, [], ◌∷◌, Option, none,
  some, some-injective, arith, length, get_elem?, set, length-set, get_or-set_self,
  get_elem?-set_self, get_elem?-set_ne, get_or-set_ne, ℤ, pos, negsuc, ◌==◌, if◌then◌else◌, Outcome,
  ok, ◌>>=◌,
}
use os_spring.File.{File, Closing, still_open, closing, filedup, fileclose}
use os_spring.File.Refs.{fileclose-filedup, fileclose_lem, filedup_lem}
use os_spring.Fd.{Ofile, nofile, open_file, argfd, fdalloc, sys_dup, sys_close}

-- The descriptors that refer to file `f`.
abbrev pub uses : ℕ → Ofile → ℕ
uses f [] = 0
uses f (none ∷ ofile) = uses f ofile
uses f (some g ∷ ofile) = (if f == g then 1 else 0) + uses f ofile

-- Descriptor `n` was free and refers to `f` now; the others are as before.
pub record Got (f n : ℕ) (ofile ofile' : Ofile) : Type 0 where
  pub within : n < length ofile
  pub at : open_file ofile' n ≡ some f
  pub restored : set ofile' n none ≡ ofile
  pub counts : (g : ℕ) → uses g ofile' ≡ uses g ofile + (if g == f then 1 else 0)
  pub members : (m g : ℕ) → open_file ofile' m ≡ some g → (g ≡ f) ⊎ (open_file ofile m ≡ some g)
  pub same_length : length ofile' ≡ length ofile

first_descriptor : (f : ℕ) (ofile : Ofile) → Got f 0 (none ∷ ofile) (some f ∷ ofile)
first_descriptor f ofile = record {
  within = omega arith;
  at = refl;
  restored = refl;
  counts = λ g. omega arith;
  members = members;
  same_length = refl;
}
  where
    members :
        (m g : ℕ)
        → open_file (some f ∷ ofile) m ≡ some g
        → (g ≡ f) ⊎ (open_file (none ∷ ofile) m ≡ some g)
    members zero g e = inl (sym (some-injective f g e))
    members (suc m) g e = inr e

later_descriptor :
    (f n x : ℕ) (ofile ofile' : Ofile)
    → Got f n ofile ofile'
    → Got f (suc n) (some x ∷ ofile) (some x ∷ ofile')
later_descriptor f n x ofile ofile' h = record {
  within = omega (arith, h.within);
  at = h.at;
  restored = ap (λ o. some x ∷ o) h.restored;
  counts = λ g. omega (arith, h.counts g);
  members = members;
  same_length = ap suc h.same_length;
}
  where
    members :
        (m g : ℕ)
        → open_file (some x ∷ ofile') m ≡ some g
        → (g ≡ f) ⊎ (open_file (some x ∷ ofile) m ≡ some g)
    members zero g e = inr e
    members (suc m) g e = h.members m g e

pub fdalloc_lem :
    (f : ℕ) (ofile : Ofile)
    → (fdalloc f ofile ≡ (none, ofile))
      ⊎ ((n : ℕ) × (ofile' : Ofile) × (fdalloc f ofile ≡ (some n, ofile')) × Got f n ofile ofile')
unfolding fdalloc
fdalloc_lem f [] = inl refl
fdalloc_lem f (none ∷ ofile) = inr (0, some f ∷ ofile, refl, first_descriptor f ofile)
fdalloc_lem f (some x ∷ ofile) = elim (fdalloc_lem f ofile) [
  | inl e ↦ inl (rw e refl)
  | inr (n, ofile', e, got) ↦
      inr (suc n, some x ∷ ofile', rw e refl, later_descriptor f n x ofile ofile' got)
]

uses-set :
    (ofile : Ofile) (n f g : ℕ)
    → open_file ofile n ≡ some f
    → uses g (set ofile n none) + (if g == f then 1 else 0) ≡ uses g ofile
uses-set [] n f g e = cc e
uses-set (none ∷ ofile) zero f g e = cc e
uses-set (some x ∷ ofile) zero f g e = ground (arith, some-injective x f e)
uses-set (none ∷ ofile) (suc n) f g e = uses-set ofile n f g e
uses-set (some x ∷ ofile) (suc n) f g e = omega (arith, uses-set ofile n f g e)

-- Every file has as many references as descriptors of this process refer to it, with those that
-- `others` counts for the other processes; every descriptor refers to an entry of the table.
pub record Counted (others : ℕ → ℕ) (ofile : Ofile) (files : List File) : Type 0 where
  pub size : length ofile ≡ nofile
  pub refs :
      (f : ℕ) (file : File) → get_elem? files f ≡ some file → file.ref ≡ uses f ofile + others f
  pub known :
      (n f : ℕ) → open_file ofile n ≡ some f → (file : File) × (get_elem? files f ≡ some file)

argfd_there :
    (ofile : Ofile) (n f : ℕ)
    → n < nofile
    → open_file ofile n ≡ some f
    → argfd (pos n) ofile ≡ some (n, f)
unfolding argfd
argfd_there ofile n f h e = ground (arith, h, e)

-- An entry of the table rewritten, with the references that it then has.
set-Counted :
    (others : ℕ → ℕ) (ofile ofile' : Ofile) (files : List File) (f : ℕ) (old new : File)
    → Counted others ofile files
    → get_elem? files f ≡ some old
    → length ofile' ≡ nofile
    → new.ref ≡ uses f ofile' + others f
    → ((g : ℕ) → g ≢ f → uses g ofile' ≡ uses g ofile)
    → ((n g : ℕ) → open_file ofile' n ≡ some g → (g ≡ f) ⊎ (open_file ofile n ≡ some g))
    → Counted others ofile' (set files f new)
set-Counted others ofile ofile' files f old new c e l r same members =
    let here = get_elem?-set_self files f old new e in
    record {
      size = l;
      refs = λ g file at. elim (ℕ_discrete f g) [
        | yes fg ↦
            let new_file : new ≡ file =
              some-injective new file (sym here ∙ ap (get_elem? (set files f new)) fg ∙ at) in
            ap (λ (x : File). x.ref) (sym new_file) ∙ r ∙ ap (λ x. uses x ofile' + others x) fg
        | no ne ↦
            c.refs g file (sym (get_elem?-set_ne files f g new ne) ∙ at)
            ∙ omega (arith, same g (λ e. ne (sym e)))
      ];
      known = λ n g at. elim (ℕ_discrete f g) [
        | yes fg ↦ (new, ap (get_elem? (set files f new)) (sym fg) ∙ here)
        | no ne ↦
            let there : open_file ofile n ≡ some g = elim (members n g at) [
              | inl gf ↦ absurd (ne (sym gf))
              | inr old ↦ old
            ] in
            let (file, at') = c.known n g there in (file, get_elem?-set_ne files f g new ne ∙ at')
      ];
    }

module _ (others : ℕ → ℕ) (ofile : Ofile) (files : List File) (c : Counted others ofile files) where
  used : (n f : ℕ) → open_file ofile n ≡ some f → 0 < uses f ofile
  used n f e = ground (arith, uses-set ofile n f f e)

  open_file-set :
      (n m g : ℕ)
      → n < length ofile
      → open_file (set ofile n none) m ≡ some g
      → open_file ofile m ≡ some g
  open_file-set n m g h e = elim (ℕ_discrete n m) [
    | yes same ↦
        cc (sym (get_or-set_self ofile n none none h) ∙ ap (open_file (set ofile n none)) same ∙ e)
    | no ne ↦ sym (get_or-set_ne ofile n m none none ne) ∙ e
  ]

  -- close of a descriptor in use, where the counts are right: it does not panic, and they are right
  -- afterwards. It goes on to close the file exactly when no other descriptor refers to it.
  pub sys_close-Counted :
      (n f : ℕ)
      → n < nofile
      → open_file ofile n ≡ some f
      → (todo : Closing) × (ofile' : Ofile) × (files' : List File) × (sys_close (pos n) ofile files
          ≡ ok (pos 0, todo, ofile', files'))
        × Counted others ofile' files'
        × (open_file ofile' n ≡ none)
        × (0 < uses f ofile' + others f → todo ≡ still_open)
        × ((file : File)
            → get_elem? files f ≡ some file
            → uses f ofile' + others f ≡ 0
            → todo ≡ closing file)
  unfolding sys_close
  sys_close-Counted n f h e =
      let (file, at) = c.known n f e in
      let gone = uses-set ofile n f f e in
      let (todo, file', closed, refs, more, last) =
        fileclose_lem files f file at (omega (arith, c.refs f file at, used n f e)) in
      let there = argfd_there ofile n f h e in
      let left : file'.ref ≡ uses f (set ofile n none) + others f =
        ground (arith, refs, c.refs f file at, gone) in
      (
        todo,
        set ofile n none,
        set files f file',
        rw (sys_close, there, closed) refl,
        set-Counted others ofile (set ofile n none) files f file file' c at
            (length-set ofile n none ∙ c.size) left
            (λ g ne. ground (arith, uses-set ofile n f g e, ne))
            (λ m g x. inr (open_file-set n m g (omega (arith, h, c.size)) x)),
        get_or-set_self ofile n none none (omega (arith, h, c.size)),
        λ z. more (omega (arith, z, left)),
        λ x at_x z.
            last (omega (arith, z, left)) ∙ ap closing (some-injective file x (sym at ∙ at_x)),
      )

  -- dup of a descriptor in use, where the counts are right: it fails and changes nothing when no
  -- descriptor is free. Otherwise the counts are right afterwards, and closing the descriptor that it
  -- answers closes nothing and leaves the descriptors and the table of files as they were.
  sys_close-sys_dup :
      (n f : ℕ)
      → n < nofile
      → open_file ofile n ≡ some f
      → (sys_dup (pos n) ofile files ≡ ok (negsuc 0, ofile, files))
        ⊎ ((new : ℕ) × (ofile' : Ofile) × (files' : List File) × (sys_dup (pos n) ofile files
              ≡ ok (pos new, ofile', files'))
            × Counted others ofile' files'
            × (sys_close (pos new) ofile' files' ≡ ok (pos 0, still_open, ofile, files)))
  unfolding sys_dup sys_close
  sys_close-sys_dup n f h e =
      let (file, at) = c.known n f e in
      let some_refs : 0 < file.ref = omega (arith, c.refs f file at, used n f e) in
      let there = argfd_there ofile n f h e in
      let dup_end : Option ℕ × Ofile → Outcome (ℤ × Ofile × List File) = λ r. elim r.0 [
        | none ↦ ok (negsuc 0, r.1, files)
        | some new ↦ filedup f files >>= λ files'. ok (pos new, r.1, files')
      ] in
      elim (fdalloc_lem f ofile) [
        | inl full ↦ inl (rw (sys_dup, there) (ap (λ (r : Option ℕ × Ofile). dup_end r) full))
        | inr (new, ofile', got, g) ↦
            let more = record file { ref = file.ref + 1 } in
            let duped = filedup_lem files f file at some_refs in
            let (files', duped', closed) = fileclose-filedup files f file at some_refs in
            let same_files : set files f more ≡ files' = cc (sym duped ∙ duped') in
            let there' = argfd_there ofile' new f (omega (arith, g.within, c.size)) g.at in
            let closed' = ap (fileclose f) same_files ∙ closed in
            inr (
              new,
              ofile',
              set files f more,
              rw (sys_dup, there) (ap (λ (r : Option ℕ × Ofile). dup_end r) got ∙ rw duped refl),
              set-Counted others ofile ofile' files f file more c at (g.same_length ∙ c.size)
                  (ground (arith, c.refs f file at, g.counts f))
                  (λ x ne. ground (arith, g.counts x, ne)) g.members,
              rw (sys_close, there', closed')
                  (ap (λ o. ok (pos 0, still_open, o, files)) g.restored),
            )
      ]
