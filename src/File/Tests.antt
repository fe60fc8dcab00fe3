-- ===== src/File/Tests.antt =====
-- Runs of kernel/file.c on a table of two entries.
use os_spring.Prelude.{ℕ, List, [], ◌∷◌, true, false}
use os_spring.File.{File, FileType, fd_none, fd_pipe}

abbrev a_file : FileType → ℕ → File
a_file type ref = record {
  type = type;
  ref = ref;
  readable = true;
  writable = false;
  pipe = 7;
  ip = 0;
  off = 0;
  major = 0;
}

abbrev files : List File
files = a_file fd_pipe 2 ∷ a_file fd_none 0 ∷ []
