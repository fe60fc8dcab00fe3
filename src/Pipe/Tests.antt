-- ===== src/Pipe/Tests.antt =====
-- Runs of the pipe of kernel/pipe.c.
use os_spring.Prelude.{
  ℕ, ◌+◌, [], ◌∷◌, replicate, true, false, Option, none, some, if◌then◌else◌, ltb, arith, ◌++◌, ◌^◌,
  ◌-◌,
}
use os_spring.Pipe.{Pipe, pipewrite_from, piperead_from}
use os_spring.Pipe.Contents.{IsValid}
use os_spring.Pipe.Transfer.{Writes, pipewrite_from-Writes, Reads, piperead_from-Reads}

-- The counters have wrapped around and the pipe holds the bytes 5 and 6.
abbrev wrapped : Pipe
wrapped = record {
  bytes = 6 ∷ replicate 510 0 ++ 5 ∷ [];
  nread = 2 ^ 32 - 1;
  nwrite = 1;
  readopen = true;
  writeopen = true;
}

wrapped-IsValid : IsValid wrapped
wrapped-IsValid = record {
  storage = omega arith;
  read_in = omega arith;
  write_in = omega arith;
  fits = omega arith;
}

-- A user's memory of three bytes.
abbrev user : ℕ → Option ℕ
user a = if ltb a 3 then some (a + 40) else none

pipewrite_from-Writes_example :
    Writes user false 0 5 0 wrapped (pipewrite_from user false 5 0 0 wrapped)
pipewrite_from-Writes_example = pipewrite_from-Writes user false 0 5 0 wrapped wrapped-IsValid

piperead_from-Reads_example :
    Reads (λ a. ltb a 1) 0 5 0 wrapped (piperead_from (λ a. ltb a 1) 5 0 0 wrapped)
piperead_from-Reads_example = piperead_from-Reads (λ a. ltb a 1) 0 5 0 wrapped wrapped-IsValid
