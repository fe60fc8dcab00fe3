-- ===== src/Log.antt =====
-- kernel/log.c: the redo log that makes the disk writes of a system call atomic.
-- A block is its 256 words of 32 bits. `view` is what bread() returns for each block: the buffer
-- cache's copy, or the disk's; the modified blocks are pinned by bpin, so the cache keeps them
-- (`pins` counts them). `bwrite` copies the view of a block to the disk; `past` keeps every state
-- the disk has been in, newest first: a crash leaves one of them.
-- The log's lock is held across each step; the sleeps of begin_op are its answer `none`.
pub mod Disk
pub mod Install
pub mod Recover
pub mod Commit
pub mod Absorb
pub mod Space
mod Tests
use os_spring.Prelude.{
  ℕ, zero, suc, ◌+◌, ◌-◌, ◌*◌, ◌/◌, ◌%◌, ◌^◌, ◌≤◌, ◌<◌, ◌≡◌, ◌≢◌, ◌⊎◌, ◌↔◌, inl, inr, refl, sym, ap,
  ◌∙◌, fun_ext, List, [], ◌∷◌, ◌++◌, map, Bool, true, false, not, ◌&&◌, ◌||◌, Option, none, some,
  arith, All, All-map, length, get_elem?, get_or, set, take, drop, replicate, length-append,
  length-set, get_or-set_self, get_or-set_ne, ltb, leb, ◌==◌, ==_iff, Bool-cases, Option-cases,
  if◌then◌else◌, Outcome, ok, panic, fault, no_fuel, ◌>>=◌,
}

-- MAXOPBLOCKS and LOGSIZE of kernel/param.h
abbrev pub maxopblocks : ℕ
maxopblocks = 10

abbrev pub logsize : ℕ
logsize = maxopblocks * 3

-- uint32 words of a block
abbrev pub Block : Type 0
Block = ℕ → ℕ

abbrev pub write {ℓ} : {A : Type ℓ} → (ℕ → A) → ℕ → A → ℕ → A
write f i v j = if i == j then v else f j

-- `struct log` and its header, with what the log sees of the cache and the disk
pub record Log : Type 0 where
  pub start : ℕ
  pub size : ℕ
  pub outstanding : ℕ
  pub committing : Bool
  pub dev : ℕ
  pub n : ℕ
  pub block : ℕ → ℕ
  pub pins : ℕ → ℕ
  pub view : ℕ → Block
  pub disk : ℕ → Block
  pub past : List (ℕ → Block)

bwrite : ℕ → Log → Log
bwrite b s = let d = write s.disk b (s.view b) in record s { disk = d; past = d ∷ s.past }

-- bpin and bunpin of kernel/bio.c, by block number
abbrev pub bpin : ℕ → Log → Log
bpin b s = record s { pins = write s.pins b ((s.pins b + 1) % 2 ^ 32) }

abbrev pub bunpin : ℕ → Log → Log
bunpin b s = record s { pins = write s.pins b ((s.pins b + 2 ^ 32 - 1) % 2 ^ 32) }

-- One round of the loop of install_trans.
pub install_one : Bool → ℕ → Log → Log
unfolding bwrite
install_one recovering tail s =
    let dst = s.block tail in
    let s₁ = bwrite dst (record s { view = write s.view dst (s.view (s.start + tail + 1)) }) in
    if recovering then s₁ else bunpin dst s₁

-- for (tail = 0; tail < log.lh.n; tail++): the first argument is the rounds left.
pub install_from : ℕ → Bool → ℕ → Log → Log
install_from zero recovering tail s = s
install_from (suc k) recovering tail s =
    install_from k recovering (tail + 1) (install_one recovering tail s)

pub install_trans : Bool → Log → Log
install_trans recovering s = install_from s.n recovering 0 s

-- The header block: word 0 is n, word i + 1 is block[i].
pub read_blocks : ℕ → ℕ → Block → (ℕ → ℕ) → ℕ → ℕ
read_blocks zero i hb block = block
read_blocks (suc k) i hb block = read_blocks k (i + 1) hb (write block i (hb (i + 1)))

pub read_head : Log → Log
read_head s =
    let hb = s.view s.start in record s { n = hb 0; block = read_blocks (hb 0) 0 hb s.block }

pub write_blocks : ℕ → ℕ → (ℕ → ℕ) → Block → Block
write_blocks zero i block hb = hb
write_blocks (suc k) i block hb = write_blocks k (i + 1) block (write hb (i + 1) (block i))

pub write_head : Log → Log
unfolding bwrite
write_head s =
    let hb = write_blocks s.n 0 s.block (write (s.view s.start) 0 s.n) in
    bwrite s.start (record s { view = write s.view s.start hb })

pub recover_from_log : Log → Log
recover_from_log s = write_head (record (install_trans true (read_head s)) { n = 0 })

-- sizeof(struct logheader) is 4 * (LOGSIZE + 1).
initlog : ℕ → ℕ → ℕ → Log → Outcome Log
initlog dev logstart nlog s =
    if leb 1024 (4 * (logsize + 1))
    then panic
    else ok (recover_from_log (record s { start = logstart; size = nlog; dev = dev }))

-- One attempt of begin_op; `none` where it goes to sleep on the log.
pub begin_op : Log → Option Log
begin_op s =
    if s.committing
    then none
    else if ltb logsize (s.n + (s.outstanding + 1) * maxopblocks)
    then none
    else some (record s { outstanding = s.outstanding + 1 })

pub write_log_one : ℕ → Log → Log
unfolding bwrite
write_log_one tail s =
    let to = s.start + tail + 1 in
    bwrite to (record s { view = write s.view to (s.view (s.block tail)) })

pub write_log_from : ℕ → ℕ → Log → Log
write_log_from zero tail s = s
write_log_from (suc k) tail s = write_log_from k (tail + 1) (write_log_one tail s)

pub write_log : Log → Log
write_log s = write_log_from s.n 0 s

pub commit : Log → Log
commit s =
    if ltb 0 s.n
    then write_head (record (install_trans false (write_head (write_log s))) { n = 0 })
    else s

-- `log.outstanding -= 1` is below 0 when no operation is under way; every caller has begun one.
pub end_op : Log → Outcome Log
end_op s =
    if s.committing
    then panic
    else if s.outstanding == 1
    then ok
        (record (commit (record s { outstanding = 0; committing = true })) { committing = false })
    else ok (record s { outstanding = s.outstanding - 1 })

-- for (i = 0; i < log.lh.n; i++) if (log.lh.block[i] == blockno) break;
pub find_block : ℕ → ℕ → (ℕ → ℕ) → ℕ → ℕ
find_block zero i block blockno = i
find_block (suc k) i block blockno =
    let rest = find_block k (i + 1) block blockno in if block i == blockno then i else rest

pub log_write : ℕ → Log → Outcome Log
unfolding find_block
log_write blockno s =
    if leb logsize s.n || leb (s.size - 1) s.n
    then panic
    else if ltb s.outstanding 1
    then panic
    else let i = find_block s.n 0 s.block blockno in
      let s₁ = record s { block = write s.block i blockno } in
      ok (if i == s.n then bpin blockno (record s₁ { n = s.n + 1 }) else s₁)
