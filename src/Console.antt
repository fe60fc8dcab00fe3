-- ===== src/Console.antt =====
-- kernel/console.c: the line editor behind the console's input, with its history of commands.
-- `screen` is what consputc has sent to the uart, newest first. The counters r, w and e are uint.
pub mod Line
pub mod Arrow
pub mod Read
mod Tests
use os_spring.Prelude.{
  ℕ, zero, suc, ◌+◌, ◌-◌, ◌*◌, ◌/◌, ◌%◌, ◌^◌, ◌≤◌, ◌<◌, ◌≡◌, ◌≢◌, ◌⊎◌, ◌↔◌, inl, inr, refl, sym,
  subst, ap, ◌∙◌, fun_ext, List, [], ◌∷◌, ◌++◌, map, Bool, true, false, not, ◌&&◌, ◌||◌, Option,
  none, some, some-injective, arith, All, All-map, length, get_elem?, get_or, set, take, drop,
  replicate, length-append, length-set, get_or-set_self, get_elem?-set_self, get_elem?-set_ne,
  get_or-set_ne, ℤ, pos, negsuc, sub_ℕ, sub_ℕ-eq_zero, ltb, leb, ◌==◌, ==_iff, Bool-cases,
  Option-cases, if◌then◌else◌, Outcome, ok, panic, fault, no_fuel, ◌>>=◌,
}

-- INPUT_BUF_SIZE and INPUT_BUF, MAX_HISTORY (kernel/console.h)
abbrev pub input_buf : ℕ
input_buf = 128

abbrev pub max_history : ℕ
max_history = 16

abbrev pub uint : ℕ → ℕ
uint n = n % 2 ^ 32

-- uint subtraction
abbrev pub minus : ℕ → ℕ → ℕ
minus a b = (a + 2 ^ 32 - b) % 2 ^ 32

-- C('P'), C('U'), C('H'), delete, C('D'), and the codes that are taken for the arrow keys
abbrev pub ctrl_p : ℕ
ctrl_p = 16

abbrev pub ctrl_u : ℕ
ctrl_u = 21

abbrev pub ctrl_h : ℕ
ctrl_h = 8

abbrev pub delete_key : ℕ
delete_key = 127

abbrev pub ctrl_d : ℕ
ctrl_d = 4

abbrev pub up_arrow : ℕ
up_arrow = 65

abbrev pub down_arrow : ℕ
down_arrow = 66

abbrev pub backspace : ℕ
backspace = 0x100

abbrev pub newline : ℕ
newline = 10

-- cons, historyBufferArray, oldcmd and firstSave
pub record Console : Type 0 where
  pub buf : List ℕ
  pub r : ℕ
  pub w : ℕ
  pub e : ℕ
  pub commands : List (List ℕ)
  pub lengths : List ℕ
  pub last_command : ℕ
  pub num_commands : ℕ
  pub current_history : ℤ
  pub oldcmd : Bool
  pub first_save : Bool
  pub screen : List ℕ

pub consputc : ℕ → Console → Console
consputc c s =
    if c == backspace
    then record s { screen = 8 ∷ 32 ∷ 8 ∷ s.screen }
    else record s { screen = (c % 256) ∷ s.screen }

-- while (cons.e != cons.w && cons.buf[(cons.e - 1) % INPUT_BUF_SIZE] != '\n') { ... }, with fuel
pub kill_line : ℕ → Console → Outcome Console
unfolding consputc
kill_line zero s = no_fuel
kill_line (suc f) s =
    let rest = kill_line f (consputc backspace (record s { e = minus s.e 1 })) in
    if not (s.e == s.w) && not (get_or s.buf (minus s.e 1 % input_buf) 0 == newline)
    then rest
    else ok s

pub erase_char : Console → Console
unfolding consputc
erase_char s = if s.e == s.w then s else consputc backspace (record s { e = minus s.e 1 })

abbrev pred_int : ℤ → ℤ
pred_int (pos zero) = negsuc 0
pred_int (pos (suc n)) = pos n
pred_int (negsuc n) = negsuc (suc n)

abbrev pub is_one : ℤ → Bool
is_one (pos n) = n == 1
is_one (negsuc n) = false

-- an int, from the 32 bits of a uint
abbrev pub to_int : ℕ → ℤ
to_int n = if ltb n (2 ^ 31) then pos n else negsuc (2 ^ 32 - n - 1)

-- while (length != 1) { if (cons.e != cons.r) { consputc(BACKSPACE); length--; } }, with fuel
pub erase_from : ℕ → ℤ → Console → Outcome Console
unfolding consputc
erase_from zero length s = no_fuel
erase_from (suc f) length s =
    let stay = erase_from f length s in
    let go = erase_from f (pred_int length) (consputc backspace s) in
    if is_one length then ok s else if s.e == s.r then stay else go

-- eraseCurrentLineOnScreen
pub erase_current_line : ℕ → Console → Outcome Console
erase_current_line fuel s =
    erase_from fuel (to_int (minus (minus s.e s.r) 1)) s >>= λ s'. ok (record s' { e = s'.r })

-- The loop of copyBufferToScreen; the first argument is length - i.
copy_from : ℕ → ℕ → List ℕ → Console → Console
unfolding consputc
copy_from zero i text s = s
copy_from (suc k) i text s =
    let c = get_or text i 0 in
    copy_from k (i + 1) text
      (consputc c (record s { buf = set s.buf (uint (s.r + i) % input_buf) c }))

-- copyBufferToScreen
copy_buffer_to_screen : List ℕ → ℕ → Console → Console
copy_buffer_to_screen text length s =
    let s' = copy_from length 0 text s in record s' { e = uint (s'.r + length) }

-- isHistory: whether the bytes from r on begin with "history"
is_prefix_at : List ℕ → ℕ → Console → Bool
is_prefix_at [] i s = true
is_prefix_at (c ∷ cs) i s =
    let rest = is_prefix_at cs (i + 1) s in
    if get_or s.buf (uint (s.r + i) % input_buf) 0 == c then rest else false

is_history : Console → Bool
is_history s = is_prefix_at (b'h' ∷ b'i' ∷ b's' ∷ b't' ∷ b'o' ∷ b'r' ∷ b'y' ∷ []) 0 s

-- The loop that saves the bytes of the line; the first argument is len - i.
save_bytes : ℕ → ℕ → Console → List ℕ → List ℕ
save_bytes zero i s row = row
save_bytes (suc k) i s row =
    save_bytes k (i + 1) s (set row i (get_or s.buf (uint (s.r + i) % input_buf) 0))

-- savecommandtohistory
pub save_command : Console → Console
unfolding save_bytes
save_command s =
    let len = minus (minus s.e s.r) 1 in
    let last = if s.first_save then s.last_command else (s.last_command + 1) % max_history in
    if is_history s || len == 0 then s else record s {
      num_commands = if ltb s.num_commands max_history then s.num_commands + 1 else s.num_commands;
      first_save = false;
      last_command = last;
      lengths = set s.lengths last len;
      commands = set s.commands last (save_bytes len 0 s (get_or s.commands last []));
      current_history = pos last;
    }

-- Echo, and store for consumption by consoleread.
pub store_char : ℕ → Console → Console
unfolding consputc
store_char c s =
    let s' = consputc c s in
    record s' { buf = set s'.buf (s'.e % input_buf) c; e = uint (s'.e + 1) }

-- A whole line has arrived: it is saved unless it comes from the history, and may be read.
pub end_line : Console → Console
end_line s =
    let saved = if s.oldcmd then s else save_command s in
    record saved { w = saved.e; oldcmd = false }

-- The default case of consoleintr; whether it wakes the readers.
pub put_char : ℕ → Console → Bool × Console
put_char c s =
    let c' = if c == 13 then newline else c in
    let s' = store_char c' s in
    if not (c == 0) && ltb (minus s.e s.r) input_buf
    then (if c' == newline || (c' == ctrl_d || minus s'.e s'.r == input_buf)
        then (true, end_line s')
        else (false, s'))
    else (false, s)

abbrev index_of : ℤ → ℕ
index_of (pos n) = n % max_history
index_of (negsuc n) = 0

-- The history line of an index, shown in place of the current line.
pub show_command : ℕ → ℕ → Console → Outcome Console
show_command fuel i s = erase_current_line fuel s >>= λ s'.
    ok (copy_buffer_to_screen (get_or s'.commands i []) (get_or s'.lengths i 0) s')

-- The case UP_ARROW: currentHistory is n.
pub up_key : ℕ → ℕ → Console → Outcome Console
unfolding show_command
up_key fuel n s = show_command fuel (n % max_history) s >>= λ s'.
    let m = if n == 0 then s'.last_command else n in
    ok (record s' {
      oldcmd = if n == s'.last_command then true else s'.oldcmd;
      current_history = elim (pred_int (pos m)) [
        | pos k ↦ pos (k % max_history)
        | negsuc k ↦ negsuc k
      ];
    })

-- The case DOWN_ARROW: currentHistory is n.
pub down_key : ℕ → ℕ → Console → Outcome Console
unfolding show_command
down_key fuel n s = show_command fuel (n % max_history) s >>= λ s'.
    if n == s'.last_command
    then ok (record s' { oldcmd = true; current_history = pos 0 })
    else ok (record s' { current_history = pos ((n + 1) % max_history) })

-- consoleintr; C('P') prints the process list, which is not kept here. currentHistory is -1 or not
-- negative; the answer says whether the readers are woken.
pub consoleintr : ℕ → ℕ → Console → Outcome (Bool × Console)
consoleintr fuel c s =
    let quiet : Outcome Console → Outcome (Bool × Console) = λ o. o >>= λ s'. ok (false, s') in
    if c == ctrl_p
    then ok (false, s)
    else if c == ctrl_u
    then quiet (kill_line fuel s)
    else if c == ctrl_h || c == delete_key
    then ok (false, erase_char s)
    else if c == up_arrow
    then elim s.current_history [ pos n ↦ quiet (up_key fuel n s) | negsuc _ ↦ ok (false, s) ]
    else if c == down_arrow
    then elim s.current_history [ pos n ↦ quiet (down_key fuel n s) | negsuc _ ↦ ok (false, s) ]
    else ok (put_char c s)
