-- ===== src/Proc/Sleep.antt =====
-- sleep, wakeup and kill of kernel/proc.c.
use os_spring.Prelude.{
  ℕ, zero, suc, ◌+◌, ◌≡◌, ◌≢◌, inl, inr, refl, ap, ◌∙◌, [], ◌∷◌, Bool, true, false, not, ◌&&◌,
  Option, none, some, some-injective, arith, length, get_elem?, set, get_elem?-set_self, ◌==◌,
  Bool-cases, if◌then◌else◌,
}
use os_spring.Proc.{
  Proc, Table, Chan, nowhere, at_object, sleeping, runnable, state_eq, chan_eq, is_me, wakeup,
  wakeup_from, hit, kill,
}

-- sleep, up to the call of sched; and its rest, after the process has been woken and run.
sleep_on : ℕ → Proc → Chan → Table → Table
sleep_on i p c t = set t i (record p { chan = c; state = sleeping })

sleep_done : ℕ → Proc → Table → Table
sleep_done i p t = set t i (record p { chan = nowhere })

-- What wakeup on `c` by `me` makes of the process of index `i`.
abbrev pub woken : Option ℕ → Chan → ℕ → Proc → Proc
woken me c i p =
    if not (is_me me i) && (state_eq p.state sleeping && chan_eq p.chan c)
    then record p { state = runnable }
    else p

wakeup_from_lem :
    (t : Table) (k : ℕ) (me : Option ℕ) (c : Chan) (i : ℕ) (p : Proc)
    → get_elem? t i ≡ some p
    → get_elem? (wakeup_from k me c t) i ≡ some (woken me c (k + i) p)
unfolding wakeup_from
wakeup_from_lem [] k me c i p e = cc e
wakeup_from_lem (q ∷ t) k me c zero p e =
    ap (λ (x : Proc). some (woken me c k x)) (some-injective q p e)
    ∙ ap (λ (n : ℕ). some (woken me c n p)) (omega arith)
wakeup_from_lem (q ∷ t) k me c (suc i) p e =
    wakeup_from_lem t (k + 1) me c i p e ∙ ap (λ (n : ℕ). some (woken me c n p)) (omega arith)

-- wakeup makes runnable exactly the processes other than the caller that sleep on the channel, and
-- changes nothing else in any of them.
pub wakeup_lem :
    (t : Table) (me : Option ℕ) (c : Chan) (i : ℕ) (p : Proc)
    → get_elem? t i ≡ some p
    → get_elem? (wakeup me c t) i ≡ some (woken me c i p)
unfolding wakeup
wakeup_lem t me c i p e =
    wakeup_from_lem t 0 me c i p e ∙ ap (λ (n : ℕ). some (woken me c n p)) (omega arith)

length-wakeup_from :
    (t : Table) (k : ℕ) (me : Option ℕ) (c : Chan) → length (wakeup_from k me c t) ≡ length t
unfolding wakeup_from
length-wakeup_from [] k me c = refl
length-wakeup_from (q ∷ t) k me c = ap suc (length-wakeup_from t (k + 1) me c)

length-wakeup : (t : Table) (me : Option ℕ) (c : Chan) → length (wakeup me c t) ≡ length t
unfolding wakeup
length-wakeup t me c = length-wakeup_from t 0 me c

-- The first entry with a pid.
unfoldable pub find_pid : ℕ → Table → Option (ℕ × Proc)
find_pid pid [] = none
find_pid pid (p ∷ ps) =
    if p.pid == pid
    then some (0, p)
    else elim (find_pid pid ps) [ none ↦ none | some (i, q) ↦ some (suc i, q) ]

-- What kill makes of the table, by what find_pid finds in it.
abbrev Kills : ℕ → Table → Option (ℕ × Proc) → Type 0
Kills pid t none = kill pid t ≡ (false, t)
Kills pid t (some (i, p)) = kill pid t ≡ (true, set t i (hit p))

-- kill fails, changing nothing, when no entry has the pid; otherwise it marks the first such entry
-- killed, makes it runnable if it sleeps, and leaves every other entry alone.
kill-Kills : (pid : ℕ) (t : Table) → Kills pid t (find_pid pid t)
unfolding kill find_pid
kill-Kills pid [] = refl
kill-Kills pid (p ∷ ps) = elim (Bool-cases (p.pid == pid)) [
  | inl e ↦ rw e (ground (arith, e))
  | inr e ↦ rw e (later (find_pid pid ps) (kill-Kills pid ps) e)
]
  where
    later :
        (r : Option (ℕ × Proc))
        → Kills pid ps r
        → (p.pid == pid) ≡ false
        → Kills pid (p ∷ ps) (elim r [ none ↦ none | some (i, q) ↦ some (suc i, q) ])
    later none h e = rw e (ap (λ (r : Bool × Table). (r.0, p ∷ r.1)) h)
    later (some (i, q)) h e = rw e (ap (λ (r : Bool × Table). (r.0, p ∷ r.1)) h)

-- No wakeup is lost: a wakeup on the channel by another process, after the sleeper has given up
-- its lock, finds it asleep and makes it runnable.
wakeup-sleep :
    (t : Table) (i j : ℕ) (p : Proc) (a : ℕ)
    → get_elem? t i ≡ some p
    → i ≢ j
    → get_elem? (wakeup (some j) (at_object a) (sleep_on i p (at_object a) t)) i
      ≡ some (record p { chan = at_object a; state = runnable })
unfolding sleep_on
wakeup-sleep t i j p a e ne =
    wakeup_lem (sleep_on i p (at_object a) t) (some j) (at_object a) i
      (record p { chan = at_object a; state = sleeping }) (get_elem?-set_self t i p _ e)
    ∙ ground arith
