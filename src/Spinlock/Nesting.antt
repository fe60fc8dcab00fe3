-- ===== src/Spinlock/Nesting.antt =====
-- push_off and pop_off of kernel/spinlock.c are matched.
use os_spring.Prelude.{
  ℕ, zero, suc, ◌-◌, ◌<◌, ◌≡◌, refl, ap, ◌∙◌, false, ◌&&◌, arith, ◌==◌, if◌then◌else◌, Outcome, ok,
  ◌>>=◌,
}
use os_spring.Spinlock.{Cpu, push_off, pop_off}

-- Inside a push_off interrupts are off.
abbrev pub IsMatched : Cpu → Type 0
IsMatched c = 0 < c.noff → c.intr ≡ false

abbrev push_offs : ℕ → Cpu → Cpu
push_offs zero c = c
push_offs (suc n) c = push_offs n (push_off c)

abbrev pop_offs : ℕ → Cpu → Outcome Cpu
pop_offs zero c = ok c
pop_offs (suc n) c = pop_offs n c >>= pop_off

-- One CPU is as deep as the other, with interrupts as on the other.
abbrev pub Same : Cpu → Cpu → Type 0
Same c d = (c.noff ≡ d.noff) × (c.intr ≡ d.intr) × (0 < d.noff → c.intena ≡ d.intena)

pop_off-Same :
    (c d : Cpu) → IsMatched c → Same d (push_off c) → (c' : Cpu) × (pop_off d ≡ ok c') × Same c' c
unfolding push_off pop_off
pop_off-Same c d m (depth, off, enabled) =
    let on : d.intena ≡ (if c.noff == 0 then c.intr else c.intena) = enabled (omega arith) in
    (
      record d { noff = d.noff - 1; intr = d.noff - 1 == 0 && d.intena },
      ground (arith, depth, off),
      (omega (arith, depth), ground (arith, depth, on, m), λ h. ground (arith, on, h)),
    )

-- n calls of push_off undone by n calls of pop_off do not panic, and leave the depth and whether
-- interrupts are enabled as they were, from a state in which interrupts are off inside a push_off.
pub pop_offs-push_offs :
    (n : ℕ) (c : Cpu) → IsMatched c → (c' : Cpu) × (pop_offs n (push_offs n c) ≡ ok c') × Same c' c
unfolding push_off
pop_offs-push_offs zero c m = (c, refl, (refl, refl, λ h. refl))
pop_offs-push_offs (suc n) c m =
    let (d, e, s) = pop_offs-push_offs n (push_off c) (λ h. refl) in
    let (c', e', s') = pop_off-Same c d m s in
    (c', ap (λ (o : Outcome Cpu). o >>= pop_off) e ∙ e', s')
