-- ===== src/Locks/Exclusion.antt =====
-- Mutual exclusion of the spin lock of xv6-public/spinlock.c.
use hyu_ele3021_os.Base.Words.{dec32}
use hyu_ele3021_os.Base.{
  ℕ, ◌≡◌, ◌≢◌, refl, sym, ◌∙◌, ap, subst, Bool, true, false, not, ◌&&◌, ◌||◌, none, some, arith,
  ◌==◌, if◌then◌else◌, Bool-cases, inl, inr,
}
use mathlib.Core.Option.{some-injective}
use hyu_ele3021_os.Locks.{
  Cpu, pushcli, popcli, Phase, outside, spinning, taken, inside, leaving, System, holding, put_cpu,
  acquire, xchg, set_owner, release, unlock,
}
use hyu_ele3021_os.Locks.Invariant.{
  Step, acquires, spins, owns, releases, unlocks, Reach, start, then_, has_lock, is_inside, CliOk,
  Inv, Start-Inv, next-Inv,
}

inside-has_lock : (p : Phase) → is_inside p ≡ true → has_lock p ≡ true
inside-has_lock outside h = absurd (cc)
inside-has_lock spinning h = absurd (cc)
inside-has_lock taken h = refl
inside-has_lock inside h = refl
inside-has_lock leaving h = refl

not_inside : (p : Phase) → (has_lock p ≡ true → ⊥) → is_inside p ≡ false
not_inside p no_lock = elim (Bool-cases (is_inside p)) [
  | inl y ↦ absurd (no_lock (inside-has_lock p y))
  | inr o ↦ o
]

and-false : (b : Bool) → (b && false) ≡ false
and-false true = refl
and-false false = refl

holding-inside : (s : System) (c : ℕ) → Inv s → holding s c ≡ is_inside (s.phase c)
holding-inside s c inv = elim (Bool-cases (is_inside (s.phase c))) [
  | inl y ↦ (λ i. inv.locks c (inside-has_lock (s.phase c) y) i && (inv.owner c ∙ y) i) ∙ sym y
  | inr o ↦ ap (λ b. s.locked && b) (inv.owner c ∙ o) ∙ and-false s.locked ∙ sym o
]

-- No other CPU has the lock while this one has it.
only :
    (s : System) (c : ℕ)
    → Inv s
    → has_lock (s.phase c) ≡ true
    → (d : ℕ) → d ≢ c
    → has_lock (s.phase d) ≡ true
    → ⊥
only s c inv h d other h' = other (inv.once d c h' h)

-- The parts of a step of the CPU `c`.
acquire-Inv :
    (s : System) (c : ℕ)
    → Inv s
    → s.phase c ≡ outside
    → (t : System) × (acquire s c ≡ some t) × Inv t
unfolding acquire pushcli
acquire-Inv s c inv at =
    let out : holding s c ≡ false = holding-inside s c inv ∙ ap is_inside at in
    let zero_ : (s.cpus c).ncli ≡ 0 = subst (λ p. CliOk p (s.cpus c)) at (inv.clis c) in
    (
      put_cpu s c (pushcli (s.cpus c)) spinning,
      rw (out, acquire) refl,
      next-Inv s c (pushcli (s.cpus c)) spinning s.locked s.cpu inv (omega (arith, zero_), refl)
          (λ d o h. inv.locks d h) (λ h. absurd (cc)) (λ h. absurd (cc)) (λ d o. inv.owner d)
          (inv.owner c ∙ ap is_inside at),
    )

xchg-Inv : (s : System) (c : ℕ) → Inv s → s.phase c ≡ spinning → Inv (xchg s c)
unfolding xchg
xchg-Inv s c inv at = elim (Bool-cases s.locked) [
  | inl busy ↦ let e : xchg s c ≡ s = rw (busy, xchg) refl in subst Inv (sym e) inv
  | inr free ↦
      let e : xchg s c ≡ record (put_cpu s c (s.cpus c) taken) { locked = true } =
        rw (free, xchg) refl in
      subst Inv (sym e) (
        next-Inv s c (s.cpus c) taken true s.cpu inv
          (subst (λ p. CliOk p (s.cpus c)) at (inv.clis c)) (λ d o h. refl) (λ h. refl)
          (λ h d o h'. absurd (cc (sym (inv.locks d h') ∙ free))) (λ d o. inv.owner d)
          (inv.owner c ∙ ap is_inside at))
]

set_owner-Inv : (s : System) (c : ℕ) → Inv s → s.phase c ≡ taken → Inv (set_owner s c)
unfolding set_owner
set_owner-Inv s c inv at =
    let mine : has_lock (s.phase c) ≡ true = ap has_lock at in
    next-Inv s c (s.cpus c) inside s.locked (some c) inv
      (subst (λ p. CliOk p (s.cpus c)) at (inv.clis c)) (λ d o h. inv.locks d h)
      (λ h. inv.locks c mine) (λ h. only s c inv mine)
      (λ d o.
        let t : (c == d) ≡ false = ground (arith, o) in
        t ∙ sym (not_inside (s.phase d) (λ h. only s c inv mine d o h)))
      (ground arith)

-- The last `popcli`.
popcli_last :
    (v : Cpu) → v.ncli ≡ 1 → v.interrupts ≡ false → (w : Cpu) × (popcli v ≡ some w) × (w.ncli ≡ 0)
unfolding popcli
popcli_last v one off =
    let some_ : (v.interrupts || (v.ncli == 0)) ≡ false = ground (arith, one, off) in
    (
      record v {
        ncli = dec32 v.ncli;
        interrupts = if dec32 v.ncli == 0 && v.intena then true else v.interrupts;
      },
      ap
          (λ b.
            if b
            then none
            else some (record v {
              ncli = dec32 v.ncli;
              interrupts = if dec32 v.ncli == 0 && v.intena then true else v.interrupts;
            }))
          some_,
      omega (arith, one),
    )

at_most_one :
    (c d : ℕ) (a b : Bool) → (a ≡ true → b ≡ true → c ≡ d) → (a && b && not (c == d)) ≡ false
at_most_one c d true true h = let e : c ≡ d = h refl refl in ground (arith, e)
at_most_one c d true false h = refl
at_most_one c d false true h = refl
at_most_one c d false false h = refl

release-Inv :
    (s : System) (c : ℕ)
    → Inv s
    → s.phase c ≡ inside
    → (t : System) × (release s c ≡ some t) × Inv t
unfolding release
release-Inv s c inv at =
    let held : holding s c ≡ true = holding-inside s c inv ∙ ap is_inside at in
    let mine : has_lock (s.phase c) ≡ true = ap has_lock at in
    (
      record (put_cpu s c (s.cpus c) leaving) { cpu = none },
      rw (held, release) refl,
      next-Inv s c (s.cpus c) leaving s.locked none inv
          (subst (λ p. CliOk p (s.cpus c)) at (inv.clis c)) (λ d o h. inv.locks d h)
          (λ h. inv.locks c mine) (λ h. only s c inv mine)
          (λ d o. sym (not_inside (s.phase d) (λ h. only s c inv mine d o h))) refl,
    )

unlock-Inv :
    (s : System) (c : ℕ)
    → Inv s
    → s.phase c ≡ leaving
    → (t : System) × (unlock s c ≡ some t) × Inv t
unfolding unlock popcli
unlock-Inv s c inv at =
    let (one, off) = subst (λ p. CliOk p (s.cpus c)) at (inv.clis c) in
    let mine : has_lock (s.phase c) ≡ true = ap has_lock at in
    let (v, popped, done) = popcli_last (s.cpus c) one off in
    (
      record (put_cpu s c v outside) { locked = false },
      rw (popped, unlock) refl,
      next-Inv s c v outside false s.cpu inv done (λ d o h. absurd (only s c inv mine d o h))
          (λ h. absurd (cc)) (λ h. absurd (cc)) (λ d o. inv.owner d)
          (inv.owner c ∙ ap is_inside at),
    )

Step-Inv : (s t : System) → Inv s → Step s t → Inv t
Step-Inv s _ inv (acquires c t at e) =
    let (t', e', i) = acquire-Inv s c inv at in subst Inv (some-injective _ _ (sym e' ∙ e)) i
Step-Inv s _ inv (spins c at) = xchg-Inv s c inv at
Step-Inv s _ inv (owns c at) = set_owner-Inv s c inv at
Step-Inv s _ inv (releases c t at e) =
    let (t', e', i) = release-Inv s c inv at in subst Inv (some-injective _ _ (sym e' ∙ e)) i
Step-Inv s _ inv (unlocks c t at e) =
    let (t', e', i) = unlock-Inv s c inv at in subst Inv (some-injective _ _ (sym e' ∙ e)) i

Reach-Inv : (s : System) → Reach s → Inv s
Reach-Inv s (start z) = Start-Inv s z
Reach-Inv _ (then_ {s} {t} r step) = Step-Inv s t (Reach-Inv s r) step

-- The next step of a CPU in a phase is no panic.
abbrev Proceeds : System → ℕ → Phase → Type 0
Proceeds s c outside = (t : System) × (acquire s c ≡ some t)
Proceeds s c spinning = Unit {0}
Proceeds s c taken = Unit {0}
Proceeds s c inside = (t : System) × (release s c ≡ some t)
Proceeds s c leaving = (t : System) × (unlock s c ≡ some t)

proceeds : (s : System) (c : ℕ) (p : Phase) → Inv s → s.phase c ≡ p → Proceeds s c p
proceeds s c outside inv at = let (t, e, i) = acquire-Inv s c inv at in (t, e)
proceeds s c spinning inv at = tt
proceeds s c taken inv at = tt
proceeds s c inside inv at = let (t, e, i) = release-Inv s c inv at in (t, e)
proceeds s c leaving inv at = let (t, e, i) = unlock-Inv s c inv at in (t, e)

-- However the CPUs' accesses interleave, no two of them have the lock at a time, from the `xchg` that
-- takes it to the write that gives it up; `holding` is true for a CPU just while it is in its critical
-- section; and none of the panics of `acquire`, `release` and `popcli` is reached.
pub lock-exclusive :
    (s : System) (c d : ℕ)
    → Reach s
    → ((has_lock (s.phase c) && has_lock (s.phase d) && not (c == d)) ≡ false)
      × (holding s c ≡ is_inside (s.phase c))
      × Proceeds s c (s.phase c)
lock-exclusive s c d reach =
    let inv = Reach-Inv s reach in
    (
      at_most_one c d (has_lock (s.phase c)) (has_lock (s.phase d)) (inv.once c d),
      holding-inside s c inv,
      proceeds s c (s.phase c) inv refl,
    )
