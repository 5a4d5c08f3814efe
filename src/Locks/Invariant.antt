-- ===== src/Locks/Invariant.antt =====
-- The runs of the CPUs through the spin lock of xv6-public/spinlock.c, and what stays true of them.

use hyu_ele3021_os.Base.{
  ℕ, ◌≡◌, ◌≢◌, sym, ◌∙◌, ap, subst, Bool, true, false, Option, none, some, arith, ◌==◌,
  if◌then◌else◌, inl, inr, ◌⊎◌,
}
use native.Mathlib.Decide.{ℕ_discrete}
use hyu_ele3021_os.Locks.{
  Cpu, owned_by, Phase, outside, spinning, taken, inside, leaving, System, put_cpu, acquire, xchg,
  set_owner, release, unlock,
}

-- A CPU takes the next step of a run through `acquire` and `release`; none of them panics.
pub data Step (s : System) : System → Type 0 where
  acquires : (c : ℕ) (t : System) → s.phase c ≡ outside → acquire s c ≡ some t → Step s t
  spins : (c : ℕ) → s.phase c ≡ spinning → Step s (xchg s c)
  owns : (c : ℕ) → s.phase c ≡ taken → Step s (set_owner s c)
  releases : (c : ℕ) (t : System) → s.phase c ≡ inside → release s c ≡ some t → Step s t
  unlocks : (c : ℕ) (t : System) → s.phase c ≡ leaving → unlock s c ≡ some t → Step s t

-- The lock is free and the CPUs are outside, with interrupts as they like.
pub record Start (s : System) : Type 0 where
  pub unlocked : s.locked ≡ false
  pub no_owner : s.cpu ≡ none
  pub all_outside : (c : ℕ) → s.phase c ≡ outside
  pub no_cli : (c : ℕ) → (s.cpus c).ncli ≡ 0

pub data Reach : System → Type 0 where
  start : {s : System} → Start s → Reach s
  then_ : {s t : System} → Reach s → Step s t → Reach t

-- The CPU has the lock.
abbrev pub has_lock : Phase → Bool
has_lock outside = false
has_lock spinning = false
has_lock taken = true
has_lock inside = true
has_lock leaving = true

abbrev pub is_inside : Phase → Bool
is_inside outside = false
is_inside spinning = false
is_inside taken = false
is_inside inside = true
is_inside leaving = false

-- In the lock's functions a CPU has interrupts off and one `pushcli`.
abbrev pub CliOk : Phase → Cpu → Type 0
CliOk outside v = v.ncli ≡ 0
CliOk spinning v = (v.ncli ≡ 1) × (v.interrupts ≡ false)
CliOk taken v = (v.ncli ≡ 1) × (v.interrupts ≡ false)
CliOk inside v = (v.ncli ≡ 1) × (v.interrupts ≡ false)
CliOk leaving v = (v.ncli ≡ 1) × (v.interrupts ≡ false)

pub record Inv (s : System) : Type 0 where
  pub locks : (c : ℕ) → has_lock (s.phase c) ≡ true → s.locked ≡ true
  pub once : (c d : ℕ) → has_lock (s.phase c) ≡ true → has_lock (s.phase d) ≡ true → c ≡ d
  pub owner : (c : ℕ) → owned_by s.cpu c ≡ is_inside (s.phase c)
  pub clis : (c : ℕ) → CliOk (s.phase c) (s.cpus c)

pub Start-Inv : (s : System) → Start s → Inv s
Start-Inv s z = record {
  locks = λ c h. absurd (cc (sym h ∙ ap has_lock (z.all_outside c)));
  once = λ c d h h'. absurd (cc (sym h ∙ ap has_lock (z.all_outside c)));
  owner = λ c. ap (λ o. owned_by o c) z.no_owner ∙ sym (ap is_inside (z.all_outside c));
  clis = λ c. subst (λ p. CliOk p (s.cpus c)) (sym (z.all_outside c)) (z.no_cli c);
}

-- A change of one CPU and of the lock's words.
module _ (s : System) (c : ℕ) (v : Cpu) (p : Phase) (locked : Bool) (cpu : Option ℕ)
    (inv : Inv s) where
  abbrev pub next : System
  next = record (put_cpu s c v p) { locked = locked; cpu = cpu }

  phase-at :
      (d : ℕ)
      → ((d ≡ c) × (next.phase d ≡ p) × (next.cpus d ≡ v))
        ⊎ ((d ≢ c) × (next.phase d ≡ s.phase d) × (next.cpus d ≡ s.cpus d))
  phase-at d = elim (ℕ_discrete d c) [
    | yes e ↦
        let t : (d == c) ≡ true = ground (arith, e) in
        inl (e, ap (λ b. if b then p else s.phase d) t, ap (λ b. if b then v else s.cpus d) t)
    | no o ↦
        let t : (d == c) ≡ false = ground (arith, o) in
        inr (o, ap (λ b. if b then p else s.phase d) t, ap (λ b. if b then v else s.cpus d) t)
  ]

  pub next-Inv :
      CliOk p v
      → ((d : ℕ) → d ≢ c → has_lock (s.phase d) ≡ true → locked ≡ true)
      → (has_lock p ≡ true → locked ≡ true)
      → (has_lock p ≡ true → (d : ℕ) → d ≢ c → has_lock (s.phase d) ≡ true → ⊥)
      → ((d : ℕ) → d ≢ c → owned_by cpu d ≡ is_inside (s.phase d))
      → owned_by cpu c ≡ is_inside p
      → Inv next
  next-Inv ok others mine alone held held_mine = record {
    locks = λ d h. elim (phase-at d) [
      | inl (e, ph, _) ↦ mine (sym (ap has_lock ph) ∙ h)
      | inr (o, ph, _) ↦ others d o (sym (ap has_lock ph) ∙ h)
    ];
    once = λ d f h h'. elim (phase-at d) [
      | inl (e, ph, _) ↦ elim (phase-at f) [
        | inl (e', ph', _) ↦ e ∙ sym e'
        | inr (o', ph', _) ↦
            absurd (alone (sym (ap has_lock ph) ∙ h) f o' (sym (ap has_lock ph') ∙ h'))
      ]
      | inr (o, ph, _) ↦ elim (phase-at f) [
        | inl (e', ph', _) ↦
            absurd (alone (sym (ap has_lock ph') ∙ h') d o (sym (ap has_lock ph) ∙ h))
        | inr (o', ph', _) ↦ inv.once d f (sym (ap has_lock ph) ∙ h) (sym (ap has_lock ph') ∙ h')
      ]
    ];
    owner = λ d. elim (phase-at d) [
      | inl (e, ph, _) ↦ ap (owned_by cpu) e ∙ held_mine ∙ sym (ap is_inside ph)
      | inr (o, ph, _) ↦ held d o ∙ sym (ap is_inside ph)
    ];
    clis = λ d. elim (phase-at d) [
      | inl (e, ph, at) ↦ subst (λ x. CliOk x (next.cpus d)) (sym ph) (subst (CliOk p) (sym at) ok)
      | inr (o, ph, at) ↦
          subst (λ x. CliOk x (next.cpus d)) (sym ph)
            (subst (CliOk (s.phase d)) (sym at) (inv.clis d))
    ];
  }
