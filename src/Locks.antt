-- ===== src/Locks.antt =====
-- xv6-public/spinlock.c: one spin lock and the CPUs that use it. A step is one access to the lock's
-- memory by one CPU, so that the CPUs' runs through `acquire` and `release` interleave. Two steps are
-- more: `holding` reads both `locked` and `cpu`, in one step with what follows it, which in `release` is
-- the write of `cpu`. `none` is a panic.
pub mod Invariant
pub mod Exclusion
mod Tests
use hyu_ele3021_os.Base.Words.{inc32, dec32}
use hyu_ele3021_os.Base.{
  ℕ, zero, suc, ◌+◌, ◌-◌, Bool, true, false, not, ◌&&◌, ◌||◌, Option, none, some, ◌==◌,
  if◌then◌else◌,
}

-- The fields of `struct cpu` for interrupts, and FL_IF of its eflags; `ncli` is an `int` as its bit pattern.
pub record Cpu : Type 0 where
  pub ncli : ℕ
  pub intena : Bool
  pub interrupts : Bool

unfoldable pub pushcli : Cpu → Cpu
pushcli c = record {
  ncli = inc32 c.ncli;
  intena = if c.ncli == 0 then c.interrupts else c.intena;
  interrupts = false;
}

unfoldable pub popcli : Cpu → Option Cpu
popcli c =
    let n = dec32 c.ncli in
    if c.interrupts || c.ncli == 0
    then none
    else some
        (record c { ncli = n; interrupts = if n == 0 && c.intena then true else c.interrupts })

-- Where a CPU is: outside of `acquire` and `release`; in acquire's loop; past its `xchg`; in the critical
-- section; in release, past `lk->cpu = 0`.
pub data Phase : Type 0 where
  outside : Phase
  spinning : Phase
  taken : Phase
  inside : Phase
  leaving : Phase

-- `struct spinlock`, and the CPUs.
pub record System : Type 0 where
  pub locked : Bool
  pub cpu : Option ℕ
  pub cpus : ℕ → Cpu
  pub phase : ℕ → Phase

-- `lock->cpu == mycpu()`
abbrev pub owned_by : Option ℕ → ℕ → Bool
owned_by none c = false
owned_by (some o) c = o == c

-- `holding`; its `pushcli` and `popcli` undo each other, as both callers have called `pushcli`.
abbrev pub holding : System → ℕ → Bool
holding s c = s.locked && owned_by s.cpu c

abbrev pub put_cpu : System → ℕ → Cpu → Phase → System
put_cpu s c v p = record s {
  cpus = λ i. if i == c then v else s.cpus i;
  phase = λ i. if i == c then p else s.phase i;
}

-- `acquire` up to its loop.
unfoldable pub acquire : System → ℕ → Option System
acquire s c = if holding s c then none else some (put_cpu s c (pushcli (s.cpus c)) spinning)

-- A round of the loop: `xchg(&lk->locked, 1)`.
unfoldable pub xchg : System → ℕ → System
xchg s c = if s.locked then s else record (put_cpu s c (s.cpus c) taken) { locked = true }

-- `lk->cpu = mycpu()`
unfoldable pub set_owner : System → ℕ → System
set_owner s c = record (put_cpu s c (s.cpus c) inside) { cpu = some c }

-- `release` up to `lk->cpu = 0`.
unfoldable pub release : System → ℕ → Option System
release s c =
    if holding s c then some (record (put_cpu s c (s.cpus c) leaving) { cpu = none }) else none

-- The rest of `release`: the lock is given up, and `popcli`.
unfoldable pub unlock : System → ℕ → Option System
unlock s c = elim (popcli (s.cpus c)) [
  | none ↦ none
  | some v ↦ some (record (put_cpu s c v outside) { locked = false })
]
