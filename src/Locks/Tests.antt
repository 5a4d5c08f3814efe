-- ===== src/Locks/Tests.antt =====
-- A run of the spin lock at concrete inputs: CPU 0 takes the lock.
use hyu_ele3021_os.Base.{◌≡◌, refl, true, false, none, some}
use hyu_ele3021_os.Locks.{
  Cpu, outside, System, holding, put_cpu, acquire, xchg, set_owner, pushcli, release, spinning,
}
use hyu_ele3021_os.Locks.Invariant.{Reach, start, then_, acquires, spins, owns}
use hyu_ele3021_os.Locks.Exclusion.{lock-exclusive}

abbrev idle : Cpu
idle = record { ncli = 0; intena = false; interrupts = true }

abbrev all_idle : System
all_idle = record { locked = false; cpu = none; cpus = λ c. idle; phase = λ c. outside }

abbrev asked : System
asked = put_cpu all_idle 0 (pushcli idle) spinning

asked_is : acquire all_idle 0 ≡ some asked
unfolding acquire
asked_is = refl

-- CPU 0 is in its critical section.
abbrev critical : System
critical = set_owner (xchg asked 0) 0

critical-Reach : Reach critical
unfolding set_owner xchg
critical-Reach =
    then_
      (then_
        (then_
          (start (record {
            unlocked = refl;
            no_owner = refl;
            all_outside = λ c. refl;
            no_cli = λ c. refl;
          }))
          (acquires 0 asked refl asked_is))
        (spins 0 refl))
      (owns 0 refl)

lock-exclusive_example :
    (false ≡ false) × (holding critical 0 ≡ true) × ((t : System) × (release critical 0 ≡ some t))
unfolding set_owner xchg
lock-exclusive_example = lock-exclusive critical 0 1 critical-Reach
