-- ===== src/MultiLevel/Tests.antt =====
-- Runs of the multi-level scheduler at concrete inputs.
use hyu_ele3021_os.Base.{ℕ, ◌≡◌, refl, List, [], ◌∷◌, some}
use hyu_ele3021_os.Mlfq.{runnable, sleeping, ProcState}
use hyu_ele3021_os.Thread.{Proc, zero_proc}
use hyu_ele3021_os.MultiLevel.{picked, fcfs, fcfs_from, next_even}
use hyu_ele3021_os.MultiLevel.Order.{Right, fcfs-Right}

abbrev process : ℕ → ProcState → Proc
process pid state = record zero_proc { pid = pid; state = state }

abbrev odd_ones : List Proc
odd_ones = process 7 runnable ∷ process 2 sleeping ∷ process 3 runnable ∷ process 5 runnable ∷ []

fcfs_runs : fcfs odd_ones ≡ picked (some 2)
unfolding fcfs_from
fcfs_runs = refl

next_even_runs :
    next_even (process 2 sleeping ∷ process 3 runnable ∷ process 4 runnable ∷ []) 1 ≡ some 2
unfolding next_even
next_even_runs = refl

fcfs-Right_example : Right odd_ones (fcfs odd_ones)
fcfs-Right_example = fcfs-Right odd_ones
