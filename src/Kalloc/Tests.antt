-- ===== src/Kalloc/Tests.antt =====
-- Runs of the page allocator at concrete inputs: `end` is 8192, and the memory ends at 32768.
use hyu_ele3021_os.Base.{
  ℕ, ◌%◌, ◌/◌, ◌-◌, ◌++◌, ◌≤◌, ◌<◌, ◌≡◌, refl, List, [], ◌∷◌, some, none, arith, ◌⊎◌,
}
use hyu_ele3021_os.Kalloc.{Bounds, pgsize, kfree, kalloc, freerange, free_from}
use hyu_ele3021_os.Kalloc.Range.{pages, freerange-pages}
use hyu_ele3021_os.Kalloc.Ownership.{Pages, Owned, here, later, allocates, count, kalloc-exclusive}

abbrev small_machine : Bounds
small_machine = record { end = 8192; top = 32768 }

freerange_runs : freerange small_machine 9000 21000 [] ≡ some (16384 ∷ 12288 ∷ [])
unfolding freerange free_from kfree
freerange_runs = refl

kfree_panics : kfree small_machine [] 4096 ≡ none
unfolding kfree
kfree_panics = refl

abbrev two_free : Pages
two_free = record { free = 16384 ∷ 12288 ∷ []; held = [] }

two_free-Owned : Owned small_machine two_free
two_free-Owned = record {
  once = λ a. ground arith;
  real = λ a h. ground arith;
  some_end = omega arith;
}

abbrev one_free : List ℕ
one_free = 12288 ∷ []

-- After one page has been allocated.
kalloc-exclusive_example :
    (((kalloc one_free).1 ≡ 0) × (one_free ≡ []))
    ⊎ ((count (kalloc one_free).1 (16384 ∷ []) ≡ 0)
        × ((kalloc one_free).1 % pgsize ≡ 0)
        × (8192 ≤ (kalloc one_free).1)
        × ((kalloc one_free).1 < 32768))
unfolding kalloc
kalloc-exclusive_example =
    kalloc-exclusive two_free-Owned (later here (allocates (λ e. omega arith)))

-- The range 9000 .. 21000 holds two whole pages, 12288 and 16384.
freerange-pages_example :
    freerange small_machine 9000 21000 (24576 ∷ [])
    ≡ some (pages ((21000 - 12288) / pgsize) 12288 ++ 24576 ∷ [])
freerange-pages_example =
    freerange-pages small_machine 9000 21000 (24576 ∷ []) (omega arith) (omega arith)
