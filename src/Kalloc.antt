-- ===== src/Kalloc.antt =====
-- xv6-public/kalloc.c: the allocator of 4096-byte pages. The free list is the list of its pages'
-- addresses; that the links lie in the free pages themselves is not modelled. `bounds` are the
-- addresses `end` and P2V(PHYSTOP), which the linker and memlayout.h give.
pub mod Ownership
pub mod Range
mod Tests
use hyu_ele3021_os.Base.{
  ℕ, zero, suc, ◌+◌, ◌-◌, ◌*◌, ◌/◌, ◌%◌, Bool, true, false, not, ◌||◌, Option, none, some, List, [],
  ◌∷◌, if◌then◌else◌, ◌==◌, ltb, leb,
}

abbrev pub pgsize : ℕ
pgsize = 4096

pub record Bounds : Type 0 where
  pub end : ℕ
  pub top : ℕ

-- `kfree(v)` on the free list; `none` is its panic.
unfoldable pub kfree : Bounds → List ℕ → ℕ → Option (List ℕ)
kfree b freelist v =
    if not (v % pgsize == 0) || ltb v b.end || leb b.top v then none else some (v ∷ freelist)

-- `kalloc()`: the free list, and the page or 0.
unfoldable pub kalloc : List ℕ → List ℕ × ℕ
kalloc [] = ([], 0)
kalloc (v ∷ freelist) = (freelist, v)

-- The loop of `freerange` from `p` on, with rounds left.
unfoldable pub free_from : ℕ → Bounds → ℕ → ℕ → List ℕ → Option (List ℕ)
free_from zero b p vend freelist = some freelist
free_from (suc n) b p vend freelist =
    if leb (p + pgsize) vend
    then elim (kfree b freelist p) [
      | none ↦ none
      | some freelist' ↦ free_from n b (p + pgsize) vend freelist'
    ]
    else some freelist

-- `freerange(vstart, vend)`: as many rounds as there are pages below `vend`.
unfoldable pub freerange : Bounds → ℕ → ℕ → List ℕ → Option (List ℕ)
freerange b vstart vend freelist =
    free_from (vend / pgsize) b ((vstart + pgsize - 1) / pgsize * pgsize) vend freelist
