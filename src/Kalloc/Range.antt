-- ===== src/Kalloc/Range.antt =====
-- Which pages `freerange` of kalloc.c frees.
use hyu_ele3021_os.Base.{
  ℕ, zero, suc, ◌+◌, ◌-◌, ◌*◌, ◌/◌, ◌%◌, ◌<◌, ◌≤◌, ◌≡◌, refl, sym, ap, ◌∙◌, true, false, not, ◌||◌,
  ◌==◌, ltb, leb, some, List, [], ◌∷◌, ◌++◌, arith, ◌⊎◌, inl, inr, Bool-cases,
}
use mathlib.Core.List.{append_assoc}
use hyu_ele3021_os.Kalloc.{Bounds, pgsize, kfree, free_from, freerange}

-- `k` pages in a row from `p` on, the last one first.
pub pages : ℕ → ℕ → List ℕ
pages zero p = []
pages (suc k) p = (p + k * pgsize) ∷ pages k p

-- The first page boundary at or after `v`: PGROUNDUP.
abbrev pub round_up : ℕ → ℕ
round_up v = (v + pgsize - 1) / pgsize * pgsize

pages-first : (k p : ℕ) → pages (suc k) p ≡ pages k (p + pgsize) ++ p ∷ []
unfolding pages
pages-first zero p = let at : p + 0 * pgsize ≡ p = omega arith in rw (at, pages) refl
pages-first (suc k) p =
    let at : p + suc k * pgsize ≡ p + pgsize + k * pgsize = omega arith in
    rw (at, pages) (ap (λ l. (p + pgsize + k * pgsize) ∷ l) (pages-first k p))

kfree-some :
    (b : Bounds) (freelist : List ℕ) (v : ℕ)
    → v % pgsize ≡ 0
    → b.end ≤ v
    → v < b.top
    → kfree b freelist v ≡ some (v ∷ freelist)
unfolding kfree
kfree-some b freelist v aligned low high =
    let ok : (not (v % pgsize == 0) || ltb v b.end || leb b.top v) ≡ false =
      ground (arith, aligned, low, high) in
    rw (ok, kfree) refl

free_from-pages :
    (n k : ℕ) (b : Bounds) (p vend : ℕ) (freelist : List ℕ)
    → p % pgsize ≡ 0
    → b.end ≤ p
    → vend ≤ b.top
    → k ≤ n
    → (p + k * pgsize ≤ vend) ⊎ (k ≡ 0)
    → vend < p + suc k * pgsize
    → free_from n b p vend freelist ≡ some (pages k p ++ freelist)
unfolding free_from pages
free_from-pages zero zero b p vend freelist aligned low high le fits past = refl
free_from-pages zero (suc k) b p vend freelist aligned low high le fits past = absurd (omega arith)
free_from-pages (suc n) zero b p vend freelist aligned low high le fits past =
    let over : leb (p + pgsize) vend ≡ false = ground (arith, past) in rw (over, free_from) refl
free_from-pages (suc n) (suc k) b p vend freelist aligned low high le fits past =
    let in_range : p + suc k * pgsize ≤ vend = elim fits [
      | inl h ↦ h
      | inr z ↦ absurd (omega (arith, z))
    ] in
    let more : leb (p + pgsize) vend ≡ true = ground (arith, in_range) in
    let freed = kfree-some b freelist p aligned low (omega (arith, in_range, high)) in
    let rest =
      free_from-pages n k b (p + pgsize) vend (p ∷ freelist) (omega (arith, aligned))
        (omega (arith, low)) high (omega (arith, le)) (inl (omega (arith, in_range)))
        (omega (arith, past)) in
    rw (more, freed, free_from)
      (rest
        ∙ ap some (sym (append_assoc (pages k (p + pgsize)) (p ∷ []) freelist))
        ∙ ap (λ l. some (l ++ freelist)) (sym (pages-first k p)))

-- `freerange(vstart, vend)` of addresses between `end` and P2V(PHYSTOP) does not panic and frees, each
-- once, just the whole pages that start on a page boundary at or after `vstart` and end at or before
-- `vend`: they are put in front of the free list, the last one first.
pub freerange-pages :
    (b : Bounds) (vstart vend : ℕ) (freelist : List ℕ)
    → b.end ≤ vstart
    → vend ≤ b.top
    → freerange b vstart vend freelist
      ≡ some (pages ((vend - round_up vstart) / pgsize) (round_up vstart) ++ freelist)
unfolding freerange
freerange-pages b vstart vend freelist low high =
    free_from-pages (vend / pgsize) ((vend - round_up vstart) / pgsize) b (round_up vstart) vend
      freelist (omega arith) (omega (arith, low)) high (omega arith) fits (omega arith)
  where
    fits :
        (round_up vstart + (vend - round_up vstart) / pgsize * pgsize ≤ vend)
        ⊎ ((vend - round_up vstart) / pgsize ≡ 0)
    fits = elim (Bool-cases (leb (round_up vstart) vend)) [
      | inl y ↦ inl (ground (arith, y))
      | inr o ↦ inr (ground (arith, o))
    ]
