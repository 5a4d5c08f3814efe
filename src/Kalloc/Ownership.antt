-- ===== src/Kalloc/Ownership.antt =====
-- A page of kalloc.c is free or has one owner, never both and never two.
use hyu_ele3021_os.Base.{
  ℕ, suc, ◌+◌, ◌%◌, ◌≤◌, ◌<◌, ◌≡◌, ◌≢◌, refl, sym, subst, some, List, [], ◌∷◌, arith, if◌then◌else◌,
  ◌==◌, Bool-cases, ◌⊎◌, inl, inr, ltb, leb, not, ◌||◌,
}
use mathlib.Core.Option.{some-injective}
use hyu_ele3021_os.Kalloc.{Bounds, pgsize, kfree, kalloc}

-- The free list, and the pages that callers hold.
pub record Pages : Type 0 where
  pub free : List ℕ
  pub held : List ℕ

abbrev pub count : ℕ → List ℕ → ℕ
count a [] = 0
count a (b ∷ bs) = if a == b then suc (count a bs) else count a bs

-- The pages without one copy of `a`.
abbrev pub without : ℕ → List ℕ → List ℕ
without a [] = []
without a (b ∷ bs) = if a == b then bs else b ∷ without a bs

-- A caller allocates a page, or frees one that it holds; `kalloc` that gives 0 has failed.
pub data Step (b : Bounds) (s : Pages) : Pages → Type 0 where
  allocates :
      (kalloc s.free).1 ≢ 0
      → Step b s (record { free = (kalloc s.free).0; held = (kalloc s.free).1 ∷ s.held })
  fails : (kalloc s.free).1 ≡ 0 → Step b s (record { free = (kalloc s.free).0; held = s.held })
  frees :
      (v : ℕ) {freelist : List ℕ}
      → 0 < count v s.held
      → kfree b s.free v ≡ some freelist
      → Step b s (record { free = freelist; held = without v s.held })

pub data Run (b : Bounds) (s : Pages) : Pages → Type 0 where
  here : Run b s s
  later : {t u : Pages} → Run b s t → Step b t u → Run b s u

-- The free pages are pages of the machine, and each page is free or held, once.
pub record Owned (b : Bounds) (s : Pages) : Type 0 where
  pub once : (a : ℕ) → count a s.free + count a s.held ≤ 1
  pub real : (a : ℕ) → 0 < count a s.free → (a % pgsize ≡ 0) × (b.end ≤ a) × (a < b.top)
  pub some_end : 0 < b.end

count-without :
    (a v : ℕ) (bs : List ℕ)
    → 0 < count v bs
    → (if a == v then suc (count a (without v bs)) else count a (without v bs)) ≡ count a bs
count-without a v [] h = absurd (omega arith)
count-without a v (b ∷ bs) h = elim (Bool-cases (v == b)) [
  | inl same ↦ ground arith
  | inr other ↦ let rest = count-without a v bs (ground arith) in ground (arith, rest)
]

kalloc-Owned :
    {b : Bounds} (free held : List ℕ)
    → Owned b (record { free = free; held = held })
    → (kalloc free).1 ≢ 0
    → Owned b (record { free = (kalloc free).0; held = (kalloc free).1 ∷ held })
unfolding kalloc
kalloc-Owned [] held o some_page = absurd (some_page refl)
kalloc-Owned (v ∷ vs) held o some_page = record {
  once = λ a. let h = o.once a in ground (arith, h);
  real = λ a h. o.real a (ground (arith, h));
  some_end = o.some_end;
}

kalloc-fails :
    {b : Bounds} (free held : List ℕ)
    → Owned b (record { free = free; held = held })
    → (kalloc free).1 ≡ 0
    → (free ≡ []) × Owned b (record { free = (kalloc free).0; held = held })
unfolding kalloc
kalloc-fails [] held o no_page = (refl, o)
kalloc-fails (v ∷ vs) held o no_page =
    let (align, low, top) = o.real v (ground arith) in absurd (omega (arith, o.some_end))

kfree-Owned :
    {b : Bounds} (v : ℕ) (free held freelist : List ℕ)
    → Owned b (record { free = free; held = held })
    → 0 < count v held
    → kfree b free v ≡ some freelist
    → Owned b (record { free = freelist; held = without v held })
unfolding kfree
kfree-Owned {b} v free held freelist o mine e =
    elim (Bool-cases (not (v % pgsize == 0) || ltb v b.end || leb b.top v)) [
      | inl panics ↦ absurd (cc (rw (panics, kfree) at e))
      | inr fine ↦
          let is : freelist ≡ v ∷ free = sym (some-injective _ _ (rw (fine, kfree) at e)) in
          subst (λ f. Owned b (record { free = f; held = without v held })) (sym is)
            (record {
              once = λ a.
                  let h = o.once a in let c = count-without a v held mine in ground (arith, h, c);
              real = λ a h. elim (Bool-cases (a == v)) [
                | inl same ↦ ground arith
                | inr other ↦ o.real a (ground (arith, h))
              ];
              some_end = o.some_end;
            })
    ]

Step-Owned : {b : Bounds} {s t : Pages} → Step b s t → Owned b s → Owned b t
Step-Owned {b} {s} (allocates some_page) o = kalloc-Owned s.free s.held o some_page
Step-Owned {b} {s} (fails no_page) o = (kalloc-fails s.free s.held o no_page).1
Step-Owned {b} {s} (frees v {freelist} mine e) o = kfree-Owned v s.free s.held freelist o mine e

Run-Owned : {b : Bounds} {s t : Pages} → Run b s t → Owned b s → Owned b t
Run-Owned here o = o
Run-Owned (later r st) o = Step-Owned st (Run-Owned r o)

-- From a free list of distinct pages of the machine, while callers free only pages that they hold:
-- every page that `kalloc` gives is a page of the machine that nobody holds, and it gives 0 only when
-- no page is free.
pub kalloc-exclusive :
    {b : Bounds} {s t : Pages}
    → Owned b s
    → Run b s t
    → (((kalloc t.free).1 ≡ 0) × (t.free ≡ []))
      ⊎ ((count (kalloc t.free).1 t.held ≡ 0)
          × ((kalloc t.free).1 % pgsize ≡ 0)
          × (b.end ≤ (kalloc t.free).1)
          × ((kalloc t.free).1 < b.top))
unfolding kalloc
kalloc-exclusive {b} {s} {t} o r = given t.free t.held (Run-Owned r o)
  where
    given :
        (free held : List ℕ)
        → Owned b (record { free = free; held = held })
        → (((kalloc free).1 ≡ 0) × (free ≡ []))
          ⊎ ((count (kalloc free).1 held ≡ 0)
              × ((kalloc free).1 % pgsize ≡ 0)
              × (b.end ≤ (kalloc free).1)
              × ((kalloc free).1 < b.top))
    given [] held v = inl (refl, refl)
    given (p ∷ ps) held v =
        let (align, low, top) = v.real p (ground arith) in
        let h = v.once p in inr (ground (arith, h), align, low, top)
