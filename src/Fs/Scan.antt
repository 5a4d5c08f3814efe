-- ===== src/Fs/Scan.antt =====
-- The scan of one block of the free map by `balloc` of xv6-public/fs.c.
use hyu_ele3021_os.Base.{
  ℕ, zero, suc, ◌+◌, ◌/◌, ◌%◌, ◌≤◌, ◌<◌, ◌≡◌, refl, sym, subst, Bool, true, false, ◌&&◌, Option,
  none, some, arith, ltb, Bool-cases, inl, inr,
}
use native.Mathlib.Decide.{ℕ_discrete}
use hyu_ele3021_os.Fs.{bpb, Block}
use hyu_ele3021_os.Fs.Alloc.{bit, scan_bits}

abbrev pub bit_at : Block → ℕ → Bool
bit_at x j = bit (x (j / 8)) (j % 8)

abbrev pub Scanned : ℕ → Block → ℕ → ℕ → Option ℕ → Type 0
Scanned size x b bi none = (j : ℕ) → bi ≤ j → j < bpb → b + j < size → bit_at x j ≡ true
Scanned size x b bi (some j) =
    (bi ≤ j)
    × (j < bpb)
    × (b + j < size)
    × (bit_at x j ≡ false)
    × ((i : ℕ) → bi ≤ i → i < j → bit_at x i ≡ true)

Scanned-step :
    (size : ℕ) (x : Block) (b bi : ℕ) (r : Option ℕ)
    → bit_at x bi ≡ true
    → Scanned size x b (bi + 1) r
    → Scanned size x b bi r
Scanned-step size x b bi none on h = λ j low high inside. elim (ℕ_discrete bi j) [
  | yes e ↦ subst (λ i. bit_at x i ≡ true) e on
  | no other ↦ h j (omega arith) high inside
]
Scanned-step size x b bi (some j) on h = (
  omega (arith, h.0),
  h.1,
  h.2,
  h.3,
  λ i low high. elim (ℕ_discrete bi i) [
    | yes e ↦ subst (λ i'. bit_at x i' ≡ true) e on
    | no other ↦ h.4 i (omega arith) high
  ],
)

pub scan_bits-Scanned :
    (k size : ℕ) (x : Block) (b bi : ℕ)
    → bpb < k + bi
    → Scanned size x b bi (scan_bits k size x b bi)
unfolding scan_bits
scan_bits-Scanned zero size x b bi enough = λ j low high inside. absurd (omega arith)
scan_bits-Scanned (suc k) size x b bi enough = elim (Bool-cases (ltb bi bpb && ltb (b + bi) size)) [
  | inr over ↦
      let e : scan_bits (suc k) size x b bi ≡ none = rw (over, scan_bits) refl in
      subst (Scanned size x b bi) (sym e) (λ j low high inside. absurd (ground (arith, over)))
  | inl inside ↦ elim (Bool-cases (bit_at x bi)) [
    | inr free ↦
        let e : scan_bits (suc k) size x b bi ≡ some bi = rw (inside, free, scan_bits) refl in
        subst (Scanned size x b bi) (sym e) (
          omega arith,
          ground (arith, inside),
          ground (arith, inside),
          free,
          λ i low high. absurd (omega arith),
        )
    | inl on ↦
        let e : scan_bits (suc k) size x b bi ≡ scan_bits k size x b (bi + 1) =
          rw (inside, on, scan_bits) refl in
        subst (Scanned size x b bi) (sym e) (
          Scanned-step size x b bi (scan_bits k size x b (bi + 1)) on
            (scan_bits-Scanned k size x b (bi + 1) (omega arith)))
  ]
]
