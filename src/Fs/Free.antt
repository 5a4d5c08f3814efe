-- ===== src/Fs/Free.antt =====
-- The number of free blocks of xv6-public/fs.c's free map, and `balloc`.
use hyu_ele3021_os.Base.{
  ℕ, zero, suc, ◌<◌, ◌≡◌, refl, sym, ◌∙◌, ap, Bool, true, false, arith, ◌==◌, if◌then◌else◌,
  Bool-cases, inl, inr,
}
use native.Mathlib.Decide.{ℕ_discrete}
use hyu_ele3021_os.Fs.{Disk, Superblock}
use hyu_ele3021_os.Fs.Bitmap.{used}

abbrev count : ℕ → (ℕ → Bool) → ℕ
count zero u = 0
count (suc n) u = if u n then count n u else suc (count n u)

-- The number of blocks that are not used.
abbrev pub free : Superblock → Disk → ℕ
free sb d = count sb.size (used sb d)

count-full : (n : ℕ) (u : ℕ → Bool) → ((c : ℕ) → c < n → u c ≡ true) → count n u ≡ 0
count-full zero u h = refl
count-full (suc n) u h =
    ap (λ b. if b then count n u else suc (count n u)) (h n (omega arith))
    ∙ count-full n u (λ c low. h c (omega arith))

count-same : (n : ℕ) (u v : ℕ → Bool) → ((c : ℕ) → c < n → v c ≡ u c) → count n v ≡ count n u
count-same zero u v h = refl
count-same (suc n) u v h =
    let rest : count n v ≡ count n u = count-same n u v (λ c low. h c (omega arith)) in
    λ i. if h n (omega arith) i then rest i else suc (rest i)

count-taken :
    (n : ℕ) (u v : ℕ → Bool) (b : ℕ)
    → b < n
    → u b ≡ false
    → ((c : ℕ) → c < n → v c ≡ (if c == b then true else u c))
    → count n u ≡ suc (count n v)
count-taken zero u v b low was h = absurd (omega arith)
count-taken (suc n) u v b low was h = elim (ℕ_discrete b n) [
  | yes e ↦
      let self : (n == b) ≡ true = ground (arith, e) in
      let now : v n ≡ true = h n (omega arith) ∙ ap (λ t. if t then true else u n) self in
      let old : u n ≡ false = sym (ap u e) ∙ was in
      let rest : count n v ≡ count n u = count-same n u v (λ c below.
        let o : (c == b) ≡ false = ground (arith, e, below) in
        h c (omega arith) ∙ ap (λ t. if t then true else u c) o) in
      ap (λ t. if t then count n u else suc (count n u)) old
      ∙ ap suc (sym rest)
      ∙ ap suc (sym (ap (λ t. if t then count n v else suc (count n v)) now))
  | no other ↦
      let o : (n == b) ≡ false = ground (arith, other) in
      let same : v n ≡ u n = h n (omega arith) ∙ ap (λ t. if t then true else u n) o in
      let rest : count n u ≡ suc (count n v) =
        count-taken n u v b (omega (arith, other)) was (λ c below. h c (omega arith)) in
      elim (Bool-cases (u n)) [ inl y ↦ rw (same, y) rest | inr y ↦ rw (same, y) (ap suc rest) ]
]

pub free-full :
    (sb : Superblock) (d : Disk) → ((c : ℕ) → c < sb.size → used sb d c ≡ true) → free sb d ≡ 0
free-full sb d h = count-full sb.size (used sb d) h

pub free-taken :
    (sb : Superblock) (d d' : Disk) (b : ℕ)
    → b < sb.size
    → used sb d b ≡ false
    → ((c : ℕ) → c < sb.size → used sb d' c ≡ (if c == b then true else used sb d c))
    → free sb d ≡ suc (free sb d')
free-taken sb d d' b low was h = count-taken sb.size (used sb d) (used sb d') b low was h

pub free-same :
    (sb : Superblock) (d d' : Disk)
    → ((c : ℕ) → c < sb.size → used sb d' c ≡ used sb d c)
    → free sb d' ≡ free sb d
free-same sb d d' h = count-same sb.size (used sb d) (used sb d') h
