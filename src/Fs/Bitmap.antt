-- ===== src/Fs/Bitmap.antt =====
-- The free map of xv6-public/fs.c as a set of used blocks.
use hyu_ele3021_os.Base.{
  ℕ, zero, suc, ◌*◌, ◌/◌, ◌%◌, ◌^◌, ◌≤◌, ◌≡◌, refl, sym, ◌∙◌, ap, Bool, true, false, arith, ◌==◌,
  if◌then◌else◌, Bool-cases, inl, inr,
}
use native.Mathlib.Nat.{div-div-eq-div-mul}
use hyu_ele3021_os.Fs.{bpb, Disk, Superblock, bblock, put_block, put_byte}
use hyu_ele3021_os.Fs.Alloc.{bit, set_bit, clear_bit}

-- The block's bit in the map.
abbrev pub used : Superblock → Disk → ℕ → Bool
used sb d b = bit (d (bblock sb b) (b % bpb / 8)) (b % 8)

pow-suc : (k : ℕ) → 2 ^ suc k ≡ 2 * 2 ^ k
pow-suc k = omega arith

bit-half : (x k : ℕ) → bit x (suc k) ≡ bit (x / 2) k
bit-half x k =
    ap (λ y. y % 2 == 1) (ap (λ m. x / m) (pow-suc k) ∙ sym (div-div-eq-div-mul x 2 (2 ^ k)))

set_bit-half : (x k : ℕ) → set_bit x (suc k) / 2 ≡ set_bit (x / 2) k
set_bit-half x k = elim (Bool-cases (bit (x / 2) k)) [
  | inl on ↦ rw (bit-half x k, on) refl
  | inr off ↦ rw (bit-half x k, off) (omega (arith, pow-suc k))
]

clear_bit-half : (x k : ℕ) → clear_bit x (suc k) / 2 ≡ clear_bit (x / 2) k
clear_bit-half x k = elim (Bool-cases (bit (x / 2) k)) [
  | inl on ↦ rw (bit-half x k, on) (omega (arith, pow-suc k))
  | inr off ↦ rw (bit-half x k, off) refl
]

pub set_bit-bit : (x k j : ℕ) → bit (set_bit x k) j ≡ (if j == k then true else bit x j)
set_bit-bit x zero zero = ground arith
set_bit-bit x zero (suc j) =
    let same : set_bit x 0 / 2 ≡ x / 2 = ground arith in
    bit-half (set_bit x 0) j ∙ ap (λ y. bit y j) same ∙ sym (bit-half x j) ∙ ground arith
set_bit-bit x (suc k) zero = ground (arith, pow-suc k)
set_bit-bit x (suc k) (suc j) =
    bit-half (set_bit x (suc k)) j
    ∙ ap (λ y. bit y j) (set_bit-half x k)
    ∙ set_bit-bit (x / 2) k j
    ∙ ap (λ y. if j == k then true else y) (sym (bit-half x j))
    ∙ ap (λ t. if t then true else bit x (suc j)) suc_test
  where
    suc_test : (j == k) ≡ (suc j == suc k)
    suc_test = ground arith

bit-le : (x k : ℕ) → bit x k ≡ true → 2 ^ k ≤ x
bit-le x zero h = ground (arith, h)
bit-le x (suc k) h = omega (arith, pow-suc k, bit-le (x / 2) k (sym (bit-half x k) ∙ h))

pub clear_bit-bit : (x k j : ℕ) → bit (clear_bit x k) j ≡ (if j == k then false else bit x j)
clear_bit-bit x zero zero = ground arith
clear_bit-bit x zero (suc j) =
    let same : clear_bit x 0 / 2 ≡ x / 2 = ground arith in
    bit-half (clear_bit x 0) j ∙ ap (λ y. bit y j) same ∙ sym (bit-half x j) ∙ ground arith
clear_bit-bit x (suc k) zero = elim (Bool-cases (bit x (suc k))) [
  | inl on ↦ rw (on) (ground (arith, pow-suc k, bit-le x (suc k) on))
  | inr off ↦ rw (off) (ground arith)
]
clear_bit-bit x (suc k) (suc j) =
    bit-half (clear_bit x (suc k)) j
    ∙ ap (λ y. bit y j) (clear_bit-half x k)
    ∙ clear_bit-bit (x / 2) k j
    ∙ ap (λ y. if j == k then false else y) (sym (bit-half x j))
    ∙ ap (λ t. if t then false else bit x (suc j)) suc_test
  where
    suc_test : (j == k) ≡ (suc j == suc k)
    suc_test = ground arith

-- The map after one bit of it is written: `f` sets or clears.
module _ (f : ℕ → ℕ → ℕ) (v : Bool)
    (f-bit : (x k j : ℕ) → bit (f x k) j ≡ (if j == k then v else bit x j)) where
  abbrev pub put_bit : Superblock → Disk → ℕ → Disk
  put_bit sb d b =
      let x = d (bblock sb b) in
      put_block d (bblock sb b) (put_byte x (b % bpb / 8) (f (x (b % bpb / 8)) (b % bpb % 8)))

  pub used-put_bit :
      (sb : Superblock) (d : Disk) (b c : ℕ)
      → used sb (put_bit sb d b) c ≡ (if c == b then v else used sb d c)
  used-put_bit sb d b c = elim (Bool-cases (bblock sb c == bblock sb b)) [
    | inr other ↦ rw other (ground arith)
    | inl same ↦ elim (Bool-cases (c % bpb / 8 == b % bpb / 8)) [
      | inr away ↦
          let block : bblock sb b ≡ bblock sb c = ground (arith, same) in
          let test : (c == b) ≡ false = ground (arith, away) in
          rw (same, away, test) (ap (λ n. bit (d n (c % bpb / 8)) (c % 8)) block)
      | inl byte ↦
          let block : bblock sb b ≡ bblock sb c = ground (arith, same) in
          let at : b % bpb / 8 ≡ c % bpb / 8 = ground (arith, byte) in
          let test : (c % 8 == b % bpb % 8) ≡ (c == b) = ground (arith, block, at) in
          rw (same, byte)
            (f-bit (d (bblock sb b) (b % bpb / 8)) (b % bpb % 8) (c % 8)
              ∙ ap (λ t. if t then v else bit (d (bblock sb b) (b % bpb / 8)) (c % 8)) test
              ∙ ap (λ y. if c == b then v else bit y (c % 8)) (λ i. d (block i) (at i)))
    ]
  ]
