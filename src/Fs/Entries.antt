-- ===== src/Fs/Entries.antt =====
-- The words of an indirect block of xv6-public/fs.c, and a new entry of it.
use hyu_ele3021_os.Base.{
  ℕ, ◌+◌, ◌-◌, ◌*◌, ◌/◌, ◌%◌, ◌^◌, ◌≤◌, ◌<◌, ◌≡◌, ◌≢◌, refl, sym, ◌∙◌, ap, subst, true, false, some,
  arith, ◌==◌, if◌then◌else◌, Bool-cases, inl, inr,
}
use hyu_ele3021_os.Fs.{bpb, Block, Disk, Superblock, bblock, put_block}
use hyu_ele3021_os.Fs.Alloc.{bit}
use hyu_ele3021_os.Fs.Bitmap.{used}
use hyu_ele3021_os.Fs.Balloc.{Allocates}
use hyu_ele3021_os.Fs.Free.{free-taken}
use hyu_ele3021_os.Fs.Slots.{
  slot, slot_direct, slot_indirect, slot_entry, slot-cases, Maps, new-Maps, new-byte,
}
use hyu_ele3021_os.Fs.Inode.{ndirect, nindirect, maxfile, Inode, word, put_word, addr}
use hyu_ele3021_os.Fs.Mapping.{Same}

put_word-at :
    (x : Block) (w n v r : ℕ)
    → r < 4
    → put_word x w n (4 * v + r) ≡ (if v == w then n / 256 ^ r % 256 else x (4 * v + r))
put_word-at x w n v r h =
    let at : (4 * v + r) / 4 ≡ v = omega (arith, h) in
    let rest : (4 * v + r) % 4 ≡ r = omega (arith, h) in
    λ i. if at i == w then n / 256 ^ (rest i) % 256 else x (4 * v + r)

-- The value of four bytes.
abbrev little : ℕ → ℕ → ℕ → ℕ → ℕ
little a b c e = a + 256 * b + 65536 * c + 16777216 * e

put_word-zero :
    (x : Block) (w n v : ℕ) → put_word x w n (4 * v) ≡ (if v == w then n / 1 % 256 else x (4 * v))
put_word-zero x w n v =
    let at : 4 * v / 4 ≡ v = omega arith in
    let rest : 4 * v % 4 ≡ 0 = omega arith in
    λ i. if at i == w then n / 256 ^ (rest i) % 256 else x (4 * v)

word-put_word :
    (x : Block) (w n v : ℕ)
    → n < 2 ^ 32
    → word (put_word x w n) v ≡ (if v == w then n else word x v)
word-put_word x w n v low =
    (λ i.
      little (put_word-zero x w n v i) (put_word-at x w n v 1 (omega arith) i)
        (put_word-at x w n v 2 (omega arith) i) (put_word-at x w n v 3 (omega arith) i))
    ∙ (elim (Bool-cases (v == w)) [ inl y ↦ rw y (omega (arith, low)) | inr o ↦ rw o refl ])

-- A new block `n` for entry `w` of the indirect block.
module _ (sb : Superblock) (d d1 : Disk) (ip : Inode) (w n : ℕ) (m : Maps sb d ip)
    (al : Allocates sb d (some (d1, n))) (h : w < nindirect) (there : addr ip ndirect ≢ 0)
    (none_ : word (d (addr ip ndirect)) w ≡ 0) where
  abbrev pub b : ℕ
  b = addr ip ndirect

  abbrev pub d' : Disk
  d' = put_block d1 b (put_word (d1 b) w n)

  b_slot : slot d ip maxfile ≡ b
  b_slot = slot_indirect d ip maxfile refl

  real_b : slot d ip maxfile ≢ 0
  real_b z = there (sym b_slot ∙ z)

  low_n : n < 2 ^ 32
  low_n = omega (arith, al.0, m.small)

  old_block : (j : ℕ) → j ≤ maxfile → slot d ip j ≢ 0 → d1 (slot d ip j) ≡ d (slot d ip j)
  old_block j low real =
      al.5 (slot d ip j) (λ e. absurd (cc (sym (m.owned j low real).1 ∙ ap (used sb d) e ∙ al.1)))
        (λ e. (m.owned j low real).2 n al.0 (sym e))

  kept_b : d1 b ≡ d b
  kept_b = subst (λ a. d1 a ≡ d a) b_slot (old_block maxfile (omega arith) real_b)

  away : (a : ℕ) → a ≢ b → d' a ≡ d1 a
  away a e =
      let t : (a == b) ≡ false = ground (arith, e) in
      ap (λ c. if c then put_word (d1 b) w n else d1 a) t

  at_b : d' b ≡ put_word (d1 b) w n
  at_b =
      let t : (b == b) ≡ true = ground arith in ap (λ c. if c then put_word (d1 b) w n else d1 b) t

  after : (c : ℕ) → c < sb.size → used sb d' c ≡ (if c == n then true else used sb d c)
  after c low =
      ap (λ x. bit (x (c % bpb / 8)) (c % 8))
        (away (bblock sb c) (λ e. (m.owned maxfile (omega arith) real_b).2 c low (e ∙ sym b_slot)))
      ∙ al.3 c low

  n-not_b : n ≢ b
  n-not_b e =
      absurd
        (cc (sym (m.owned maxfile (omega arith) real_b).1 ∙ ap (used sb d) (b_slot ∙ sym e) ∙ al.1))

  kept : (j : ℕ) → j < maxfile → slot d ip j ≢ 0 → d' (slot d ip j) ≡ d (slot d ip j)
  kept j low real =
      away (slot d ip j) (λ e.
        let same : j ≡ maxfile =
          m.distinct j maxfile (omega (arith, low)) (omega arith) real (e ∙ sym b_slot) in
        omega (arith, same, low))
      ∙ old_block j (omega (arith, low)) real

  -- The entries.
  pub entry : (v : ℕ) → word (d' b) v ≡ (if v == w then n else word (d b) v)
  entry v =
      ap (λ x. word x v) at_b
      ∙ word-put_word (d1 b) w n v low_n
      ∙ ap (λ x. if v == w then n else word x v) kept_b

  slots : (j : ℕ) → j ≤ maxfile → slot d' ip j ≡ (if j == ndirect + w then n else slot d ip j)
  slots j low = elim (slot-cases j low) [
    | inl direct ↦
        let test : (j == ndirect + w) ≡ false = ground (arith, direct) in
        slot_direct d' ip j direct
        ∙ sym (slot_direct d ip j direct)
        ∙ sym (ap (λ t. if t then n else slot d ip j) test)
    | inr (inl last) ↦
        let test : (j == ndirect + w) ≡ false = ground (arith, last, h) in
        slot_indirect d' ip j last
        ∙ sym (slot_indirect d ip j last)
        ∙ sym (ap (λ t. if t then n else slot d ip j) test)
    | inr (inr (low', high)) ↦
        let test : (j - ndirect == w) ≡ (j == ndirect + w) = ground (arith, low') in
        let real : (b == 0) ≡ false = ground (arith, there) in
        let old : slot d ip j ≡ word (d b) (j - ndirect) =
          slot_entry d ip j low' high ∙ ap (λ c. if c then 0 else word (d b) (j - ndirect)) real in
        slot_entry d' ip j low' high
        ∙ ap (λ c. if c then 0 else word (d' b) (j - ndirect)) real
        ∙ entry (j - ndirect)
        ∙ (λ i. if test i then n else sym old i)
  ]

  was : slot d ip (ndirect + w) ≡ 0
  was =
      let real : (b == 0) ≡ false = ground (arith, there) in
      let at : ndirect + w - ndirect ≡ w = omega arith in
      slot_entry d ip (ndirect + w) (omega arith) (omega (arith, h))
      ∙ ap (λ c. if c then 0 else word (d b) (ndirect + w - ndirect)) real
      ∙ ap (word (d b)) at
      ∙ none_

  real_n : n ≢ 0
  real_n e = absurd (cc (sym m.boot ∙ ap (used sb d) (sym e) ∙ al.1))

  slots_kept : (j : ℕ) → j ≤ maxfile → slot d ip j ≢ 0 → slot d' ip j ≢ 0
  slots_kept j low real z = elim (Bool-cases (j == ndirect + w)) [
    | inl new ↦ real_n (sym (slots j low ∙ ap (λ t. if t then n else slot d ip j) new) ∙ z)
    | inr old ↦ real (sym (slots j low ∙ ap (λ t. if t then n else slot d ip j) old) ∙ z)
  ]

  pub entry-Same : Same sb d ip 1 d' ip
  entry-Same = record {
    maps = new-Maps sb d d' ip ip (ndirect + w) n m al.0 al.1 after slots refl kept;
    bytes_same = λ o low.
        new-byte sb d d' ip ip (ndirect + w) n m al.0 al.1 after slots refl kept o low was
          (λ _ i. ap (λ x. x i) (away n n-not_b) ∙ al.4 i);
    spent = omega (arith, free-taken sb d d' n al.0 al.1 after);
    size_same = refl;
    keeps = slots_kept;
  }
