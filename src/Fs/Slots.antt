-- ===== src/Fs/Slots.antt =====
-- The blocks of an inode of xv6-public/fs.c by number: its data blocks, and last its indirect block.
use hyu_ele3021_os.Base.{
  ℕ, ◌+◌, ◌-◌, ◌*◌, ◌/◌, ◌%◌, ◌^◌, ◌≤◌, ◌<◌, ◌≡◌, ◌≢◌, refl, sym, ◌∙◌, ap, subst, true, false,
  arith, ◌==◌, ltb, if◌then◌else◌, Bool-cases, inl, inr, ◌⊎◌, length,
}
use native.Mathlib.Decide.{ℕ_discrete}
use hyu_ele3021_os.Fs.{bsize, Disk, Superblock, bblock}
use hyu_ele3021_os.Fs.Bitmap.{used}
use hyu_ele3021_os.Fs.Balloc.{MapUsed}
use hyu_ele3021_os.Fs.Inode.{ndirect, maxfile, Inode, word, addr}

abbrev pub slot : Disk → Inode → ℕ → ℕ
slot d ip i =
    if ltb i ndirect
    then addr ip i
    else (if i == maxfile
        then addr ip ndirect
        else (if addr ip ndirect == 0 then 0 else word (d (addr ip ndirect)) (i - ndirect)))

pub slot_direct : (d : Disk) (ip : Inode) (i : ℕ) → i < ndirect → slot d ip i ≡ addr ip i
slot_direct d ip i h = let t : ltb i ndirect ≡ true = ground (arith, h) in rw t refl

pub slot_indirect : (d : Disk) (ip : Inode) (i : ℕ) → i ≡ maxfile → slot d ip i ≡ addr ip ndirect
slot_indirect d ip i h =
    let t : ltb i ndirect ≡ false = ground (arith, h) in
    let t' : (i == maxfile) ≡ true = ground (arith, h) in rw (t, t') refl

pub slot_entry :
    (d : Disk) (ip : Inode) (i : ℕ)
    → ndirect ≤ i
    → i < maxfile
    → slot d ip i ≡ (if addr ip ndirect == 0 then 0 else word (d (addr ip ndirect)) (i - ndirect))
slot_entry d ip i h h' =
    let t : ltb i ndirect ≡ false = ground (arith, h) in
    let t' : (i == maxfile) ≡ false = ground (arith, h') in rw (t, t') refl

-- A number of a block is that of a direct one, of the indirect one, or of an entry.
pub slot-cases :
    (i : ℕ) → i ≤ maxfile → (i < ndirect) ⊎ (i ≡ maxfile) ⊎ ((ndirect ≤ i) × (i < maxfile))
slot-cases i h = ground arith

-- No two of an inode's blocks are the same; all are in use, and none is a block of the free map.
pub record Maps (sb : Superblock) (d : Disk) (ip : Inode) : Type 0 where
  pub room : length ip.addrs ≡ ndirect + 1
  pub small : sb.size ≤ 2 ^ 32
  pub map_used : MapUsed sb d
  pub map_inside : (c : ℕ) → c < sb.size → bblock sb c < sb.size
  pub boot : used sb d 0 ≡ true
  pub owned :
      (i : ℕ)
      → i ≤ maxfile
      → slot d ip i ≢ 0
      → (slot d ip i < sb.size)
        × (used sb d (slot d ip i) ≡ true)
        × ((c : ℕ) → c < sb.size → bblock sb c ≢ slot d ip i)
  pub distinct :
      (i j : ℕ) → i ≤ maxfile → j ≤ maxfile → slot d ip i ≢ 0 → slot d ip i ≡ slot d ip j → i ≡ j

-- Byte `o` of the inode's contents: 0 where it has no block.
abbrev pub byte : Disk → Inode → ℕ → ℕ
byte d ip o = if slot d ip (o / bsize) == 0 then 0 else d (slot d ip (o / bsize)) (o % bsize)

-- A block `n` that was free becomes block `k` of the inode.
module _ (sb : Superblock) (d d' : Disk) (ip ip' : Inode) (k n : ℕ) (m : Maps sb d ip)
    (lone : n < sb.size) (free : used sb d n ≡ false)
    (after : (c : ℕ) → c < sb.size → used sb d' c ≡ (if c == n then true else used sb d c))
    (slots : (i : ℕ) → i ≤ maxfile → slot d' ip' i ≡ (if i == k then n else slot d ip i))
    (same_room : length ip'.addrs ≡ length ip.addrs)
    (kept : (i : ℕ) → i < maxfile → slot d ip i ≢ 0 → d' (slot d ip i) ≡ d (slot d ip i)) where
  n-real : n ≢ 0
  n-real e = absurd (cc (sym m.boot ∙ ap (used sb d) (sym e) ∙ free))

  still_used : (c : ℕ) → c < sb.size → used sb d c ≡ true → used sb d' c ≡ true
  still_used c low u =
      after c low ∙ (elim (Bool-cases (c == n)) [ inl y ↦ rw y refl | inr o ↦ rw o u ])

  slot_self : (i : ℕ) → i ≤ maxfile → i ≡ k → slot d' ip' i ≡ n
  slot_self i h e = let t : (i == k) ≡ true = ground (arith, e) in slots i h ∙ rw t refl

  slot_ne : (i : ℕ) → i ≤ maxfile → i ≢ k → slot d' ip' i ≡ slot d ip i
  slot_ne i h e = let t : (i == k) ≡ false = ground (arith, e) in slots i h ∙ rw t refl

  not_new : (i : ℕ) → i ≤ maxfile → slot d ip i ≢ 0 → slot d ip i ≢ n
  not_new i h real e = absurd (cc (sym (m.owned i h real).1 ∙ ap (used sb d) e ∙ free))

  new-owned :
      (i : ℕ)
      → i ≤ maxfile
      → slot d' ip' i ≢ 0
      → (slot d' ip' i < sb.size)
        × (used sb d' (slot d' ip' i) ≡ true)
        × ((c : ℕ) → c < sb.size → bblock sb c ≢ slot d' ip' i)
  new-owned i h real = elim (ℕ_discrete i k) [
    | yes e ↦
        subst
          (λ x. (x < sb.size) × (used sb d' x ≡ true) × ((c : ℕ) → c < sb.size → bblock sb c ≢ x))
          (sym (slot_self i h e))
          (
            lone,
            (let t : (n == n) ≡ true = ground arith in after n lone ∙ rw t refl),
            λ c low same. absurd (cc (sym (m.map_used c low) ∙ ap (used sb d) same ∙ free)),
          )
    | no o ↦
        let s = slot_ne i h o in
        let w = m.owned i h (λ z. real (s ∙ z)) in
        subst
          (λ x. (x < sb.size) × (used sb d' x ≡ true) × ((c : ℕ) → c < sb.size → bblock sb c ≢ x))
          (sym s) (w.0, still_used (slot d ip i) w.0 w.1, w.2)
  ]

  new-distinct :
      (i j : ℕ)
      → i ≤ maxfile
      → j ≤ maxfile
      → slot d' ip' i ≢ 0
      → slot d' ip' i ≡ slot d' ip' j
      → i ≡ j
  new-distinct i j hi hj real e = elim (ℕ_discrete i k) [
    | yes ei ↦ elim (ℕ_discrete j k) [
      | yes ej ↦ ei ∙ sym ej
      | no oj ↦
          let s : slot d ip j ≡ n = sym (slot_ne j hj oj) ∙ sym e ∙ slot_self i hi ei in
          absurd (not_new j hj (λ z. n-real (sym s ∙ z)) s)
    ]
    | no oi ↦
        let s = slot_ne i hi oi in
        elim (ℕ_discrete j k) [
          | yes ej ↦ absurd (not_new i hi (λ z. real (s ∙ z)) (sym s ∙ e ∙ slot_self j hj ej))
          | no oj ↦ m.distinct i j hi hj (λ z. real (s ∙ z)) (sym s ∙ e ∙ slot_ne j hj oj)
        ]
  ]

  pub new-Maps : Maps sb d' ip'
  new-Maps = record {
    room = same_room ∙ m.room;
    small = m.small;
    map_used = λ c low. still_used (bblock sb c) (m.map_inside c low) (m.map_used c low);
    map_inside = m.map_inside;
    boot = still_used 0 (omega (arith, lone)) m.boot;
    owned = new-owned;
    distinct = new-distinct;
  }

  -- The contents stay, as the new block is zeroed.
  pub new-byte :
      (o : ℕ)
      → o < maxfile * bsize
      → slot d ip k ≡ 0
      → (k < maxfile → (i : ℕ) → d' n i ≡ 0)
      → byte d' ip' o ≡ byte d ip o
  new-byte o low was zeroed = elim (ℕ_discrete i k) [
    | yes e ↦
        let real : (n == 0) ≡ false = ground (arith, n-real) in
        let old : slot d ip i ≡ 0 = ap (slot d ip) e ∙ was in
        ap (λ x. if x == 0 then 0 else d' x (o % bsize)) (slot_self i inside e)
        ∙ ap (λ b. if b then 0 else d' n (o % bsize)) real
        ∙ zeroed (omega (arith, low, e)) (o % bsize)
        ∙ sym (ap (λ x. if x == 0 then 0 else d x (o % bsize)) old)
    | no other ↦
        ap (λ x. if x == 0 then 0 else d' x (o % bsize)) (slot_ne i inside other)
        ∙ (elim (Bool-cases (slot d ip i == 0)) [
          | inl none_ ↦ rw none_ refl
          | inr some_ ↦
              let same : d' (slot d ip i) ≡ d (slot d ip i) =
                kept i (omega arith) (λ z. ground (arith, some_, z)) in
              ap (λ x. if slot d ip i == 0 then 0 else x (o % bsize)) same
        ])
  ]
    where
      i : ℕ
      i = o / bsize

      inside : o / bsize ≤ maxfile
      inside = omega (arith, low)
