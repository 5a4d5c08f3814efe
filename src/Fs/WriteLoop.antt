-- ===== src/Fs/WriteLoop.antt =====
-- The loop of `writei` of xv6-public/fs.c on the contents of an inode.
use hyu_ele3021_os.Base.{
  ℕ, zero, suc, ◌+◌, ◌-◌, ◌*◌, ◌/◌, ◌%◌, ◌≤◌, ◌<◌, ◌≡◌, ◌≢◌, refl, sym, ◌∙◌, ap, subst, Bool, true,
  false, ◌&&◌, some, List, [], ◌∷◌, arith, ◌==◌, ltb, leb, if◌then◌else◌, Bool-cases, inl, inr,
  get_or, drop,
}
use hyu_ele3021_os.Fs.{bsize, Disk, Superblock, put_block}
use hyu_ele3021_os.Fs.Free.{free}
use hyu_ele3021_os.Fs.Slots.{slot, Maps, byte}
use hyu_ele3021_os.Fs.Inode.{maxfile, Inode, bmap, part, put_bytes, write_loop}
use hyu_ele3021_os.Fs.Bmap.{bmap-some}
use hyu_ele3021_os.Fs.Write.{written-Maps, written-free, written-byte, slot_same}

-- Two new blocks for each block that bytes `off` to `off + left` touch.
abbrev pub need : ℕ → ℕ → ℕ
need off left = if left == 0 then 0 else 2 * ((off % bsize + left + 511) / bsize)

abbrev pub inside : ℕ → ℕ → ℕ → Bool
inside off left o = leb off o && ltb o (off + left)

-- The bytes from `off` on are those of `src`, and the others are as before.
abbrev pub Written : Disk → Inode → ℕ → List ℕ → ℕ → Disk → Inode → Type 0
Written d ip off src left d' ip' =
    (o : ℕ)
    → o < maxfile * bsize
    → byte d' ip' o ≡ (if inside off left o then get_or src (o - off) 0 else byte d ip o)

get_or-drop : (m i : ℕ) (src : List ℕ) → get_or (drop m src) i 0 ≡ get_or src (m + i) 0
get_or-drop zero i src = ap (λ k. get_or src k 0) (omega arith)
get_or-drop (suc m) i [] = refl
get_or-drop (suc m) i (c ∷ src) = get_or-drop m i src ∙ ap (λ k. get_or (c ∷ src) k 0) (the_suc m i)
  where
    the_suc : (m i : ℕ) → suc (m + i) ≡ suc m + i
    the_suc m i = omega arith

need-le : (off left : ℕ) → need off left ≤ 2 * ((off % bsize + left + 511) / bsize)
need-le off left = ground arith

need-some : (off left : ℕ) → 0 < left → need off left ≡ 2 * ((off % bsize + left + 511) / bsize)
need-some off left h = let t : (left == 0) ≡ false = ground (arith, h) in rw t refl

pub part-bounds :
    (left off : ℕ)
    → 0 < left
    → (0 < part left off)
      × (part left off ≤ left)
      × (part left off ≤ bsize - off % bsize)
      × (need (off + part left off) (left - part left off) + 2 ≤ need off left)
part-bounds left off some_ = elim (Bool-cases (ltb left (bsize - off % bsize))) [
  | inl short ↦
      let e : part left off ≡ left = ap (λ b. if b then left else bsize - off % bsize) short in
      let all : left - part left off ≡ 0 = omega (arith, e) in
      let none_ : need (off + part left off) (left - part left off) ≡ 0 =
        ap (need (off + part left off)) all in
      let two : 2 * ((off % bsize + left + 511) / bsize) ≡ 2 * 1 = ground (arith, short, some_) in
      (
        omega (arith, e),
        omega (arith, e),
        ground (arith, e, short),
        omega (arith, none_, two, need-some off left some_),
      )
  | inr long ↦
      let e : part left off ≡ bsize - off % bsize =
        ap (λ b. if b then left else bsize - off % bsize) long in
      let le : bsize - off % bsize ≤ left = ground (arith, long) in
      let start : (off + part left off) % bsize ≡ 0 = omega (arith, e) in
      let next = need-le (off + part left off) (left - part left off) in
      (
        omega (arith, e),
        omega (arith, e, le),
        omega (arith, e),
        omega (arith, e, le, start, next, need-some off left some_),
      )
]

-- One round and the rest.
chain :
    (d d1 d2 d3 : Disk) (ip ip1 ip3 : Inode) (off m left : ℕ) (src : List ℕ)
    → m ≤ left
    → ((o : ℕ) → o < maxfile * bsize → byte d1 ip1 o ≡ byte d ip o)
    → ((o : ℕ)
        → o < maxfile * bsize
        → byte d2 ip1 o ≡ (if inside off m o then get_or src (o - off) 0 else byte d1 ip1 o))
    → Written d2 ip1 (off + m) (drop m src) (left - m) d3 ip3
    → Written d ip off src left d3 ip3
chain d d1 d2 d3 ip ip1 ip3 off m left src short same one rest = λ o low.
    rest o low ∙ (elim (Bool-cases (inside (off + m) (left - m) o)) [
      | inl later ↦
          let all : inside off left o ≡ true = ground (arith, later, short) in
          let i : m + (o - (off + m)) ≡ o - off = ground (arith, later) in
          rw (later, all) (get_or-drop m (o - (off + m)) src ∙ ap (λ k. get_or src k 0) i)
      | inr not_later ↦
          ap (λ b. if b then get_or (drop m src) (o - (off + m)) 0 else byte d2 ip1 o) not_later
          ∙ one o low
          ∙ (elim (Bool-cases (inside off m o)) [
            | inl now ↦
                let all : inside off left o ≡ true = ground (arith, now, short) in
                rw (now, all) refl
            | inr not_now ↦
                let all : inside off left o ≡ false = ground (arith, not_later, not_now, short) in
                rw (not_now, all) (same o low)
          ])
    ])

-- The bytes of one round's block.
round :
    (sb : Superblock) (d : Disk) (ip : Inode) (off n : ℕ) (src : List ℕ) (m : Maps sb d ip)
    (h : off / bsize < maxfile) (real : slot d ip (off / bsize) ≢ 0)
    → n ≤ bsize - off % bsize
    → (o : ℕ) → o < maxfile * bsize
    → byte
        (put_block d
          (slot d ip (off / bsize))
          (put_bytes (d (slot d ip (off / bsize))) (off % bsize) src n))
        ip
        o
      ≡ (if inside off n o then get_or src (o - off) 0 else byte d ip o)
round sb d ip off n src m h real fits o low =
    written-byte sb d ip (off / bsize) (put_bytes (d a) (off % bsize) src n) m h real o low
    ∙ (elim (Bool-cases (o / bsize == off / bsize)) [
      | inl here ↦
          let e : o / bsize ≡ off / bsize = ground (arith, here) in
          let test : (leb (off % bsize) (o % bsize) && ltb (o % bsize) (off % bsize + n))
              ≡ inside off n o =
            same_test e in
          let i : o % bsize - off % bsize ≡ o - off = omega (arith, e) in
          let r : (a == 0) ≡ false = ground (arith, real) in
          ap (λ b. if b then put_bytes (d a) (off % bsize) src n (o % bsize) else byte d ip o) here
          ∙ (λ j. if test j then get_or src (i j) 0 else d a (o % bsize))
          ∙ ap (λ y. if inside off n o then get_or src (o - off) 0 else y)
              (sym (
                ap (λ b. byte_of (slot d ip b) o) e ∙ ap (λ b. if b then 0 else d a (o % bsize)) r))
      | inr there ↦
          let out : inside off n o ≡ false = outside there in
          ap (λ b. if b then put_bytes (d a) (off % bsize) src n (o % bsize) else byte d ip o) there
          ∙ sym (ap (λ b. if b then get_or src (o - off) 0 else byte d ip o) out)
    ])
  where
    a : ℕ
    a = slot d ip (off / bsize)

    byte_of : ℕ → ℕ → ℕ
    byte_of b o' = if b == 0 then 0 else d b (o' % bsize)

    same_test :
        o / bsize ≡ off / bsize
        → (leb (off % bsize) (o % bsize) && ltb (o % bsize) (off % bsize + n)) ≡ inside off n o
    same_test e = ground (arith, e)

    outside : (o / bsize == off / bsize) ≡ false → inside off n o ≡ false
    outside there = ground (arith, there, fits)

write_loop-round :
    (k : ℕ) (sb : Superblock) (d : Disk) (ip : Inode) (off : ℕ) (src : List ℕ) (left : ℕ)
    (d1 : Disk) (ip1 : Inode) (a : ℕ)
    → (left == 0) ≡ false
    → bmap sb d ip (off / bsize) ≡ some (d1, ip1, a)
    → write_loop (suc k) sb d ip off src left
      ≡ write_loop k sb
          (put_block d1 a (put_bytes (d1 a) (off % bsize) src (part left off)))
          ip1
          (off + part left off)
          (drop (part left off) src)
          (left - part left off)
unfolding write_loop
write_loop-round k sb d ip off src left d1 ip1 a more e = rw (more, write_loop, e) refl

-- The bytes from `off` to `off + left` lie in blocks that the inode has.
abbrev pub Backed : Disk → Inode → ℕ → ℕ → Type 0
Backed d ip off left = (o : ℕ) → off ≤ o → o < off + left → slot d ip (o / bsize) ≢ 0

-- Writing a data block and the rest of the loop give up no block of the inode.
kept_slots :
    (d1 d2 d3 : Disk) (ip1 ip3 : Inode)
    → ((j : ℕ) → j ≤ maxfile → slot d2 ip1 j ≡ slot d1 ip1 j)
    → ((j : ℕ) → j ≤ maxfile → slot d2 ip1 j ≢ 0 → slot d3 ip3 j ≢ 0)
    → (j : ℕ) → j ≤ maxfile
    → slot d1 ip1 j ≢ 0
    → slot d3 ip3 j ≢ 0
kept_slots d1 d2 d3 ip1 ip3 same keeps j low there = keeps j low (λ z. there (sym (same j low) ∙ z))

pub write_loop-Written :
    (k : ℕ) (sb : Superblock) (d : Disk) (ip : Inode) (off : ℕ) (src : List ℕ) (left : ℕ)
    → Maps sb d ip
    → left ≤ k
    → off + left ≤ maxfile * bsize
    → need off left ≤ free sb d
    → (d' : Disk) × (ip' : Inode) × (write_loop k sb d ip off src left ≡ some (d', ip'))
      × Maps sb d' ip'
      × (ip'.size ≡ ip.size)
      × (free sb d ≤ free sb d' + need off left)
      × Written d ip off src left d' ip'
      × Backed d' ip' off left
      × ((j : ℕ) → j ≤ maxfile → slot d ip j ≢ 0 → slot d' ip' j ≢ 0)
unfolding write_loop
write_loop-Written zero sb d ip off src left m few fits room =
    let done : (left == 0) ≡ true = ground (arith, few) in
    (
      d,
      ip,
      rw done refl,
      m,
      refl,
      omega arith,
      λ o low.
          let out : inside off left o ≡ false = ground (arith, few) in
          sym (ap (λ b. if b then get_or src (o - off) 0 else byte d ip o) out),
      λ o from to. absurd (omega arith),
      λ j low real. real,
    )
write_loop-Written (suc k) sb d ip off src left m few fits room = elim (Bool-cases (left == 0)) [
  | inl done ↦ (
    d,
    ip,
    rw (done, write_loop) refl,
    m,
    refl,
    omega arith,
    λ o low.
        let out : inside off left o ≡ false = ground (arith, done) in
        sym (ap (λ b. if b then get_or src (o - off) 0 else byte d ip o) out),
    λ o from to. absurd (ground (arith, done)),
    λ j low real. real,
  )
  | inr more ↦
      let some_ : 0 < left = ground (arith, more) in
      let n = part left off in
      let (pos, short, in_block, less) = part-bounds left off some_ in
      let bn = off / bsize in
      let h : bn < maxfile = omega (arith, fits, some_) in
      let (d1, ip1, e, s, real) = bmap-some sb d ip bn m h (omega (arith, room, less)) in
      let x = put_bytes (d1 (slot d1 ip1 bn)) (off % bsize) src n in
      let d2 = put_block d1 (slot d1 ip1 bn) x in
      let same_free : free sb d2 ≡ free sb d1 = written-free sb d1 ip1 bn x s.maps h real in
      let (d3, ip3, run, m3, size3, spent3, rest, backed, keeps) =
        write_loop-Written k sb d2 ip1 (off + n) (drop n src) (left - n)
          (written-Maps sb d1 ip1 bn x s.maps h real) (omega (arith, few, pos, short))
          (omega (arith, fits, short)) (omega (arith, room, less, s.spent, same_free)) in
      let stays = kept_slots d1 d2 d3 ip1 ip3 (slot_same sb d1 ip1 bn x s.maps h real) keeps in
      (
        d3,
        ip3,
        write_loop-round k sb d ip off src left d1 ip1 (slot d1 ip1 bn) more e ∙ run,
        m3,
        size3 ∙ s.size_same,
        omega (arith, spent3, s.spent, same_free, less),
        chain d d1 d2 d3 ip ip1 ip3 off n left src short s.bytes_same
            (round sb d1 ip1 off n src s.maps h real in_block) rest,
        λ o from to. elim (Bool-cases (ltb o (off + n))) [
          | inl first ↦
              let here : bn ≡ o / bsize = ground (arith, from, first, in_block) in
              subst (λ b. slot d3 ip3 b ≢ 0) here (stays bn (omega (arith, h)) real)
          | inr later ↦ backed o (ground (arith, later)) (omega (arith, to, short))
        ],
        λ j low there. stays j low (s.keeps j low there),
      )
]
