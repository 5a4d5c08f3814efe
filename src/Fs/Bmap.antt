-- ===== src/Fs/Bmap.antt =====
-- `bmap` of xv6-public/fs.c on an inode with its blocks to itself.
use hyu_ele3021_os.Base.{
  ℕ, ◌+◌, ◌-◌, ◌≤◌, ◌<◌, ◌≡◌, ◌≢◌, refl, sym, ◌∙◌, ap, subst, true, false, Option, none, some,
  arith, ◌==◌, ltb, if◌then◌else◌, Bool-cases, Option-cases, inl, inr,
}
use hyu_ele3021_os.CString.{◌>>=◌}
use hyu_ele3021_os.Fs.{Disk, Superblock, put_block}
use hyu_ele3021_os.Fs.Alloc.{balloc}
use hyu_ele3021_os.Fs.Balloc.{Allocates, balloc-Allocates}
use hyu_ele3021_os.Fs.Bitmap.{used}
use hyu_ele3021_os.Fs.Free.{free, free-full}
use hyu_ele3021_os.Fs.Slots.{slot, slot_direct, slot_entry, Maps}
use hyu_ele3021_os.Fs.Inode.{
  ndirect, nindirect, maxfile, Inode, word, put_word, addr, put_addr, addr_or_new, entry_or_new,
  bmap,
}
use hyu_ele3021_os.Fs.Mapping.{Same, addr-Same, addr_self, real_n}
use hyu_ele3021_os.Fs.Entries.{entry-Same, entry}

pub Same-refl :
    (sb : Superblock) (d : Disk) (ip : Inode) (n : ℕ) → Maps sb d ip → Same sb d ip n d ip
Same-refl sb d ip n m = record {
  maps = m;
  bytes_same = λ o low. refl;
  spent = omega arith;
  size_same = refl;
  keeps = λ j low real. real;
}

pub Same-trans :
    (sb : Superblock) (d : Disk) (ip : Inode) (m n : ℕ) (d1 : Disk) (ip1 : Inode) (d2 : Disk)
    (ip2 : Inode)
    → Same sb d ip m d1 ip1
    → Same sb d1 ip1 n d2 ip2
    → Same sb d ip (m + n) d2 ip2
Same-trans sb d ip m n d1 ip1 d2 ip2 s t = record {
  maps = t.maps;
  bytes_same = λ o low. t.bytes_same o low ∙ s.bytes_same o low;
  spent = omega (arith, s.spent, t.spent);
  size_same = t.size_same ∙ s.size_same;
  keeps = λ j low real. t.keeps j low (s.keeps j low real);
}

abbrev GotAddr : Superblock → Disk → Inode → ℕ → Option (Disk × Inode × ℕ) → Type 0
GotAddr sb d ip i none = free sb d ≡ 0
GotAddr sb d ip i (some (d', ip', a)) = Same sb d ip 1 d' ip' × (addr ip' i ≡ a) × (a ≢ 0)

addr_or_new-GotAddr :
    (sb : Superblock) (d : Disk) (ip : Inode) (i : ℕ)
    → Maps sb d ip
    → i ≤ ndirect
    → GotAddr sb d ip i (addr_or_new sb d ip i)
unfolding addr_or_new
addr_or_new-GotAddr sb d ip i m h = elim (Bool-cases (addr ip i == 0)) [
  | inr real ↦
      let e : addr_or_new sb d ip i ≡ some (d, ip, addr ip i) = rw (real, addr_or_new) refl in
      subst (GotAddr sb d ip i) (sym e) (Same-refl sb d ip 1 m, refl, λ z. ground (arith, real, z))
  | inl none_ ↦ elim (Option-cases (balloc sb d)) [
    | inl full ↦
        let e : addr_or_new sb d ip i ≡ none = rw (none_, full, addr_or_new) refl in
        subst (GotAddr sb d ip i) (sym e) (free-full sb d (subst (Allocates sb d) full al))
    | inr ((d', n), got) ↦
        let e : addr_or_new sb d ip i ≡ some (d', put_addr ip i n, n) =
          rw (none_, got, addr_or_new) refl in
        let al' = subst (Allocates sb d) got al in
        let z : addr ip i ≡ 0 = ground (arith, none_) in
        subst (GotAddr sb d ip i) (sym e) (
          addr-Same sb d d' ip i n m al' h z,
          addr_self sb d d' ip i n m al' h z i refl,
          real_n sb d d' ip i n m al' h z,
        )
  ]
]
  where
    al : Allocates sb d (balloc sb d)
    al = balloc-Allocates sb d m.map_used

abbrev GotEntry : Superblock → Disk → Inode → ℕ → Option (Disk × ℕ) → Type 0
GotEntry sb d ip w none = free sb d ≡ 0
GotEntry sb d ip w (some (d', a)) =
    Same sb d ip 1 d' ip × (word (d' (addr ip ndirect)) w ≡ a) × (a ≢ 0)

entry_or_new-GotEntry :
    (sb : Superblock) (d : Disk) (ip : Inode) (w : ℕ)
    → Maps sb d ip
    → addr ip ndirect ≢ 0
    → w < nindirect
    → GotEntry sb d ip w (entry_or_new sb d (addr ip ndirect) w)
unfolding entry_or_new
entry_or_new-GotEntry sb d ip w m there h = elim (Bool-cases (word (d b) w == 0)) [
  | inr real ↦
      let e : entry_or_new sb d b w ≡ some (d, word (d b) w) = rw (real, entry_or_new) refl in
      subst (GotEntry sb d ip w) (sym e) (Same-refl sb d ip 1 m, refl, λ z. ground (arith, real, z))
  | inl none_ ↦ elim (Option-cases (balloc sb d)) [
    | inl full ↦
        let e : entry_or_new sb d b w ≡ none = rw (none_, full, entry_or_new) refl in
        subst (GotEntry sb d ip w) (sym e) (free-full sb d (subst (Allocates sb d) full al))
    | inr ((d1, n), got) ↦
        let e : entry_or_new sb d b w ≡ some (put_block d1 b (put_word (d1 b) w n), n) =
          rw (none_, got, entry_or_new) refl in
        let al' = subst (Allocates sb d) got al in
        let z : word (d b) w ≡ 0 = ground (arith, none_) in
        let self : (w == w) ≡ true = ground arith in
        subst (GotEntry sb d ip w) (sym e) (
          entry-Same sb d d1 ip w n m al' h there z,
          entry sb d d1 ip w n m al' h there z w ∙ ap (λ t. if t then n else word (d b) w) self,
          λ zero_. absurd (cc (sym m.boot ∙ ap (used sb d) (sym zero_) ∙ al'.1)),
        )
  ]
]
  where
    b : ℕ
    b = addr ip ndirect

    al : Allocates sb d (balloc sb d)
    al = balloc-Allocates sb d m.map_used

-- The answer of `bmap`: the block of that number, which is there now. It panics only for want of two free blocks.
abbrev pub Mapped : Superblock → Disk → Inode → ℕ → Option (Disk × Inode × ℕ) → Type 0
Mapped sb d ip bn none = free sb d < 2
Mapped sb d ip bn (some (d', ip', a)) = Same sb d ip 2 d' ip' × (slot d' ip' bn ≡ a) × (a ≢ 0)

direct_Mapped :
    (sb : Superblock) (d : Disk) (ip : Inode) (bn : ℕ) (r : Option (Disk × Inode × ℕ))
    → bn < ndirect
    → GotAddr sb d ip bn r
    → Mapped sb d ip bn r
direct_Mapped sb d ip bn none low g = omega (arith, g)
direct_Mapped sb d ip bn (some (d', ip', a)) low (s, at, real) = (
  record {
    maps = s.maps;
    bytes_same = s.bytes_same;
    spent = omega (arith, s.spent);
    size_same = s.size_same;
    keeps = s.keeps;
  },
  slot_direct d' ip' bn low ∙ at,
  real,
)

entry_Mapped :
    (sb : Superblock) (d : Disk) (ip : Inode) (bn : ℕ) (d1 : Disk) (ip1 : Inode)
    (r : Option (Disk × ℕ))
    → ndirect ≤ bn
    → bn < maxfile
    → Same sb d ip 1 d1 ip1
    → addr ip1 ndirect ≢ 0
    → GotEntry sb d1 ip1 (bn - ndirect) r
    → Mapped sb d ip bn (r >>= λ e. some (e.0, ip1, e.1))
entry_Mapped sb d ip bn d1 ip1 none high low s there g = omega (arith, s.spent, g)
entry_Mapped sb d ip bn d1 ip1 (some (d2, a)) high low s there (t, at, real) =
    let test : (addr ip1 ndirect == 0) ≡ false = ground (arith, there) in
    (
      Same-trans sb d ip 1 1 d1 ip1 d2 ip1 s t,
      slot_entry d2 ip1 bn high low
          ∙ ap (λ c. if c then 0 else word (d2 (addr ip1 ndirect)) (bn - ndirect)) test
          ∙ at,
      real,
    )

pub bmap-Mapped :
    (sb : Superblock) (d : Disk) (ip : Inode) (bn : ℕ)
    → Maps sb d ip
    → bn < maxfile
    → Mapped sb d ip bn (bmap sb d ip bn)
unfolding bmap
bmap-Mapped sb d ip bn m h = elim (Bool-cases (ltb bn ndirect)) [
  | inl direct ↦
      let low : bn < ndirect = ground (arith, direct) in
      let e : bmap sb d ip bn ≡ addr_or_new sb d ip bn = rw (direct, bmap) refl in
      subst (Mapped sb d ip bn) (sym e) (
        direct_Mapped sb d ip bn (addr_or_new sb d ip bn) low
          (addr_or_new-GotAddr sb d ip bn m (omega (arith, low))))
  | inr indirect ↦
      let high : ndirect ≤ bn = ground (arith, indirect) in
      let inside : ltb (bn - ndirect) nindirect ≡ true = ground (arith, high, h) in
      elim (Option-cases (addr_or_new sb d ip ndirect)) [
        | inl full ↦
            let e : bmap sb d ip bn ≡ none = rw (indirect, inside, full, bmap) refl in
            subst (Mapped sb d ip bn) (sym e) (
              omega (
                arith,
                subst (GotAddr sb d ip ndirect) full
                    (addr_or_new-GotAddr sb d ip ndirect m (omega arith)),
              ))
        | inr ((d1, ip1, b), got) ↦
            let (s, at, real) =
              subst (GotAddr sb d ip ndirect) got
                (addr_or_new-GotAddr sb d ip ndirect m (omega arith)) in
            let e : bmap sb d ip bn
                ≡ (entry_or_new sb d1 b (bn - ndirect) >>= λ x. some (x.0, ip1, x.1)) =
              rw (indirect, inside, got, bmap) refl in
            let there : addr ip1 ndirect ≢ 0 = λ z. real (sym at ∙ z) in
            subst (Mapped sb d ip bn) (sym e) (
              subst
                (λ b'.
                  Mapped sb d ip bn
                    (entry_or_new sb d1 b' (bn - ndirect) >>= λ x. some (x.0, ip1, x.1)))
                at
                (entry_Mapped sb d ip bn d1 ip1
                  (entry_or_new sb d1 (addr ip1 ndirect) (bn - ndirect)) high h s there
                  (entry_or_new-GotEntry sb d1 ip1 (bn - ndirect) s.maps there
                    (omega (arith, h, high)))))
      ]
]

-- With two free blocks `bmap` gives a block.
pub bmap-some :
    (sb : Superblock) (d : Disk) (ip : Inode) (bn : ℕ)
    → Maps sb d ip
    → bn < maxfile
    → 2 ≤ free sb d
    → (d' : Disk) × (ip' : Inode) × (bmap sb d ip bn ≡ some (d', ip', slot d' ip' bn))
      × Same sb d ip 2 d' ip'
      × (slot d' ip' bn ≢ 0)
bmap-some sb d ip bn m h two = elim (Option-cases (bmap sb d ip bn)) [
  | inl e ↦
      let few : free sb d < 2 = subst (Mapped sb d ip bn) e (bmap-Mapped sb d ip bn m h) in
      absurd (omega (arith, few))
  | inr ((d', ip', a), e) ↦
      let (s, at, real) = subst (Mapped sb d ip bn) e (bmap-Mapped sb d ip bn m h) in
      (d', ip', e ∙ ap (λ b. some (d', ip', b)) (sym at), s, λ z. real (sym at ∙ z))
]

-- Where the inode has a block, `bmap` gives it and changes nothing.
pub bmap-there :
    (sb : Superblock) (d : Disk) (ip : Inode) (bn : ℕ)
    → bn < maxfile
    → slot d ip bn ≢ 0
    → bmap sb d ip bn ≡ some (d, ip, slot d ip bn)
unfolding bmap addr_or_new entry_or_new
bmap-there sb d ip bn h real = elim (Bool-cases (ltb bn ndirect)) [
  | inl direct ↦
      let at : slot d ip bn ≡ addr ip bn = slot_direct d ip bn (ground (arith, direct)) in
      let there : (addr ip bn == 0) ≡ false = ground (arith, at, real) in
      let run : bmap sb d ip bn ≡ some (d, ip, addr ip bn) =
        rw (direct, bmap, addr_or_new, there) refl in
      run ∙ ap (λ a. some (d, ip, a)) (sym at)
  | inr high ↦
      let at = slot_entry d ip bn (ground (arith, high)) h in
      let inside : ltb (bn - ndirect) nindirect ≡ true = ground (arith, high, h) in
      elim (Bool-cases (addr ip ndirect == 0)) [
        | inl none_ ↦ absurd (real (at ∙ rw none_ refl))
        | inr some_ ↦
            let here : slot d ip bn ≡ word (d (addr ip ndirect)) (bn - ndirect) =
              at ∙ rw some_ refl in
            let there : (word (d (addr ip ndirect)) (bn - ndirect) == 0) ≡ false =
              ground (arith, here, real) in
            let run : bmap sb d ip bn ≡ some (d, ip, word (d (addr ip ndirect)) (bn - ndirect)) =
              rw (high, inside, bmap, addr_or_new, some_, entry_or_new, there) refl in
            run ∙ ap (λ a. some (d, ip, a)) (sym here)
      ]
]
