-- ===== src/Bcache.antt =====
-- xv6-public/bio.c: the cache of disk blocks, with the disk of xv6-public/memide.c below it. A node of
-- the list of buffers is a number: 0 is `bcache.head`, and `i + 1` is `bcache.buf[i]`. `next` and `prev`
-- are the pointers of all nodes. A buffer's sleep lock is the pid of its holder.
pub mod Links
pub mod Ring
pub mod Recycle
pub mod View
pub mod Moves
pub mod Listed
pub mod Iderw
pub mod Release
pub mod Start
pub mod Refine
pub mod Latest
mod Tests
use hyu_ele3021_os.Base.Words.{inc32, dec32}
use hyu_ele3021_os.Base.{
  ℕ, zero, suc, ◌+◌, ◌-◌, Bool, true, false, not, ◌&&◌, ◌||◌, Option, none, some, List, [], ◌∷◌,
  ◌==◌, leb, if◌then◌else◌, get_or, set, replicate,
}

abbrev pub nbuf : ℕ
nbuf = 30

abbrev pub Block : Type 0
Block = ℕ → ℕ

-- `struct buf`; `valid` and `dirty` are B_VALID and B_DIRTY, and `holder` is the sleep lock.
pub record Buf : Type 0 where
  pub dev : ℕ
  pub blockno : ℕ
  pub valid : Bool
  pub dirty : Bool
  pub refcnt : ℕ
  pub holder : Option ℕ
  pub block : Block

-- `bcache`, and the disk.
pub record Bcache : Type 0 where
  pub buf : List Buf
  pub next : ℕ → ℕ
  pub prev : ℕ → ℕ
  pub disk : ℕ → Block

abbrev pub zero_buf : Buf
zero_buf = record {
  dev = 0;
  blockno = 0;
  valid = false;
  dirty = false;
  refcnt = 0;
  holder = none;
  block = λ w. 0;
}

abbrev pub buf_at : Bcache → ℕ → Buf
buf_at s b = get_or s.buf (b - 1) zero_buf

abbrev pub put_buf : Bcache → ℕ → Buf → Bcache
put_buf s b v = record s { buf = set s.buf (b - 1) v }

-- A pointer field of all nodes, after a write to that of node `a`.
abbrev pub update : (ℕ → ℕ) → ℕ → ℕ → ℕ → ℕ
update f a v x = if x == a then v else f x

-- The four writes that put a node behind the head.
unfoldable pub put_first : ℕ → Bcache → Bcache
put_first b s =
    let next1 = update s.next b (s.next 0) in
    let prev1 = update s.prev b 0 in
    let prev2 = update prev1 (next1 0) b in record s { next = update next1 0 b; prev = prev2 }

-- The two writes that take a node out.
unfoldable pub unlink : ℕ → Bcache → Bcache
unlink b s =
    let prev1 = update s.prev (s.next b) (s.prev b) in
    record s { prev = prev1; next = update s.next (prev1 b) (s.next b) }

-- The loop of `binit` over `n` buffers from node `b` on.
unfoldable pub link_all : ℕ → ℕ → Bcache → Bcache
link_all zero b s = s
link_all (suc n) b s = link_all n (b + 1) (put_first b s)

unfoldable pub binit : (ℕ → Block) → Bcache
binit disk =
    link_all nbuf 1
      (record { buf = replicate nbuf zero_buf; next = λ b. 0; prev = λ b. 0; disk = disk })

-- The loops of `bget`: from node `b` on along a pointer field to the head, with rounds left.
unfoldable pub walk : ℕ → (ℕ → ℕ) → (ℕ → Bool) → ℕ → Option ℕ
walk zero step test b = none
walk (suc k) step test b =
    let rest = walk k step test (step b) in
    if b == 0 then none else (if test b then some b else rest)

abbrev pub holds_block : Bcache → ℕ → ℕ → ℕ → Bool
holds_block s dev blockno b = (buf_at s b).dev == dev && (buf_at s b).blockno == blockno

abbrev pub is_unused : Bcache → ℕ → Bool
is_unused s b = (buf_at s b).refcnt == 0 && not (buf_at s b).dirty

-- `bget` up to its `acquiresleep`: the buffer; `none` is the panic "no buffers".
unfoldable pub bget : Bcache → ℕ → ℕ → Option (Bcache × ℕ)
bget s dev blockno = elim (walk (nbuf + 1) s.next (holds_block s dev blockno) (s.next 0)) [
  | some b ↦ some (put_buf s b (record (buf_at s b) { refcnt = inc32 (buf_at s b).refcnt }), b)
  | none ↦ elim (walk (nbuf + 1) s.prev (is_unused s) (s.prev 0)) [
    | some b ↦ some (
      put_buf s b (record (buf_at s b) {
        dev = dev;
        blockno = blockno;
        valid = false;
        dirty = false;
        refcnt = 1;
      }),
      b,
    )
    | none ↦ none
  ]
]

abbrev pub is_held : Bcache → ℕ → ℕ → Bool
is_held s pid b = elim (buf_at s b).holder [ none ↦ false | some p ↦ p == pid ]

-- `iderw` of memide.c for `pid`, on a disk of `size` blocks; `none` is a panic.
unfoldable pub iderw : ℕ → Bcache → ℕ → ℕ → Option Bcache
iderw size s pid b =
    let v = buf_at s b in
    if not (is_held s pid b) || (v.valid && not v.dirty) || not (v.dev == 1) || leb size v.blockno
    then none
    else (if v.dirty
        then some (record s {
          buf = (put_buf s b (record v { dirty = false; valid = true })).buf;
          disk = λ n. if n == v.blockno then v.block else s.disk n;
        })
        else some (put_buf s b (record v { block = s.disk v.blockno; valid = true })))

-- `acquiresleep` of a buffer by `pid`; `none` sleeps.
unfoldable pub lock_buf : Bcache → ℕ → ℕ → Option Bcache
lock_buf s pid b = elim (buf_at s b).holder [
  | none ↦ some (put_buf s b (record (buf_at s b) { holder = some pid }))
  | some p ↦ none
]

-- `bread` once it has the buffer's lock
unfoldable pub read_in : ℕ → Bcache → ℕ → ℕ → Option Bcache
read_in size s pid b = if (buf_at s b).valid then some s else iderw size s pid b

-- `bread` when nobody else holds the buffer: the buffer is locked and has the block.
unfoldable pub bread : ℕ → Bcache → ℕ → ℕ → Option (Bcache × ℕ)
bread size s pid blockno = elim (bget s 1 blockno) [
  | none ↦ none
  | some (s1, b) ↦ elim (lock_buf s1 pid b) [
    | none ↦ none
    | some s2 ↦ elim (read_in size s2 pid b) [ none ↦ none | some s3 ↦ some (s3, b) ]
  ]
]

unfoldable pub bwrite : ℕ → Bcache → ℕ → ℕ → Option Bcache
bwrite size s pid b =
    if is_held s pid b
    then iderw size (put_buf s b (record (buf_at s b) { dirty = true })) pid b
    else none

-- `releasesleep`, which comes before `bcache.lock` is taken, and the rest are one step here: the rest
-- does not read the sleep lock, and a process that gets it in between has counted itself in `refcnt`.
unfoldable pub brelse : Bcache → ℕ → ℕ → Option Bcache
brelse s pid b =
    let v = record (buf_at s b) { holder = none; refcnt = dec32 (buf_at s b).refcnt } in
    let s1 = put_buf s b v in
    if is_held s pid b then some (if v.refcnt == 0 then put_first b (unlink b s1) else s1) else none
