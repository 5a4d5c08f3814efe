-- ===== src/Bcache/Recycle.antt =====
-- `bget` of bio.c on the list of buffers: the pointer walks are searches of the list.
use hyu_ele3021_os.Base.Words.{inc32}
use hyu_ele3021_os.Base.{ℕ, ◌+◌, ◌≤◌, ◌≡◌, false, Option, none, some, List, arith, length}
use hyu_ele3021_os.Bcache.{Bcache, Buf, nbuf, holds_block, is_unused, buf_at, put_buf, bget, walk}
use hyu_ele3021_os.Bcache.Links.{
  Links-backwards, backwards, length-backwards, Out-backwards, find, walk-find,
}
use hyu_ele3021_os.Bcache.Ring.{Ring}

-- The buffer after a hit, and after it is given to another block.
abbrev pub hit : Buf → Buf
hit v = record v { refcnt = inc32 v.refcnt }

abbrev pub recycled : ℕ → ℕ → Buf → Buf
recycled dev blockno v = record v {
  dev = dev;
  blockno = blockno;
  valid = false;
  dirty = false;
  refcnt = 1;
}

-- What `bget` does with what its two walks find.
abbrev pub choose : Bcache → ℕ → ℕ → Option ℕ → Option ℕ → Option (Bcache × ℕ)
choose s dev blockno front back = elim front [
  | some b ↦ some (put_buf s b (hit (buf_at s b)), b)
  | none ↦ elim back [
    | some b ↦ some (put_buf s b (recycled dev blockno (buf_at s b)), b)
    | none ↦ none
  ]
]

-- `bget` on the list of buffers in the order of their `next` pointers.
abbrev pub get_from : Bcache → List ℕ → ℕ → ℕ → Option (Bcache × ℕ)
get_from s xs dev blockno =
    choose s dev blockno (find (holds_block s dev blockno) xs) (find (is_unused s) (backwards xs))

-- Where the pointers form the list `xs`, `bget` is the search of that list: it takes the first buffer
-- from the front that has the block, or else recycles the first unused buffer from the back, and it
-- panics just when there is neither.
pub bget-get_from :
    (s : Bcache) (xs : List ℕ) (dev blockno : ℕ)
    → Ring s xs
    → length xs ≤ nbuf
    → bget s dev blockno ≡ get_from s xs dev blockno
unfolding bget
bget-get_from s xs dev blockno r few = λ i. choose s dev blockno (front i) (back i)
  where
    front :
        walk (nbuf + 1) s.next (holds_block s dev blockno) (s.next 0)
        ≡ find (holds_block s dev blockno) xs
    front =
        walk-find (nbuf + 1) s.next s.prev (holds_block s dev blockno) 0 xs r.links r.no_head
          (omega arith)

    back : walk (nbuf + 1) s.prev (is_unused s) (s.prev 0) ≡ find (is_unused s) (backwards xs)
    back =
        walk-find (nbuf + 1) s.prev s.next (is_unused s) 0 (backwards xs)
          (Links-backwards s.next s.prev 0 xs 0 r.links) (Out-backwards 0 xs r.no_head)
          (omega (arith, length-backwards xs))
