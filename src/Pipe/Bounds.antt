-- ===== src/Pipe/Bounds.antt =====
-- The counters of `struct pipe` stay at most a ring apart, also when they wrap.
use hyu_ele3021_os.Base.{
  ℕ, zero, suc, ◌^◌, ◌≤◌, ◌<◌, ◌≡◌, Bool, false, List, [], ◌∷◌, arith, length, length-set, ◌%◌,
}
use hyu_ele3021_os.Base.Words.{inc32, sub32}
use hyu_ele3021_os.Pipe.{Pipe, pipesize, put_byte, is_full, pipewrite, copy_out, piperead}

-- The number of bytes in the pipe.
abbrev pub count : Pipe → ℕ
count p = sub32 p.nwrite p.nread

pub record IsValid (p : Pipe) : Type 0 where
  pub ring : length p.bytes ≡ pipesize
  pub nread_word : p.nread < 2 ^ 32
  pub nwrite_word : p.nwrite < 2 ^ 32
  pub fits : count p ≤ pipesize

pub put_byte-IsValid : {p : Pipe} (c : ℕ) → IsValid p → is_full p ≡ false → IsValid (put_byte p c)
put_byte-IsValid {p} c v open_slot = ground (arith, length-set p.bytes (p.nwrite % pipesize) c)

-- A run of `pipewrite` keeps the ring 512 bytes long, both counters 32-bit words, and the bytes in
-- the pipe at most 512.
pub pipewrite-IsValid :
    (killed : Bool) {p : Pipe} (xs : List ℕ) → IsValid p → IsValid (pipewrite killed p xs).pipe
unfolding pipewrite
pipewrite-IsValid killed [] v = v
pipewrite-IsValid killed {p} (c ∷ xs) v =
    ground (arith, put_byte-IsValid {p = p} c, pipewrite-IsValid killed {p = put_byte p c} xs)

pub copy_out-IsValid : (p : Pipe) (n : ℕ) → IsValid p → IsValid (copy_out p n).0
unfolding copy_out
copy_out-IsValid p zero v = v
copy_out-IsValid p (suc n) v =
    ground (arith, copy_out-IsValid (record p { nread = inc32 p.nread }) n)

pub piperead-IsValid :
    (killed : Bool) (p : Pipe) (n : ℕ) → IsValid p → IsValid (piperead killed p n).pipe
unfolding piperead
piperead-IsValid killed p n v = ground (arith, copy_out-IsValid p n v)
