-- ===== src/Pipe.antt =====
-- xv6-public/pipe.c: the ring buffer of a pipe, its reader, its writer and its close.
-- `p->lock` is held from the call to the return except across `sleep`, so a call is a sequence of
-- runs that each end in a return or in a `sleep`; after a wakeup the loop goes on at its test.
pub mod Window
pub mod Bounds
pub mod Stream
pub mod Transfer
pub mod Wakeup
pub mod Delivery
mod Tests
use hyu_ele3021_os.Base.Words.{inc32, add32}
use hyu_ele3021_os.Base.{
  ℕ, zero, suc, ◌%◌, Bool, true, false, not, ◌&&◌, ◌||◌, List, [], ◌∷◌, ◌==◌, if◌then◌else◌, get_or,
  set,
}

abbrev pub pipesize : ℕ
pipesize = 512

-- `struct pipe` without its lock. `nread` and `nwrite` are `uint`.
pub record Pipe : Type 0 where
  pub bytes : List ℕ
  pub nread : ℕ
  pub nwrite : ℕ
  pub readopen : Bool
  pub writeopen : Bool

-- The channels that processes sleep on: `&p->nread` and `&p->nwrite`.
pub data Chan : Type 0 where
  on_nread on_nwrite : Chan

-- How a run under the lock ends: a return of -1, a `sleep` on a channel with the bytes that are
-- still to be written (a reader has none), a return of `n` by `pipewrite`, and a return by
-- `piperead` with the bytes that it stored at `addr`, whose number is the result.
pub data End : Type 0 where
  failed : End
  sleeping : Chan → List ℕ → End
  wrote : End
  copied : List ℕ → End

-- The pipe after a run, the channels woken in order, and the end.
pub record Run : Type 0 where
  pub pipe : Pipe
  pub woken : List Chan
  pub end : End

-- `p->data[p->nwrite++ % PIPESIZE] = c`
abbrev pub put_byte : Pipe → ℕ → Pipe
put_byte p c = record p { bytes = set p.bytes (p.nwrite % pipesize) c; nwrite = inc32 p.nwrite }

-- `p->nwrite == p->nread + PIPESIZE`
abbrev pub is_full : Pipe → Bool
is_full p = p.nwrite == add32 p.nread pipesize

-- The loop of `pipewrite` over the bytes `addr[i..n)`; `killed` is `myproc()->killed`.
pub pipewrite : Bool → Pipe → List ℕ → Run
pipewrite killed p [] = record { pipe = p; woken = on_nread ∷ []; end = wrote }
pipewrite killed p (c ∷ rest) =
    if is_full p
    then (if not p.readopen || killed
        then record { pipe = p; woken = []; end = failed }
        else record { pipe = p; woken = on_nread ∷ []; end = sleeping on_nwrite (c ∷ rest) })
    else pipewrite killed (put_byte p c) rest

-- The copy loop of `piperead` with `n` rounds left: the pipe and the bytes stored at `addr`.
pub copy_out : Pipe → ℕ → Pipe × List ℕ
copy_out p zero = (p, [])
copy_out p (suc n) =
    let (p', out) = copy_out (record p { nread = inc32 p.nread }) n in
    if p.nread == p.nwrite then (p, []) else (p', get_or p.bytes (p.nread % pipesize) 0 ∷ out)

pub piperead : Bool → Pipe → ℕ → Run
piperead killed p n =
    if p.nread == p.nwrite && p.writeopen
    then (if killed
        then record { pipe = p; woken = []; end = failed }
        else record { pipe = p; woken = []; end = sleeping on_nread [] })
    else (let (p', out) = copy_out p n in
        record { pipe = p'; woken = on_nwrite ∷ []; end = copied out })

-- The pipe after `pipeclose`, the channel woken, and whether its page is freed.
pub pipeclose : Pipe → Bool → Pipe × Chan × Bool
pipeclose p true = (record p { writeopen = false }, on_nread, not p.readopen)
pipeclose p false = (record p { readopen = false }, on_nwrite, not p.writeopen)
