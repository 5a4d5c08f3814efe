-- ===== src/Pipe/Transfer.antt =====
-- A writer and a reader that take turns at a pipe, in any order, neither killed and both ends open.
use hyu_ele3021_os.Base.{
  ℕ, zero, suc, ◌-◌, ◌≡◌, refl, sym, ap, ◌∙◌, true, false, List, [], ◌∷◌, ◌++◌, arith, length, take,
  drop, Bool, Bool-cases, inl, inr, leb, ◌==◌, ◌&&◌, drop-eq-nil, take-nil, take-append-drop,
}
use mathlib.Core.List.{append_assoc}
use hyu_ele3021_os.Pipe.{
  Pipe, End, sleeping, copied, pipesize, put_byte, copy_out, pipewrite, piperead,
}
use hyu_ele3021_os.Base.Words.{inc32}
use hyu_ele3021_os.Pipe.Window.{window}
use hyu_ele3021_os.Pipe.Bounds.{count, IsValid, pipewrite-IsValid, piperead-IsValid}
use hyu_ele3021_os.Pipe.Stream.{contents, write_end, pipewrite_lem, piperead_lem}

-- The pipe, the bytes that the writer has still to store, and those that the reader has got.
pub record Transfer : Type 0 where
  pub pipe : Pipe
  pub pending : List ℕ
  pub received : List ℕ

pub data Turn : Type 0 where
  writer : Turn
  reader : ℕ → Turn

-- What is left of a message after a run of `pipewrite`, and what a run of `piperead` delivers.
abbrev pub rest_of : End → List ℕ
rest_of (sleeping ch rest) = rest
rest_of e = []

abbrev pub bytes_of : End → List ℕ
bytes_of (copied out) = out
bytes_of e = []

pub turn : Transfer → Turn → Transfer
turn t writer =
    let r = pipewrite false t.pipe t.pending in
    record { pipe = r.pipe; pending = rest_of r.end; received = t.received }
turn t (reader n) =
    let r = piperead false t.pipe n in
    record { pipe = r.pipe; pending = t.pending; received = t.received ++ bytes_of r.end }

pub turns : Transfer → List Turn → Transfer
turns t [] = t
turns t (e ∷ es) = turns (turn t e) es

-- All bytes of the message, in the order in which the reader will have them.
abbrev pub message : Transfer → List ℕ
message t = (t.received ++ contents t.pipe) ++ t.pending

pub record IsOpen (t : Transfer) : Type 0 where
  pub valid : IsValid t.pipe
  pub has_reader : t.pipe.readopen ≡ true

readopen-pipewrite :
    (killed : Bool) (p : Pipe) (xs : List ℕ) → (pipewrite killed p xs).pipe.readopen ≡ p.readopen
unfolding pipewrite
readopen-pipewrite killed p [] = refl
readopen-pipewrite killed p (c ∷ xs) = ground (arith, readopen-pipewrite killed (put_byte p c) xs)

readopen-copy_out : (p : Pipe) (n : ℕ) → (copy_out p n).0.readopen ≡ p.readopen
unfolding copy_out
readopen-copy_out p zero = refl
readopen-copy_out p (suc n) =
    ground (arith, readopen-copy_out (record p { nread = inc32 p.nread }) n)

readopen-piperead :
    (killed : Bool) (p : Pipe) (n : ℕ) → (piperead killed p n).pipe.readopen ≡ p.readopen
unfolding piperead
readopen-piperead killed p n = ground (arith, readopen-copy_out p n)

pub turn-IsOpen : (t : Transfer) (e : Turn) → IsOpen t → IsOpen (turn t e)
unfolding turn
turn-IsOpen t writer o = record {
  valid = pipewrite-IsValid false t.pending o.valid;
  has_reader = readopen-pipewrite false t.pipe t.pending ∙ o.has_reader;
}
turn-IsOpen t (reader n) o = record {
  valid = piperead-IsValid false t.pipe n o.valid;
  has_reader = readopen-piperead false t.pipe n ∙ o.has_reader;
}

-- `contents` after a writer's turn, and what is left.
pub turn-writer :
    (t : Transfer)
    → IsOpen t
    → (contents (turn t writer).pipe ≡ contents t.pipe ++ take (pipesize - count t.pipe) t.pending)
      × ((turn t writer).pending ≡ drop (pipesize - count t.pipe) t.pending)
unfolding turn
turn-writer t o =
    let (stored, end) = pipewrite_lem false t.pending o.valid in
    (stored, ap rest_of end ∙ rest (pipesize - count t.pipe))
  where
    rest : (room : ℕ) → rest_of (write_end false t.pipe t.pending room) ≡ drop room t.pending
    rest room = elim (Bool-cases (leb (length t.pending) room)) [
      | inl fits ↦ rw fits (sym (drop-eq-nil room t.pending (ground arith)))
      | inr more ↦ rw (more, o.has_reader) refl
    ]

pub turn-reader :
    (t : Transfer) (n : ℕ)
    → IsOpen t
    → ((turn t (reader n)).received ≡ t.received ++ take n (contents t.pipe))
      × (contents (turn t (reader n)).pipe ≡ drop n (contents t.pipe))
unfolding turn
turn-reader t n o =
    let (end, rest) = piperead_lem false n o.valid in
    (
      ap (λ e. t.received ++ bytes_of e) end
          ∙ ap (λ b. t.received ++ b)
              (elim (Bool-cases (count t.pipe == 0 && t.pipe.writeopen)) [
                | inl wait ↦
                    let none_left : count t.pipe ≡ 0 = ground arith in
                    let empty : contents t.pipe ≡ [] =
                      ap (window t.pipe.bytes t.pipe.nread) none_left in
                    rw wait (sym (ap (take n) empty ∙ take-nil ℕ n))
                | inr go ↦ rw go refl
              ]),
      rest,
    )

pub pending-reader : (t : Transfer) (n : ℕ) → (turn t (reader n)).pending ≡ t.pending
unfolding turn
pending-reader t n = refl

regroup_write : (r c p : List ℕ) (k : ℕ) → (r ++ (c ++ take k p)) ++ drop k p ≡ (r ++ c) ++ p
regroup_write r c p k = simp append_assoc (ap (λ t. r ++ (c ++ t)) (take-append-drop k p))

regroup_read : (r c p : List ℕ) (n : ℕ) → ((r ++ take n c) ++ drop n c) ++ p ≡ (r ++ c) ++ p
regroup_read r c p n =
    ap (λ t. t ++ p)
      (append_assoc r (take n c) (drop n c) ∙ ap (λ t. r ++ t) (take-append-drop n c))

pub message-turn : (t : Transfer) (e : Turn) → IsOpen t → message (turn t e) ≡ message t
message-turn t writer o =
    let (stored, left) = turn-writer t o in
    let same : (turn t writer).received ≡ t.received = unfold turn in refl in
    cc (
      stored,
      left,
      same,
      regroup_write t.received (contents t.pipe) t.pending (pipesize - count t.pipe),
    )
message-turn t (reader n) o =
    let (got, rest) = turn-reader t n o in
    let same : (turn t (reader n)).pending ≡ t.pending = unfold turn in refl in
    cc (got, rest, same, regroup_read t.received (contents t.pipe) t.pending n)

-- In any order of turns no byte is lost, doubled or moved: what the reader has received, then what
-- the pipe holds, then what the writer still holds, is always the same message.
pub message-turns : (t : Transfer) (es : List Turn) → IsOpen t → message (turns t es) ≡ message t
unfolding turns
message-turns t [] o = refl
message-turns t (e ∷ es) o = message-turns (turn t e) es (turn-IsOpen t e o) ∙ message-turn t e o
