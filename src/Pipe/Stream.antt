-- ===== src/Pipe/Stream.antt =====
-- A pipe is a first-in first-out stream of bytes, bounded by the ring.
use hyu_ele3021_os.Base.{
  ℕ, zero, suc, ◌+◌, ◌-◌, ◌%◌, ◌≡◌, refl, sym, ap, ◌∙◌, Bool, true, false, List, [], ◌∷◌, ◌++◌,
  arith, length, Bool-cases, inl, inr, take, drop, ◌==◌, ◌&&◌, not, ◌||◌, get_or, set, leb,
  drop-nil, if◌then◌else◌,
}
use mathlib.Core.List.{append_assoc, append-nil}
use hyu_ele3021_os.Base.Words.{inc32}
use hyu_ele3021_os.Pipe.{
  Pipe, on_nread, on_nwrite, End, failed, sleeping, wrote, copied, pipesize, put_byte, is_full,
  pipewrite, copy_out, piperead,
}
use hyu_ele3021_os.Pipe.Window.{window, window_congr, window-set}
use hyu_ele3021_os.Pipe.Bounds.{count, IsValid, put_byte-IsValid}

-- The bytes written and not yet read, oldest first.
abbrev pub contents : Pipe → List ℕ
contents p = window p.bytes p.nread (count p)

pub contents-put_byte :
    {p : Pipe} (c : ℕ)
    → IsValid p
    → is_full p ≡ false
    → contents (put_byte p c) ≡ contents p ++ c ∷ []
contents-put_byte {p} c v open_slot =
    let here : p.nwrite % pipesize ≡ (p.nread + count p) % pipesize = omega arith in
    let more : count (put_byte p c) ≡ suc (count p) = ground arith in
    ap (λ i. window (set p.bytes i c) p.nread (count (put_byte p c))) here
    ∙ ap (window (set p.bytes ((p.nread + count p) % pipesize) c) p.nread) more
    ∙ window-set p.bytes c p.nread (count p) v.ring (ground arith)

-- How `pipewrite` ends when `room` bytes fit.
abbrev pub write_end : Bool → Pipe → List ℕ → ℕ → End
write_end killed p xs room =
    if leb (length xs) room
    then wrote
    else (if not p.readopen || killed then failed else sleeping on_nwrite (drop room xs))

write_room :
    (killed : Bool) (p : Pipe) (xs : List ℕ) (room : ℕ)
    → IsValid p
    → room + count p ≡ pipesize
    → (contents (pipewrite killed p xs).pipe ≡ contents p ++ take room xs)
      × ((pipewrite killed p xs).end ≡ write_end killed p xs room)
unfolding pipewrite
write_room killed p [] zero v e = (sym (append-nil _), ground arith)
write_room killed p [] (suc room) v e = (sym (append-nil _), ground arith)
write_room killed p (c ∷ xs) zero v e =
    let full : is_full p ≡ true = ground arith in
    rw full (elim (Bool-cases (not p.readopen || killed)) [
      | inl stop ↦ rw stop (sym (append-nil _), ground arith)
      | inr wait ↦ rw wait (sym (append-nil _), ground arith)
    ])
write_room killed p (c ∷ xs) (suc room) v e =
    let open_slot : is_full p ≡ false = ground arith in
    let (stored, end) =
      write_room killed (put_byte p c) xs room (put_byte-IsValid c v open_slot) (ground arith) in
    rw open_slot (
      stored
          ∙ ap (λ t. t ++ take room xs) (contents-put_byte c v open_slot)
          ∙ append_assoc (contents p) (c ∷ []) (take room xs),
      end ∙ ground arith,
    )

copy_out-take :
    (p : Pipe) (n k : ℕ)
    → IsValid p
    → count p ≡ k
    → ((copy_out p n).1 ≡ take n (window p.bytes p.nread k))
      × (contents (copy_out p n).0 ≡ drop n (window p.bytes p.nread k))
unfolding copy_out
copy_out-take p zero k v e = (refl, ap (window p.bytes p.nread) e)
copy_out-take p (suc n) zero v e =
    let done : (p.nread == p.nwrite) ≡ true = ground arith in
    rw done (refl, ap (window p.bytes p.nread) e)
copy_out-take p (suc n) (suc k) v e =
    let more : (p.nread == p.nwrite) ≡ false = ground arith in
    let q : Pipe = record p { nread = inc32 p.nread } in
    let (out, rest) = copy_out-take q n k (ground arith) (ground arith) in
    let same = window_congr p.bytes (inc32 p.nread) (p.nread + 1) k (omega arith) in
    rw more (
      ap (λ t. get_or p.bytes (p.nread % pipesize) 0 ∷ t) (out ∙ ap (take n) same),
      rest ∙ ap (drop n) same,
    )

-- For every pipe: `pipewrite` appends the bytes that fit, in order. It returns `n` exactly when all
-- fit; otherwise it fails if the reader is gone or the writer is killed, and sleeps on `&p->nwrite`
-- with the bytes left over if not.
pub pipewrite_lem :
    (killed : Bool) {p : Pipe} (xs : List ℕ)
    → IsValid p
    → (contents (pipewrite killed p xs).pipe ≡ contents p ++ take (pipesize - count p) xs)
      × ((pipewrite killed p xs).end ≡ write_end killed p xs (pipesize - count p))
pipewrite_lem killed {p} xs v = write_room killed p xs (pipesize - count p) v (omega arith)

-- How `piperead` of `n` bytes ends.
abbrev pub read_end : Bool → Pipe → ℕ → End
read_end killed p n =
    if count p == 0 && p.writeopen
    then (if killed then failed else sleeping on_nread [])
    else copied (take n (contents p))

-- For every pipe: `piperead` fails or sleeps on `&p->nread`, by `killed`, exactly when the pipe is
-- empty and can still be written; otherwise it stores the first `n` bytes, or all there are, in
-- order. What it stores leaves the pipe.
pub piperead_lem :
    (killed : Bool) {p : Pipe} (n : ℕ)
    → IsValid p
    → ((piperead killed p n).end ≡ read_end killed p n)
      × (contents (piperead killed p n).pipe ≡ drop n (contents p))
unfolding piperead
piperead_lem killed {p} n v =
    let (out, rest) = copy_out-take p n (count p) v refl in
    let same : (p.nread == p.nwrite) ≡ (count p == 0) = ground arith in
    elim (Bool-cases (count p == 0 && p.writeopen)) [
      | inl wait ↦
          let none_left : count p ≡ 0 = ground arith in
          let empty : contents p ≡ [] = ap (window p.bytes p.nread) none_left in
          let kept : contents p ≡ drop n (contents p) =
            empty ∙ sym (drop-nil ℕ n) ∙ ap (drop n) (sym empty) in
          rw (same, wait)
            (elim (Bool-cases killed) [ inl k ↦ rw k (refl, kept) | inr k ↦ rw k (refl, kept) ])
      | inr go ↦ rw (same, go) (ap copied out, rest)
    ]
