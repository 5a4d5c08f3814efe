-- ===== src/Pipe/Wakeup.antt =====
-- A writer and a reader of a pipe that sleep on the channels of pipe.c and wake each other up.
use hyu_ele3021_os.Base.{
  ℕ, zero, suc, ◌+◌, ◌-◌, ◌≤◌, ◌≡◌, refl, ap, true, false, List, [], ◌∷◌, arith, length, take,
  Bool-cases, inl, inr, leb, ◌⊎◌, length-append, length-take, length-drop,
}
use hyu_ele3021_os.Pipe.{
  Pipe, Chan, on_nread, on_nwrite, End, sleeping, copied, pipesize, put_byte, pipewrite, piperead,
}
use hyu_ele3021_os.Pipe.Window.{length-window}
use hyu_ele3021_os.Pipe.Bounds.{count}
use hyu_ele3021_os.Pipe.Stream.{contents}
use hyu_ele3021_os.Pipe.Transfer.{Transfer, writer, reader, turn, IsOpen, turn-writer}

-- A process can run, or sleeps on a channel, or has returned from its last call.
pub data Phase : Type 0 where
  ready : Phase
  asleep : Chan → Phase
  returned : Phase

pub record System : Type 0 where
  pub transfer : Transfer
  pub writer : Phase
  pub reader : Phase

-- `wakeup(ch)` for one process, and all wakeups of a run.
abbrev pub wake : Chan → Phase → Phase
wake on_nread (asleep on_nread) = ready
wake on_nread (asleep on_nwrite) = asleep on_nwrite
wake on_nwrite (asleep on_nread) = asleep on_nread
wake on_nwrite (asleep on_nwrite) = ready
wake ch ready = ready
wake ch returned = returned

abbrev pub wake_all : List Chan → Phase → Phase
wake_all [] p = p
wake_all (ch ∷ chs) p = wake_all chs (wake ch p)

-- The writer makes one call for all its bytes; the reader calls again after each return.
abbrev pub writer_phase : End → Phase
writer_phase (sleeping ch rest) = asleep ch
writer_phase e = returned

abbrev pub reader_phase : End → Phase
reader_phase (sleeping ch rest) = asleep ch
reader_phase (copied out) = ready
reader_phase e = returned

-- A turn of a process that can run is a run of its call; another one does nothing until it is woken.
unfoldable pub writer_turn : Transfer → Phase → Phase → System
writer_turn t ready r =
    let run = pipewrite false t.pipe t.pending in
    record {
      transfer = turn t writer;
      writer = writer_phase run.end;
      reader = wake_all run.woken r;
    }
writer_turn t w r = record { transfer = t; writer = w; reader = r }

unfoldable pub reader_turn : ℕ → Transfer → Phase → Phase → System
reader_turn n t w ready =
    let run = piperead false t.pipe n in
    record {
      transfer = turn t (reader n);
      writer = wake_all run.woken w;
      reader = reader_phase run.end;
    }
reader_turn n t w r = record { transfer = t; writer = w; reader = r }

-- A turn of the writer, then one of the reader, which asks for `n` bytes.
abbrev pub round : ℕ → System → System
round n s =
    let s1 = writer_turn s.transfer s.writer s.reader in
    reader_turn n s1.transfer s1.writer s1.reader

unfoldable pub rounds : ℕ → ℕ → System → System
rounds zero n s = s
rounds (suc k) n s = rounds k n (round n s)

-- A sleeping writer waits for a full pipe, a sleeping reader for an empty one.
abbrev pub WriterOk : Phase → Transfer → Type 0
WriterOk ready t = Unit {0}
WriterOk (asleep on_nwrite) t = count t.pipe ≡ pipesize
WriterOk (asleep on_nread) t = true ≡ false
WriterOk returned t = t.pending ≡ []

abbrev pub ReaderOk : Phase → Transfer → Type 0
ReaderOk ready t = Unit {0}
ReaderOk (asleep on_nread) t = count t.pipe ≡ 0
ReaderOk (asleep on_nwrite) t = true ≡ false
ReaderOk returned t = true ≡ false

pub record IsLive (t : Transfer) (w r : Phase) : Type 0 where
  pub opened : IsOpen t
  pub writer_ok : WriterOk w t
  pub reader_ok : ReaderOk r t

-- Bytes on their way.
abbrev pub on_the_way : Transfer → ℕ
on_the_way t = length (contents t.pipe) + length t.pending

pub length-contents : (p : Pipe) → length (contents p) ≡ count p
length-contents p = length-window p.bytes p.nread (count p)

pub woken-pipewrite :
    (p : Pipe) (xs : List ℕ) → p.readopen ≡ true → (pipewrite false p xs).woken ≡ on_nread ∷ []
unfolding pipewrite
woken-pipewrite p [] o = refl
woken-pipewrite p (c ∷ xs) o = ground (arith, o, woken-pipewrite (put_byte p c) xs o)

-- The counts after a run of the writer.
pub writer-counts :
    (t : Transfer)
    → IsOpen t
    → (count (turn t writer).pipe + length (turn t writer).pending
        ≡ count t.pipe + length t.pending)
      × ((pipesize ≤ count (turn t writer).pipe) ⊎ (length (turn t writer).pending ≡ 0))
      × (count t.pipe ≤ pipesize)
writer-counts t o =
    let (stored, left) = turn-writer t o in
    let l1 = ap length stored in
    let l2 = ap length left in
    let c = length-contents (turn t writer).pipe in
    let c0 = length-contents t.pipe in
    let room = pipesize - count t.pipe in
    let a = length-append (contents t.pipe) (take room t.pending) in
    let b = length-take room t.pending in
    let d = length-drop room t.pending in
    (
      omega (arith, l1, l2, c, c0, a, b, d, o.valid.fits),
      elim (Bool-cases (leb (length t.pending) room)) [
        | inl all ↦ inr (ground (arith, all, l2, d))
        | inr part ↦ inl (ground (arith, part, l1, c, c0, a, b, o.valid.fits))
      ],
      o.valid.fits,
    )
