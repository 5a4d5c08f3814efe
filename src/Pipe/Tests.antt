-- ===== src/Pipe/Tests.antt =====
-- Runs of the pipe at concrete inputs.
use hyu_ele3021_os.Base.{ℕ, ◌-◌, ◌^◌, ◌≡◌, refl, true, false, List, [], ◌∷◌, arith, replicate}
use hyu_ele3021_os.Pipe.{
  Pipe, on_nwrite, sleeping, pipewrite, piperead, copy_out, copied, failed, on_nread,
}
use hyu_ele3021_os.Pipe.Bounds.{IsValid, pipewrite-IsValid}
use hyu_ele3021_os.Pipe.Stream.{contents, write_end, pipewrite_lem, piperead_lem}
use hyu_ele3021_os.Pipe.Transfer.{Transfer, writer, reader, turns, message, IsOpen, message-turns}
use hyu_ele3021_os.Pipe.Wakeup.{ready, asleep, writer_turn, reader_turn}

-- An open pipe whose counters are about to wrap.
abbrev late : Pipe
late = record {
  bytes = replicate 512 0;
  nread = 2 ^ 32 - 1;
  nwrite = 2 ^ 32 - 1;
  readopen = true;
  writeopen = true;
}

late-IsValid : IsValid late
late-IsValid = record {
  ring = refl;
  nread_word = omega arith;
  nwrite_word = omega arith;
  fits = omega arith;
}

abbrev text : List ℕ
text = 104 ∷ 105 ∷ 33 ∷ []

abbrev start : Transfer
start = record { pipe = late; pending = text; received = [] }

start-IsOpen : IsOpen start
start-IsOpen = record { valid = late-IsValid; has_reader = refl }

pipewrite_wraps : (pipewrite false late text).pipe.nwrite ≡ 2
unfolding pipewrite
pipewrite_wraps = refl

pipewrite_blocks : (pipewrite false late (replicate 514 7)).end ≡ sleeping on_nwrite (7 ∷ 7 ∷ [])
unfolding pipewrite
pipewrite_blocks = refl

piperead_blocks : (piperead false late 5).end ≡ sleeping on_nread []
unfolding piperead
piperead_blocks = refl

piperead_after_write :
    (piperead false (pipewrite false late text).pipe 2).end ≡ copied (104 ∷ 105 ∷ [])
unfolding pipewrite piperead copy_out
piperead_after_write = refl

pipewrite-IsValid_example : IsValid (pipewrite false late text).pipe
pipewrite-IsValid_example = pipewrite-IsValid false text late-IsValid

pipewrite_lem_example :
    (contents (pipewrite false late text).pipe ≡ text)
    × ((pipewrite false late text).end ≡ write_end false late text 512)
pipewrite_lem_example = pipewrite_lem false text late-IsValid

piperead_lem_example :
    ((piperead true late 4).end ≡ failed) × (contents (piperead true late 4).pipe ≡ [])
piperead_lem_example = piperead_lem true 4 late-IsValid

message-turns_example : message (turns start (writer ∷ reader 2 ∷ reader 9 ∷ [])) ≡ text
message-turns_example = message-turns start (writer ∷ reader 2 ∷ reader 9 ∷ []) start-IsOpen

-- A reader that finds the pipe empty sleeps, and the writer wakes it.
reader_sleeps : (reader_turn 2 start ready ready).reader ≡ asleep on_nread
unfolding reader_turn piperead
reader_sleeps = refl

writer_wakes : (writer_turn start ready (asleep on_nread)).reader ≡ ready
unfolding writer_turn pipewrite
writer_wakes = refl
