-- ===== src/Copy.antt =====
-- Copy_using _pipes/fcopy.c, a copy of a file by two processes with a pipe each way. The parent reads the
-- file in chunks of 100 bytes and sends each over the first pipe; the child writes it to the new file and
-- answers over the second one. What stands in a file or in the first pipe is the list of its bytes, and
-- in the second one the number of its answers. A pipe has room for a chunk, and its reads and those of the
-- file do not fail. `none` is a process that has to wait or that has ended; ending closes its files.
pub mod Phases
pub mod Chunks
pub mod Turns
pub mod Runs
mod Tests
use linux_programming.Prelude.{
  ℕ, ◌+◌, ◌-◌, Bool, true, false, ◌||◌, Option, none, some, List, [], ◌++◌, ◌==◌, if◌then◌else◌,
  is_empty, length, take, drop, ltb,
}

-- What the parent is about to do: to read the file, to send the chunk, or to wait for the answer.
pub data Parent : Type 0 where
  reading : Parent
  sending : List ℕ → Parent
  waiting : Parent
  ended : Parent

-- What the child is about to do: to receive a chunk, to write it, or to answer.
pub data Child : Type 0 where
  receiving : Child
  writing : List ℕ → Child
  answering : List ℕ → Child
  finished : Child

-- `printed` counts the messages that the copy succeeded. `overrun`: a zero was written behind a buffer; what
-- stands there is not modelled.
pub record System : Type 0 where
  pub input : List ℕ
  pub parent : Parent
  pub pipe1 : List ℕ
  pub pipe2 : ℕ
  pub child : Child
  pub output : List ℕ
  pub printed : ℕ
  pub overrun : Bool

-- BUF_SIZE
abbrev pub buf_size : ℕ
buf_size = 100

abbrev pub has_ended : Parent → Bool
has_ended reading = false
has_ended (sending c) = false
has_ended waiting = false
has_ended ended = true

abbrev pub has_finished : Child → Bool
has_finished receiving = false
has_finished (writing c) = false
has_finished (answering c) = false
has_finished finished = true

-- `buffer[n] = 0` for the chunk in the buffer, where `n` is its length.
abbrev pub close_text : List ℕ → System → System
close_text c s = record s { overrun = s.overrun || length c == buf_size }

pub start : (file : List ℕ) → System
start file = record {
  input = file;
  parent = reading;
  pipe1 = [];
  pipe2 = 0;
  child = receiving;
  output = [];
  printed = 0;
  overrun = false;
}

-- Neither of the tests behind the read of the answer is ever true: they compare pointers, and `retp` is
-- positive. A write to a pipe without a reader ends the process.
pub parent_step : System → Option System
parent_step s = elim s.parent [
  | reading ↦
      if is_empty s.input
      then some (record s { parent = ended })
      else (let c = take buf_size s.input in
          some (close_text c (record s { input = drop buf_size s.input; parent = sending c })))
  | sending c ↦
      if has_finished s.child
      then some (record s { parent = ended })
      else some (record s { pipe1 = s.pipe1 ++ c; parent = waiting })
  | waiting ↦
      if s.pipe2 == 0
      then (if has_finished s.child then some (record s { parent = reading }) else none)
      else some (record s { pipe2 = s.pipe2 - 1; parent = reading })
  | ended ↦ none
]

-- The write to the new file stores `stored` bytes of the chunk, or all where it has fewer; its result is
-- not looked at.
pub child_step : (stored : ℕ) → System → Option System
child_step stored s = elim s.child [
  | receiving ↦
      if is_empty s.pipe1
      then (if has_ended s.parent then some (record s { child = finished }) else none)
      else (let c = take buf_size s.pipe1 in
          some (close_text c (record s { pipe1 = drop buf_size s.pipe1; child = writing c })))
  | writing c ↦ some (record s { output = s.output ++ take stored c; child = answering c })
  | answering c ↦
      if has_ended s.parent
      then some (record s { child = finished })
      else some (record s {
        pipe2 = s.pipe2 + 1;
        child = receiving;
        printed = s.printed + (if ltb (length c) buf_size then 1 else 0);
      })
  | finished ↦ none
]
