-- ===== src/Copy/Phases.antt =====
-- The phases of the transfer. The two processes take turns: each state of a run is a phase with the bytes
-- that are left, the bytes that are written, and what has been printed and overrun.
use linux_programming.Prelude.{
  ℕ, ◌+◌, ◌*◌, ◌/◌, ◌%◌, ◌≤◌, Bool, true, ◌||◌, Option, none, some, List, [], ◌++◌, ◌≡◌, ◌⊎◌, ◌==◌,
  if◌then◌else◌, length, ltb,
}
use linux_programming.Copy.{
  Parent, reading, sending, waiting, ended, Child, receiving, writing, answering, finished, System,
}

pub data Phase : Type 0 where
  asks : Phase
  sends : List ℕ → Phase
  sent : List ℕ → Phase
  writes : List ℕ → Phase
  answers : List ℕ → Phase
  answered : Phase
  last : Phase
  over : Phase

module _ (i o : List ℕ) (n : ℕ) (b : Bool) where
  abbrev system : Parent → (pipe1 : List ℕ) (pipe2 : ℕ) → Child → System
  system p q a c = record {
    input = i;
    parent = p;
    pipe1 = q;
    pipe2 = a;
    child = c;
    output = o;
    printed = n;
    overrun = b;
  }

  -- The state in a phase with the bytes `i` left and `o` written.
  abbrev pub state : Phase → System
  state asks = system reading [] 0 receiving
  state (sends c) = system (sending c) [] 0 receiving
  state (sent c) = system waiting c 0 receiving
  state (writes c) = system waiting [] 0 (writing c)
  state (answers c) = system waiting [] 0 (answering c)
  state answered = system waiting [] 1 receiving
  state last = system ended [] 0 receiving
  state over = system ended [] 0 finished

-- The chunk that is not yet written.
abbrev pub pending : Phase → List ℕ
pending asks = []
pending (sends c) = c
pending (sent c) = c
pending (writes c) = c
pending (answers c) = []
pending answered = []
pending last = []
pending over = []

-- The bytes that are not yet answered, where `n` are left.
abbrev pub unanswered : Phase → ℕ → ℕ
unanswered asks n = n
unanswered (sends c) n = length c + n
unanswered (sent c) n = length c + n
unanswered (writes c) n = length c + n
unanswered (answers c) n = length c + n
unanswered answered n = n
unanswered last n = n
unanswered over n = n

-- The steps for `n` bytes that are left: six for each chunk, and the two last ones.
abbrev pub steps : ℕ → ℕ
steps n = 6 * ((n + 99) / 100) + 2

-- The steps that are left in a phase.
abbrev pub left : Phase → ℕ → ℕ
left asks n = steps n
left (sends c) n = 5 + steps n
left (sent c) n = 4 + steps n
left (writes c) n = 3 + steps n
left (answers c) n = 2 + steps n
left answered n = 1 + steps n
left last n = 1
left over n = 0

-- The messages for `n` bytes: one for a chunk that is not full.
abbrev pub owed : ℕ → ℕ
owed n = if n % 100 == 0 then 0 else 1

-- A chunk is full, or the last one.
abbrev pub Chunk : List ℕ → List ℕ → Type 0
Chunk c i = (1 ≤ length c) × (length c ≤ 100) × ((length c ≡ 100) ⊎ (i ≡ []))

abbrev pub Fits : Phase → List ℕ → Type 0
Fits asks i = Unit
Fits (sends c) i = Chunk c i
Fits (sent c) i = Chunk c i
Fits (writes c) i = Chunk c i
Fits (answers c) i = Chunk c i
Fits answered i = Unit
Fits last i = i ≡ []
Fits over i = i ≡ []

-- What holds of a state after `k` steps, if `whole` stands for the writes that stored all.
pub record Facts (file : List ℕ) (Whole : Type 0) (k : ℕ) (ph : Phase) (i o : List ℕ) (n : ℕ)
    (b : Bool) : Type 0 where
  pub fits : Fits ph i
  pub clock : k + left ph (length i) ≡ steps (length file)
  pub messages : n + owed (unanswered ph (length i)) ≡ owed (length file)
  pub overran : (b || ltb 99 (length i)) ≡ ltb 99 (length file)
  pub full : unanswered ph 0 ≡ 100 → b ≡ true
  pub content : Whole → o ++ (pending ph ++ i) ≡ file

-- The state is one of those.
pub record Reached (file : List ℕ) (Whole : Type 0) (k : ℕ) (s : System) : Type 0 where
  pub ph : Phase
  pub i : List ℕ
  pub o : List ℕ
  pub n : ℕ
  pub b : Bool
  pub shape : s ≡ state i o n b ph
  pub facts : Facts file Whole k ph i o n b

abbrev pub Keeps : (System → Type 0) → Option System → Type 0
Keeps P none = Unit
Keeps P (some s) = P s
