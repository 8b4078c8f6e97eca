-- ===== src/Booking/Setup.antt =====
-- Multithread_server_client, before the loops: the server B.c makes the segment and the semaphores, the client A.c
-- finds them, and the handler of SIGINT in B.c removes them. What `ftok` gives is an argument, `false` for -1; an object
-- of the system is `none` where it does not exist.
use linux_programming.Prelude.Int.{ℤ, pos}
use linux_programming.Prelude.{
  ℕ, ◌+◌, Bool, true, false, Option, none, some, List, [], ◌∷◌, ◌≡◌, refl, if◌then◌else◌, ◌∙◌,
}
use linux_programming.Booking.{start}

-- The shared segment: the slots of the queue, and behind them the process of the server.
pub record Segment : Type 0 where
  pub slots : ℕ → ℤ
  pub server : ℕ

pub record Ipc : Type 0 where
  pub segment : Option Segment
  pub ps : Option ℕ
  pub cs : Option ℕ

-- What a process has got: `false` is a `PS` or `CS` of -1, which no process looks at.
pub record Handles : Type 0 where
  pub has_ps : Bool
  pub has_cs : Bool

-- Whether `ftok` gives `key` and `key2`; `key3` is never looked at.
pub record Keys : Type 0 where
  pub key : Bool
  pub key2 : Bool

abbrev pub is_free : Option ℕ → Bool
is_free none = true
is_free (some n) = false

-- `semget` with IPC_EXCL and `semctl` to `value`: a semaphore that is there already is left alone.
abbrev pub make : (value : ℕ) → Option ℕ → Option ℕ
make value none = some value
make value (some n) = some n

-- The server up to its loop, with what it has got, or `none` where it has ended.
pub open_server : Keys → (pid : ℕ) → Ipc → Option Handles × Ipc
open_server keys pid ipc =
    if keys.key
    then elim ipc.segment [
      | some g ↦ (none, ipc)
      | none ↦
          if keys.key2
          then (
            some (record { has_ps = is_free ipc.ps; has_cs = is_free ipc.cs }),
            record {
              segment = some (record { slots = λ i. pos 0; server = pid });
              ps = make 10 ipc.ps;
              cs = make 0 ipc.cs;
            },
          )
          else (none, record ipc { segment = some (record { slots = λ i. pos 0; server = 0 }) })
    ]
    else (none, ipc)

abbrev pub is_there : Option ℕ → Bool
is_there none = false
is_there (some n) = true

-- The client up to its loop.
pub open_client : Keys → Ipc → Option Handles
open_client keys ipc =
    if keys.key
    then elim ipc.segment [
      | none ↦ none
      | some g ↦
          if keys.key2
          then some (record { has_ps = is_there ipc.ps; has_cs = is_there ipc.cs })
          else none
    ]
    else none

-- What `my_handler` prints: the segments that were removed and those that it had, and the semaphores.
pub record Cleaned : Type 0 where
  pub cl : ℕ
  pub el : ℕ
  pub semaphores : ℕ

abbrev pub one_if : Bool → ℕ
one_if b = if b then 1 else 0

-- `my_handler`, in a server that has its segment.
pub my_handler : Handles → Ipc → Cleaned × Ipc
my_handler h ipc = (
  record {
    cl = elim ipc.segment [ none ↦ 0 | some g ↦ 1 ];
    el = 1;
    semaphores =
        (if h.has_ps then one_if (is_there ipc.ps) else 0)
        + (if h.has_cs then one_if (is_there ipc.cs) else 0);
  },
  record {
    segment = none;
    ps = if h.has_ps then none else ipc.ps;
    cs = if h.has_cs then none else ipc.cs;
  },
)

abbrev pub no_objects : Ipc
no_objects = record { segment = none; ps = none; cs = none }

abbrev pub all_keys : Keys
all_keys = record { key = true; key2 = true }

-- A server that starts and is then interrupted, `n` times in turn, with its process numbers.
pub sessions : Keys → List ℕ → Ipc → Option Ipc
sessions keys [] ipc = some ipc
sessions keys (pid ∷ pids) ipc =
    let (h, made) = open_server keys pid ipc in
    elim h [ none ↦ none | some h ↦ sessions keys pids (my_handler h made).1 ]

-- Where nothing is left from before and `ftok` works, a server starts, with the semaphores as its loop and the
-- client's begin with them; a client then finds the segment and both semaphores, and a second server ends at
-- once and changes nothing.
pub open_server-start :
    (pid other : ℕ) (queue : ℕ → ℤ)
    → let (h, ipc) = open_server all_keys pid no_objects in
      (h ≡ some (record { has_ps = true; has_cs = true }))
      × (ipc.ps ≡ some (start queue).ps)
      × (ipc.cs ≡ some (start queue).cs)
      × (open_client all_keys ipc ≡ h)
      × (open_server all_keys other ipc ≡ (none, ipc))
unfolding open_server open_client
open_server-start pid other queue = (refl, refl, refl, refl, refl)

session_lem :
    (keys : Keys) (pid : ℕ) (pids : List ℕ) (p c : Option ℕ)
    → keys.key ≡ true
    → keys.key2 ≡ true
    → sessions keys (pid ∷ pids) (record { segment = none; ps = p; cs = c })
      ≡ sessions keys pids (record { segment = none; ps = p; cs = c })
unfolding sessions open_server my_handler
session_lem keys pid pids none none h h2 = rw (h, h2)
session_lem keys pid pids none (some m) h h2 = rw (h, h2)
session_lem keys pid pids (some n) none h h2 = rw (h, h2)
session_lem keys pid pids (some n) (some m) h h2 = rw (h, h2)

-- However often servers start and are interrupted: where there is no segment and `ftok` gives `key` and `key2`,
-- each of them starts, and its handler leaves the system as the server has found it, with the semaphores that
-- were there before and no others.
pub sessions-same :
    (keys : Keys) (pids : List ℕ) (p c : Option ℕ)
    → keys.key ≡ true
    → keys.key2 ≡ true
    → sessions keys pids (record { segment = none; ps = p; cs = c })
      ≡ some (record { segment = none; ps = p; cs = c })
unfolding sessions
sessions-same keys [] p c h h2 = refl
sessions-same keys (pid ∷ pids) p c h h2 =
    session_lem keys pid pids p c h h2 ∙ sessions-same keys pids p c h h2
