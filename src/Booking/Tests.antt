-- ===== src/Booking/Tests.antt =====
-- A run of client and server through one request, and each theorem about runs at it.
use linux_programming.Prelude.{
  ℕ, ◌≤◌, true, false, none, some, [], ◌∷◌, ◌++◌, length, ◌≡◌, refl, ◌==◌, if◌then◌else◌,
}
use linux_programming.Prelude.Int.{ℤ, pos, negsuc}
use linux_programming.Booking.{
  Worker, System, start, book, producer_step, consumer_step, worker_step, written, asking, in_slot,
  taken, counted, counting,
}
use linux_programming.Booking.Invariant.{Inv}
use linux_programming.Booking.Queue.{requests}
use linux_programming.Booking.Setup.{all_keys, sessions, sessions-same}
use linux_programming.Booking.Runs.{
  Run, begin, produces, consumes, serves, Moves, Run-Inv, Run-requests, Run-Moves,
}

books :
    (book (pos 3) (pos 5) ≡ pos 3)
    × (book (pos 5) (pos 5) ≡ pos 0)
    × (book (pos 98) (negsuc 4) ≡ pos 100)
books = (refl, refl, refl)

abbrev no_requests : ℕ → ℤ
no_requests i = pos 0

abbrev one_request : ℕ → ℤ
one_request i = if i == 0 then pos 3 else pos 0

abbrev worker : Worker
worker = record { x = pos 3; booked = false }

-- A sends the request 3, and B reads it, creates a thread and gives the slot back; the thread books.
abbrev asked : System
asked = record (start no_requests) { ps = 9; producer = in_slot }

abbrev wrote : System
wrote = record asked { queue = one_request; inp = 1; producer = written }

abbrev sent : System
sent = record wrote { cs = 1; producer = asking }

abbrev received : System
received = record sent { cs = 0; consumer = counting }

abbrev counted_in : System
counted_in = record received { global_count = 1; consumer = counted }

abbrev created : System
created = record counted_in { workers = worker ∷ []; out = 1; consumer = taken }

abbrev served : System
served = record created { ticket = pos 97; workers = record worker { booked = true } ∷ [] }

run : Run (pos 3 ∷ []) (pos 3 ∷ []) served
unfolding producer_step consumer_step worker_step
run =
    serves _ _ created served 0
      (consumes (pos 3 ∷ []) [] counted_in created
        (consumes (pos 3 ∷ []) [] received counted_in
          (consumes (pos 3 ∷ []) [] sent received
            (produces (pos 3 ∷ []) [] wrote sent 0
              (produces [] [] asked wrote 8
                (produces [] [] (start no_requests) asked 0 (begin no_requests) refl) refl)
              refl)
            refl)
          refl)
        refl)
      refl

Run-Inv_example : Inv served
Run-Inv_example = Run-Inv (pos 3 ∷ []) (pos 3 ∷ []) served run

Run-requests_example :
    (pos 3 ∷ [] ≡ pos 3 ∷ [] ++ requests served) × (length (requests served) ≤ 10)
Run-requests_example = Run-requests (pos 3 ∷ []) (pos 3 ∷ []) served run

Run-Moves_example : Moves 0 served
Run-Moves_example = Run-Moves 0 (pos 3 ∷ []) (pos 3 ∷ []) served run

-- Two servers in turn, with a semaphore left from before.
sessions-same_example :
    sessions all_keys (71 ∷ 72 ∷ []) (record { segment = none; ps = some 7; cs = none })
    ≡ some (record { segment = none; ps = some 7; cs = none })
sessions-same_example = sessions-same all_keys (71 ∷ 72 ∷ []) (some 7) none refl refl
