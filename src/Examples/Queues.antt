-- ===== src/Examples/Queues.antt =====
-- Runs of the queues in shared memory, with four blocks.
use sample.Base.{ℕ, ◌+◌, ◌%◌, ◌≤◌, true, [], ◌∷◌, ◌++◌, none, some, ◌≡◌, ◌≢◌, refl, length, arith}
use sample.Queues.Blocks.{Blocks}
use sample.Queues.Spsc.{Spsc, count, empty, contents, fill, publish}
use sample.Queues.Spsc.Fifo.{pushes, pops, fifo_run, run, run_refines}
use sample.Queues.Spsc.Steps.{
  cleared, sure, System, checks, fills, publishes, looks, Reach, start, later, Steps,
}
use sample.Queues.Spsc.Threads.{threads_safe}
use sample.Queues.Spsc.Progress.{receives_all}
use sample.Queues.Spmc
use sample.Queues.Spmc.Readers.{after_all, readers_agree}
use sample.Queues.Shm
use sample.Queues.Shm.{shmmap}
use sample.Queues.Shm.Outcomes.{shmmap-mapping, mapping, closed, made, listed}

abbrev zeros : Blocks ℕ
zeros i = 0

abbrev fresh : Spsc ℕ
fresh = record { write_idx = 0; read_idx = 0; blks = zeros }

run_refines_example : run 4 fresh (pushes 5 ∷ pushes 6 ∷ pops ∷ pushes 7 ∷ pops ∷ []) ≡ 5 ∷ 6 ∷ []
unfolding fifo_run
run_refines_example =
    run_refines 4 (pushes 5 ∷ pushes 6 ∷ pops ∷ pushes 7 ∷ pops ∷ []) fresh (5 ∷ 6 ∷ [])
      (omega arith, omega arith) refl

-- One message in the queue, and both sides past their checks.
abbrev at_work : System ℕ
at_work = record {
  queue = publish (fill 4 (λ old. 5) fresh);
  producer = cleared;
  consumer = sure;
  published = 5 ∷ [];
  received = [];
}

at_work-Reach : Reach 4 at_work
unfolding fill publish empty count
at_work-Reach =
    later
      (later
        (later (later (later (start zeros) (checks refl refl)) (fills 5 refl)) (publishes 5 refl))
        (checks refl refl))
      (looks refl refl)

threads_safe_example :
    (at_work.published ≡ at_work.received ++ contents 4 at_work.queue)
    × (length (contents 4 at_work.queue) ≤ 4)
    × (at_work.producer ≡ cleared
        → at_work.consumer ≡ sure
        → (at_work.queue.write_idx + 1) % 4 ≢ (at_work.queue.read_idx + 1) % 4)
threads_safe_example = threads_safe 4 at_work at_work-Reach

receives_all_example :
    (u : System ℕ) × Steps 4 at_work u
    × (u.published ≡ at_work.published)
    × (u.received ≡ at_work.published)
receives_all_example = receives_all 4 at_work at_work-Reach

readers_agree_example :
    (Spmc.pop 4 2 (after_all 4 zeros (5 ∷ 6 ∷ 7 ∷ 8 ∷ [])) ≡ 6)
    × ((v : ℕ) → Spmc.pop 4 2 (Spmc.fill 4 (λ old. v) (after_all 4 zeros (5 ∷ 6 ∷ 7 ∷ 8 ∷ []))) ≡ 6)
readers_agree_example = readers_agree 4 zeros (5 ∷ 6 ∷ 7 ∷ 8 ∷ []) 1 6 refl (omega arith)

abbrev too_big : Shm.System
too_big = record { opened = some 3; sized = true; mapped = none }

shmmap-mapping_example :
    ((shmmap 64 "trade" too_big).0 ≡ mapping too_big)
    × (closed (shmmap 64 "trade" too_big).1 ≡ listed too_big.opened)
    × (made (shmmap 64 "trade" too_big).1 ≡ listed (mapping too_big))
shmmap-mapping_example = shmmap-mapping 64 "trade" too_big
