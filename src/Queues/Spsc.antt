-- ===== src/Queues/Spsc.antt =====
-- exchange_core/include/exchange-core/WFSPSC.h: the queue of one producer and one consumer. `size` is the
-- template argument SIZE; `T` is copied as plain bytes, as the program's `Message` is. Indices stay
-- below 2^63.
pub mod Fifo
pub mod Misuse
pub mod Steps
pub mod Sides
pub mod Threads
pub mod Progress
use sample.Base.{ℕ, zero, suc, ◌+◌, ◌-◌, ◌%◌, ◌≤◌, ◌<◌, Bool, true, List, ltb, leb, if◌then◌else◌}
use sample.Base.Int.{ℤ, pos, negsuc, ltb_ℤ}
use sample.Queues.Blocks.{Blocks, put, window}

pub record Spsc (T : Type 0) : Type 0 where
  pub write_idx : ℕ
  pub read_idx : ℕ
  pub blks : Blocks T

-- `write_idx - read_idx`, which is signed.
abbrev pub difference : ℕ → ℕ → ℤ
difference w r = if ltb w r then negsuc (r - w - 1) else pos (w - r)

module _ {T : Type 0} where
  -- The member function `size`.
  unfoldable pub count : Spsc T → ℤ
  count q = difference q.write_idx q.read_idx

  -- `size() <= 0`
  unfoldable pub empty : Spsc T → Bool
  unfolding count
  empty q = ltb_ℤ (count q) (pos 1)

  unfoldable pub reset : Spsc T → Spsc T
  reset q = record q { write_idx = 0; read_idx = 0 }

  -- The two halves of a push: the block behind the last one is filled, then the index tells of it.
  unfoldable pub publish : Spsc T → Spsc T
  publish q = record q { write_idx = q.write_idx + 1 }

  -- The two halves of a pop: the block behind the last one read is copied, then the index moves on.
  unfoldable pub advance : Spsc T → Spsc T
  advance q = record q { read_idx = q.read_idx + 1 }

  module _ (size : ℕ) where
    unfoldable pub fill : (T → T) → Spsc T → Spsc T
    fill visitor q =
        let place = (q.write_idx + 1) % size in
        record q { blks = put place (visitor (q.blks place)) q.blks }

    unfoldable pub emplace : T → Spsc T → Spsc T
    unfolding fill publish
    emplace v q = publish (fill (λ old. v) q)

    unfoldable pub try_visit_push : (T → T) → Spsc T → Bool × Spsc T
    unfolding fill publish
    try_visit_push visitor q = (true, publish (fill visitor q))

    unfoldable pub try_push : T → Spsc T → Bool × Spsc T
    unfolding try_visit_push
    try_push v q = try_visit_push (λ old. v) q

    unfoldable pub readable : Spsc T → T
    readable q = q.blks ((q.read_idx + 1) % size)

    unfoldable pub pop : Spsc T → T × Spsc T
    unfolding readable advance
    pop q = (readable q, advance q)

    -- What the visitor is given stands for what it does.
    unfoldable pub try_visit_pop : Spsc T → Bool × T × Spsc T
    unfolding readable advance
    try_visit_pop q = (true, readable q, advance q)

    -- The messages that were pushed and not popped.
    abbrev pub contents : Spsc T → List T
    contents q = window size q.blks q.read_idx (q.write_idx - q.read_idx)
