-- ===== src/Queues/Spmc.antt =====
-- exchange_core/include/exchange-core/WFSPMC.h: the queue of one producer and many consumers, each of
-- which keeps its own index. `size` is the template argument SIZE; `T` is copied as plain bytes, as the
-- program's `Message` is. Indices are not negative and stay below 2^63.
pub mod Readers
use sample.Base.{ℕ, ◌+◌, ◌%◌, Bool, true, List, [], ◌∷◌}
use sample.Queues.Blocks.{Blocks, put}

pub record Spmc (T : Type 0) : Type 0 where
  pub write_idx : ℕ
  pub blks : Blocks T

module _ {T : Type 0} where
  unfoldable pub set_write_idx : ℕ → Spmc T → Spmc T
  set_write_idx idx q = record q { write_idx = idx }

  -- The two halves of a push: the block behind the last one is filled, then the index tells of it.
  unfoldable pub publish : Spmc T → Spmc T
  publish q = record q { write_idx = q.write_idx + 1 }

  module _ (size : ℕ) where
    unfoldable pub fill : (T → T) → Spmc T → Spmc T
    fill visitor q =
        let place = (q.write_idx + 1) % size in
        record q { blks = put place (visitor (q.blks place)) q.blks }

    unfoldable pub emplace : T → Spmc T → Spmc T
    unfolding fill publish
    emplace v q = publish (fill (λ old. v) q)

    -- `getWritable` and `getReadable` never return a null pointer, so the tests for it never hold.
    unfoldable pub try_visit_push : (T → T) → Spmc T → Bool × Spmc T
    unfolding fill publish
    try_visit_push visitor q = (true, publish (fill visitor q))

    unfoldable pub try_push : T → Spmc T → Bool × Spmc T
    unfolding try_visit_push
    try_push v q = try_visit_push (λ old. v) q

    unfoldable pub pop : (idx : ℕ) → Spmc T → T
    pop idx q = q.blks (idx % size)

    -- What the visitor is given stands for what it does.
    unfoldable pub try_visit_pop : (idx : ℕ) → Spmc T → Bool × T
    unfolding pop
    try_visit_pop idx q = (true, pop idx q)

    -- One push for each message.
    unfoldable pub emplace_all : List T → Spmc T → Spmc T
    emplace_all [] q = q
    emplace_all (v ∷ vs) q = emplace_all vs (emplace v q)
