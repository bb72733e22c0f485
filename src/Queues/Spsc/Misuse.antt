-- ===== src/Queues/Spsc/Misuse.antt =====
-- The queue without the checks of `size` and `empty`, which no operation makes by itself.
use native.Mathlib.Nat.{add-mod_right}
use sample.Base.{ℕ, suc, ◌+◌, ◌%◌, true, ◌≡◌, sym, ap, ◌∙◌, arith}
use sample.Base.Int.{pos, negsuc}
use sample.Queues.Blocks.{put, put_here}
use sample.Queues.Spsc.{Spsc, count, empty, emplace, pop}

module _ {T : Type 0} (size : ℕ) where
  same_place :
      (q : Spsc T)
      → q.write_idx ≡ q.read_idx + size
      → (q.read_idx + 1) % size ≡ (q.write_idx + 1) % size
  same_place q full =
      sym (add-mod_right (q.read_idx + 1) size) ∙ ap (λ (i : ℕ). i % size) (omega arith)

  -- `emplace` on a queue that holds SIZE messages overwrites the oldest one: the next `pop`
  -- returns the new message, and `size` is SIZE + 1.
  emplace_when_full :
      (v : T) (q : Spsc T)
      → q.write_idx ≡ q.read_idx + size
      → ((pop size (emplace size v q)).0 ≡ v) × (count (emplace size v q) ≡ pos (suc size))
  unfolding emplace pop count
  emplace_when_full v q full = (
    ap (put ((q.write_idx + 1) % size) v q.blks) (same_place q full)
        ∙ put_here q.blks v ((q.write_idx + 1) % size),
    ground arith,
  )

  -- `pop` on an empty queue makes `size` -1, and the queue is still empty after the next
  -- `emplace`.
  pop_when_empty :
      (q : Spsc T)
      → q.write_idx ≡ q.read_idx
      → (count (pop size q).1 ≡ negsuc 0)
        × (empty (pop size q).1 ≡ true)
        × ((v : T) → empty (emplace size v (pop size q).1) ≡ true)
  unfolding pop emplace count empty
  pop_when_empty q none_left = (ground arith, ground arith, λ v. ground arith)
