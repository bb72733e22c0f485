-- ===== src/Queues/Spsc/Sides.antt =====
-- What the producer and the consumer rely on, and what the steps of the other side leave of it.
use sample.Base.{ℕ, ◌+◌, ◌-◌, ◌%◌, ◌≤◌, ◌<◌, true, false, ◌∷◌, ◌∷ʳ◌, ◌≡◌, sym, ap, ◌∙◌, arith}
use sample.Base.Int.{pos, ltb_ℤ}
use sample.Queues.Blocks.{put_elsewhere, window, window-suc, window-put}
use sample.Queues.Spsc.{Spsc, count, empty, fill, publish, readable, advance, pop, contents}
use sample.Queues.Spsc.Fifo.{contents-pop, longer}
use sample.Queues.Spsc.Steps.{Producer, resting, cleared, filled, Consumer, waiting, sure, holding}

module _ {T : Type 0} (size : ℕ) where
  -- A producer past its check has room, and what it has filled is in the block behind the last one.
  abbrev pub Room : Producer T → Spsc T → Type 0
  Room resting q = Unit {0}
  Room cleared q = q.write_idx < q.read_idx + size
  Room (filled v) q = (q.write_idx < q.read_idx + size) × (q.blks ((q.write_idx + 1) % size) ≡ v)

  -- A consumer past its check has a message to read, and what it holds is that message.
  abbrev pub Ready : Consumer T → Spsc T → Type 0
  Ready waiting q = Unit {0}
  Ready sure q = q.read_idx < q.write_idx
  Ready (holding x) q = (q.read_idx < q.write_idx) × (x ≡ q.blks ((q.read_idx + 1) % size))

  pub count_room :
      (q : Spsc T) → ltb_ℤ (count q) (pos size) ≡ true → q.write_idx < q.read_idx + size
  unfolding count
  count_room q h = ground arith

  pub nonempty : (q : Spsc T) → empty q ≡ false → q.read_idx < q.write_idx
  unfolding empty
  nonempty q h = ground arith

  -- Filling a block touches no message in the queue.
  pub contents-fill :
      (v : T) (q : Spsc T)
      → q.read_idx ≤ q.write_idx
      → q.write_idx < q.read_idx + size
      → contents size (fill size (λ old. v) q) ≡ contents size q
  unfolding fill
  contents-fill v q below room =
      window-put size q.blks v q.read_idx (q.write_idx - q.read_idx) (q.write_idx + 1) (omega arith)
        (omega arith)

  pub fill-Ready :
      (v : T) (q : Spsc T) (c : Consumer T)
      → q.write_idx < q.read_idx + size
      → Ready c q
      → Ready c (fill size (λ old. v) q)
  unfolding fill
  fill-Ready v q waiting room h = tt
  fill-Ready v q sure room h = h
  fill-Ready v q (holding x) room (more, is) = (
    more,
    is
        ∙ sym (
            put_elsewhere size q.blks v (q.read_idx + 1) (q.write_idx + 1) (omega arith)
              (omega arith)),
  )

  pub publish-Ready : (q : Spsc T) (c : Consumer T) → Ready c q → Ready c (publish q)
  unfolding publish
  publish-Ready q waiting h = tt
  publish-Ready q sure h = omega arith
  publish-Ready q (holding x) (more, is) = (omega arith, is)

  pub advance-Room : (q : Spsc T) (p : Producer T) → Room p q → Room p (advance q)
  unfolding advance
  advance-Room q resting h = tt
  advance-Room q cleared h = omega arith
  advance-Room q (filled v) (more, is) = (omega arith, is)

  pub contents-publish :
      (q : Spsc T)
      → q.read_idx ≤ q.write_idx
      → contents size (publish q) ≡ contents size q ∷ʳ q.blks ((q.write_idx + 1) % size)
  unfolding publish
  contents-publish q below =
      ap (window size q.blks q.read_idx) (longer q.write_idx q.read_idx below)
      ∙ window-suc size q.blks q.read_idx (q.write_idx - q.read_idx)
      ∙ ap
          (λ (i : ℕ). window size q.blks q.read_idx (q.write_idx - q.read_idx) ∷ʳ q.blks (i % size))
          (omega arith)

  pub contents-advance :
      (q : Spsc T)
      → q.read_idx < q.write_idx
      → contents size q ≡ readable size q ∷ contents size (advance q)
  unfolding pop
  contents-advance q more = contents-pop size q more
