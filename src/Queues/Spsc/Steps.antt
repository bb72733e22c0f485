-- ===== src/Queues/Spsc/Steps.antt =====
-- A producer and a consumer that work at the same time on one queue, each asking `size` or `empty` first.
-- Each access of the shared memory is a step of its own, and steps of the two come in any order.
use sample.Base.{ℕ, true, false, List, [], ◌∷ʳ◌, ◌≡◌}
use sample.Base.Int.{pos, ltb_ℤ}
use sample.Queues.Blocks.{Blocks}
use sample.Queues.Spsc.{Spsc, count, empty, fill, publish, readable, advance}

-- Where the producer stands: it has found room, or it has filled the next block with a message.
pub data Producer (T : Type 0) : Type 0 where
  resting cleared : Producer T
  filled : T → Producer T

-- Where the consumer stands: it has found a message, or it has copied one.
pub data Consumer (T : Type 0) : Type 0 where
  waiting sure : Consumer T
  holding : T → Consumer T

-- `published` and `received` record the messages of the finished pushes and pops.
pub record System (T : Type 0) : Type 0 where
  pub queue : Spsc T
  pub producer : Producer T
  pub consumer : Consumer T
  pub published : List T
  pub received : List T

module _ {T : Type 0} (size : ℕ) where
  pub data Step (s : System T) : System T → Type 0 where
    checks :
        s.producer ≡ resting
        → ltb_ℤ (count s.queue) (pos size) ≡ true
        → Step s (record s { producer = cleared })
    fills :
        (v : T)
        → s.producer ≡ cleared
        → Step s (record s { producer = filled v; queue = fill size (λ old. v) s.queue })
    publishes :
        (v : T)
        → s.producer ≡ filled v
        → Step s
            (record s { producer = resting; queue = publish s.queue; published = s.published ∷ʳ v })
    looks : s.consumer ≡ waiting → empty s.queue ≡ false → Step s (record s { consumer = sure })
    reads : s.consumer ≡ sure → Step s (record s { consumer = holding (readable size s.queue) })
    moves :
        (x : T)
        → s.consumer ≡ holding x
        → Step s
            (record s { consumer = waiting; queue = advance s.queue; received = s.received ∷ʳ x })

  -- Shared memory is zero at first, so both indices are; the blocks may hold anything.
  abbrev pub begun : Blocks T → System T
  begun blks = record {
    queue = record { write_idx = 0; read_idx = 0; blks = blks };
    producer = resting;
    consumer = waiting;
    published = [];
    received = [];
  }

  pub data Reach : System T → Type 0 where
    start : (blks : Blocks T) → Reach (begun blks)
    later : {s t : System T} → Reach s → Step s t → Reach t

  -- Some steps from one state to another.
  pub data Steps (s : System T) : System T → Type 0 where
    none_yet : Steps s s
    then_one : {t u : System T} → Steps s t → Step t u → Steps s u
