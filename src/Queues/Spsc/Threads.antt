-- ===== src/Queues/Spsc/Threads.antt =====
-- Every interleaving of a producer and a consumer.
use mathlib.Core.Path.{subst}
use sample.Base.{
  ℕ, ◌+◌, ◌-◌, ◌%◌, ◌≤◌, ◌<◌, List, [], ◌∷◌, ◌++◌, ◌∷ʳ◌, ◌≡◌, ◌≢◌, refl, sym, ap, ◌∙◌, arith,
  append_assoc, length,
}
use sample.Queues.Blocks.{put_here, mod_ne, length-window}
use sample.Queues.Spsc.{Spsc, fill, publish, readable, advance, contents}
use sample.Queues.Spsc.Steps.{
  Producer, cleared, Consumer, sure, System, Step, checks, fills, publishes, looks, reads, moves,
  Reach, start, later,
}
use sample.Queues.Spsc.Sides.{
  Room, Ready, count_room, nonempty, contents-fill, fill-Ready, publish-Ready, advance-Room,
  contents-publish, contents-advance,
}

apart : (w r : ℕ) → r < w → r + 1 + (w - r) ≡ w + 1
apart w r h = omega arith

module _ {T : Type 0} (size : ℕ) where
  pub record Inv (s : System T) : Type 0 where
    pub below : s.queue.read_idx ≤ s.queue.write_idx
    pub fits : s.queue.write_idx ≤ s.queue.read_idx + size
    pub room : Room size s.producer s.queue
    pub ready : Ready size s.consumer s.queue
    pub fifo : s.published ≡ s.received ++ contents size s.queue

  pub Step-Inv : (s t : System T) → Inv s → Step size s t → Inv t
  unfolding fill publish readable advance
  Step-Inv s _ v (checks at_rest h) = record {
    below = v.below;
    fits = v.fits;
    room = count_room size s.queue h;
    ready = v.ready;
    fifo = v.fifo;
  }
  Step-Inv s _ v (fills x is) =
      let room = subst (λ (p : Producer T). Room size p s.queue) is v.room in
      record {
        below = v.below;
        fits = v.fits;
        room = (room, put_here s.queue.blks x ((s.queue.write_idx + 1) % size));
        ready = fill-Ready size x s.queue s.consumer room v.ready;
        fifo =
            v.fifo
            ∙ ap (λ (l : List T). s.received ++ l)
                (sym (contents-fill size x s.queue v.below room));
      }
  Step-Inv s _ v (publishes x is) =
      let (room, in_block) = subst (λ (p : Producer T). Room size p s.queue) is v.room in
      record {
        below = omega (arith, v.below);
        fits = omega (arith, room);
        room = tt;
        ready = publish-Ready size s.queue s.consumer v.ready;
        fifo =
            ap (λ (l : List T). l ∷ʳ x) v.fifo
            ∙ append_assoc s.received (contents size s.queue) (x ∷ [])
            ∙ ap (λ (l : List T). s.received ++ l)
                (sym (
                  contents-publish size s.queue v.below
                  ∙ ap (λ (y : T). contents size s.queue ∷ʳ y) in_block));
      }
  Step-Inv s _ v (looks is h) = record {
    below = v.below;
    fits = v.fits;
    room = v.room;
    ready = nonempty size s.queue h;
    fifo = v.fifo;
  }
  Step-Inv s _ v (reads is) = record {
    below = v.below;
    fits = v.fits;
    room = v.room;
    ready = (subst (λ c. Ready size c s.queue) is v.ready, refl);
    fifo = v.fifo;
  }
  Step-Inv s _ v (moves x is) =
      let (more, same) = subst (λ (c : Consumer T). Ready size c s.queue) is v.ready in
      record {
        below = omega (arith, more);
        fits = omega (arith, v.fits);
        room = advance-Room size s.queue s.producer v.room;
        ready = tt;
        fifo =
            v.fifo
            ∙ ap (λ (l : List T). s.received ++ l) (contents-advance size s.queue more)
            ∙ sym (
                append_assoc s.received (x ∷ []) (contents size (advance s.queue))
                ∙ ap (λ (y : T). s.received ++ y ∷ contents size (advance s.queue)) same);
      }

  places :
      (q : Spsc T)
      → q.write_idx < q.read_idx + size
      → q.read_idx < q.write_idx
      → (q.write_idx + 1) % size ≢ (q.read_idx + 1) % size
  places q room more same =
      mod_ne (q.read_idx + 1) (q.write_idx - q.read_idx) size (omega arith) (omega arith)
        (ap (λ (i : ℕ). i % size) (apart q.write_idx q.read_idx more) ∙ same)

  pub Reach-Inv : (s : System T) → Reach size s → Inv s
  Reach-Inv _ (start blks) = record {
    below = omega arith;
    fits = omega arith;
    room = tt;
    ready = tt;
    fifo = refl;
  }
  Reach-Inv _ (later {s} {t} h step) = Step-Inv s t (Reach-Inv s h) step

  -- Whatever the order in which the accesses of a producer and a consumer come, if the producer
  -- pushes only after `size` was below SIZE and the consumer pops only after `empty` was false:
  -- the messages published are those received followed by those in the queue, which are at most
  -- SIZE, and when the producer may fill a block and the consumer may read one, it is not the same
  -- block.
  pub threads_safe :
      (s : System T)
      → Reach size s
      → (s.published ≡ s.received ++ contents size s.queue)
        × (length (contents size s.queue) ≤ size)
        × (s.producer ≡ cleared
            → s.consumer ≡ sure
            → (s.queue.write_idx + 1) % size ≢ (s.queue.read_idx + 1) % size)
  threads_safe s h =
      let v = Reach-Inv s h in
      (
        v.fifo,
        omega (
          arith,
          v.fits,
          length-window size s.queue.blks s.queue.read_idx (s.queue.write_idx - s.queue.read_idx),
        ),
        λ p c.
            places s.queue (subst (λ (x : Producer T). Room size x s.queue) p v.room)
              (subst (λ (x : Consumer T). Ready size x s.queue) c v.ready),
      )
