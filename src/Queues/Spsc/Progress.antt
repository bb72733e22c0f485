-- ===== src/Queues/Spsc/Progress.antt =====
-- What the consumer reaches when it goes on.
use sample.Base.{
  ℕ, zero, suc, ◌-◌, ◌<◌, false, List, [], ◌++◌, ◌∷ʳ◌, ◌≡◌, refl, sym, ap, ◌∙◌, arith, append-nil,
}
use sample.Queues.Blocks.{window}
use sample.Queues.Spsc.{Spsc, count, empty, readable, advance, contents}
use sample.Queues.Spsc.Steps.{
  Consumer, waiting, sure, holding, System, looks, reads, moves, Reach, Steps, none_yet, then_one,
}
use sample.Queues.Spsc.Threads.{Inv, Step-Inv, Reach-Inv}

module _ {T : Type 0} (size : ℕ) where
  -- The consumer has caught up with what was published when it began.
  abbrev Caught : System T → System T → Type 0
  Caught s t = Steps size s t × (t.published ≡ s.published) × (t.received ≡ s.published)

  abbrev has_read : System T → System T
  has_read s = record s { consumer = holding (readable size s.queue) }

  abbrev has_moved : T → System T → System T
  has_moved x s = record s {
    consumer = waiting;
    queue = advance s.queue;
    received = s.received ∷ʳ x;
  }

  not_empty : (q : Spsc T) → q.read_idx < q.write_idx → empty q ≡ false
  unfolding empty count
  not_empty q h = ground arith

  drained : (q : Spsc T) → q.write_idx - q.read_idx ≡ 0 → contents size q ≡ []
  drained q e = ap (window size q.blks q.read_idx) e

  -- `n` rounds of the consumer, from a state reached from `s`.
  rounds :
      (n : ℕ) (s t : System T)
      → Inv size t
      → Steps size s t
      → t.published ≡ s.published
      → t.consumer ≡ waiting
      → t.queue.write_idx - t.queue.read_idx ≡ n
      → (u : System T) × Caught s u
  unfolding advance
  rounds zero s t v path same w e = (
    t,
    (
      path,
      same,
      sym (append-nil t.received)
          ∙ ap (λ (l : List T). t.received ++ l) (sym (drained t.queue e))
          ∙ sym v.fifo
          ∙ same,
    ),
  )
  rounds (suc n) s t v path same w e =
      let more : t.queue.read_idx < t.queue.write_idx = omega (arith, e) in
      let a = looks w (not_empty t.queue more) in
      let t1 : System T = record t { consumer = sure } in
      let b = reads refl in
      let x = readable size t.queue in
      let t2 = has_read t1 in
      let c = moves x refl in
      let t3 = has_moved x t2 in
      let v3 = Step-Inv size t2 t3 (Step-Inv size t1 t2 (Step-Inv size t t1 v a) b) c in
      rounds n s t3 v3 (then_one (then_one (then_one path a) b) c) same refl (omega (arith, e))

  -- The consumer first ends the round that it is in.
  catches_up :
      (c : Consumer T) (s : System T) → Inv size s → s.consumer ≡ c → (u : System T) × Caught s u
  unfolding advance
  catches_up waiting s v e = rounds _ s s v none_yet refl e refl
  catches_up sure s v e =
      let b = reads e in
      let t = has_read s in
      let c = moves (readable size s.queue) refl in
      let u = has_moved (readable size s.queue) t in
      rounds _ s u (Step-Inv size t u (Step-Inv size s t v b) c) (then_one (then_one none_yet b) c)
        refl refl refl
  catches_up (holding x) s v e =
      let c = moves x e in
      let u = has_moved x s in
      rounds _ s u (Step-Inv size s u v c) (then_one none_yet c) refl refl refl

  -- From every state that such a producer and consumer reach, there are steps to a state in which
  -- the consumer has received all that was published until then and nothing more was published.
  pub receives_all :
      (s : System T)
      → Reach size s
      → (u : System T) × Steps size s u × (u.published ≡ s.published) × (u.received ≡ s.published)
  receives_all s h =
      let (u, caught) = catches_up s.consumer s (Reach-Inv size s h) refl in
      (u, caught.0, caught.1, caught.2)
