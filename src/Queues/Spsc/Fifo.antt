-- ===== src/Queues/Spsc/Fifo.antt =====
-- The queue of one producer and one consumer, against a bounded first-in first-out queue.
use sample.Base.{
  ℕ, suc, ◌+◌, ◌-◌, ◌%◌, ◌≤◌, ◌<◌, Bool, false, true, false, List, [], ◌∷◌, ◌∷ʳ◌, Option, none,
  some, some-inj, ◌≡◌, refl, sym, ap, ap₂, ◌∙◌, arith, length, ltb, if◌then◌else◌, ◌>>=◌,
  >>=-eq-some,
}
use native.Mathlib.Decide.{dec_lt}
use sample.Queues.Blocks.{put, window, window-suc, window-put, length-window, put_here}
use sample.Queues.Spsc.{Spsc, emplace, pop, contents}

pub data Op (T : Type 0) : Type 0 where
  pushes : T → Op T
  pops : Op T

module _ {T : Type 0} where
  -- The specification: what a queue that holds at most `size` messages gives out. `none` is a push
  -- to a full queue, or a pop from an empty one.
  unfoldable pub fifo_run : (size : ℕ) → List T → List (Op T) → Option (List T)
  fifo_run size held [] = some []
  fifo_run size held (pushes v ∷ ops) =
      let rest = fifo_run size (held ∷ʳ v) ops in if ltb (length held) size then rest else none
  fifo_run size [] (pops ∷ ops) = none
  fifo_run size (v ∷ held) (pops ∷ ops) = fifo_run size held ops >>= λ out. some (v ∷ out)

pub longer : (w r : ℕ) → r ≤ w → w + 1 - r ≡ suc (w - r)
longer w r below = omega arith

shorter : (w r : ℕ) → r < w → w - r ≡ suc (w - (r + 1))
shorter w r below = omega arith

then_branch :
    {A : Type 0} (b : Bool) (o : Option A) {a : A}
    → (if b then o else none) ≡ some a
    → (b ≡ true) × (o ≡ some a)
then_branch true o e = (refl, e)
then_branch false o e = cc

not_some : {A : Type 0} {a : A} → ¬ (◌≡◌ {A = Option A} none (some a))
not_some e = cc

module _ {T : Type 0} (size : ℕ) where
  -- What the program's queue gives out.
  unfoldable pub run : Spsc T → List (Op T) → List T
  run q [] = []
  run q (pushes v ∷ ops) = run (emplace size v q) ops
  run q (pops ∷ ops) = let (v, q') = pop size q in v ∷ run q' ops

  abbrev pub IsValid : Spsc T → Type 0
  IsValid q = (q.read_idx ≤ q.write_idx) × (q.write_idx ≤ q.read_idx + size)

  pub emplace-IsValid :
      (v : T) (q : Spsc T)
      → q.read_idx ≤ q.write_idx
      → q.write_idx < q.read_idx + size
      → IsValid (emplace size v q)
  unfolding emplace
  emplace-IsValid v q below room = (omega arith, omega arith)

  pub pop-IsValid :
      (q : Spsc T)
      → q.read_idx < q.write_idx
      → q.write_idx ≤ q.read_idx + size
      → IsValid (pop size q).1
  unfolding pop
  pop-IsValid q more fits = (omega arith, omega arith)

  none_left : (q : Spsc T) → ¬ (q.read_idx < q.write_idx) → q.write_idx - q.read_idx ≡ 0
  none_left q h = omega arith

  has_room :
      (q : Spsc T)
      → q.read_idx ≤ q.write_idx
      → ltb (length (contents size q)) size ≡ true
      → q.write_idx < q.read_idx + size
  has_room q below h =
      ground (arith, length-window size q.blks q.read_idx (q.write_idx - q.read_idx))

  pub contents-emplace :
      (v : T) (q : Spsc T)
      → q.read_idx ≤ q.write_idx
      → q.write_idx < q.read_idx + size
      → contents size (emplace size v q) ≡ contents size q ∷ʳ v
  unfolding emplace
  contents-emplace v q below room =
      let r = q.read_idx in
      let n = q.write_idx - r in
      let place = (q.write_idx + 1) % size in
      let blks = put place v q.blks in
      ap (window size blks r) (longer q.write_idx r below)
      ∙ window-suc size blks r n
      ∙ ap₂ (λ (l : List T) (x : T). l ∷ʳ x)
          (window-put size q.blks v r n (q.write_idx + 1) (omega arith) (omega arith))
          (ap (λ (i : ℕ). blks (i % size)) (omega arith) ∙ put_here q.blks v place)

  pub contents-pop :
      (q : Spsc T)
      → q.read_idx < q.write_idx
      → contents size q ≡ (pop size q).0 ∷ contents size (pop size q).1
  unfolding pop
  contents-pop q some_left =
      let r = q.read_idx in ap (window size q.blks r) (shorter q.write_idx r some_left)

  -- From a queue whose indices are in order and at most SIZE apart, any sequence of `emplace` and
  -- `pop` that a first-in first-out queue of at most SIZE messages allows gives out the messages
  -- that it gives out.
  pub run_refines :
      (ops : List (Op T)) (q : Spsc T) (outs : List T)
      → IsValid q
      → fifo_run size (contents size q) ops ≡ some outs
      → run q ops ≡ outs
  unfolding run fifo_run
  run_refines [] q outs v e = some-inj e
  run_refines (pushes x ∷ ops) q outs (below, fits) e =
      let (room, rest) =
        then_branch (ltb (length (contents size q)) size) (fifo_run size (contents size q ∷ʳ x) ops)
          e in
      let less = has_room q below room in
      run_refines ops (emplace size x q) outs (emplace-IsValid x q below less)
        (ap (λ (l : List T). fifo_run size l ops) (contents-emplace x q below less) ∙ rest)
  run_refines (pops ∷ ops) q outs (below, fits) e = elim (dec_lt q.read_idx q.write_idx) [
    | no nothing ↦ absurd (
        not_some (
          sym (
            ap (λ (n : ℕ). fifo_run size (window size q.blks q.read_idx n) (pops ∷ ops))
              (none_left q nothing))
          ∙ e))
    | yes more ↦
        let (out, is, e1) =
          >>=-eq-some (fifo_run size (contents size (pop size q).1) ops) _
            (sym (ap (λ (l : List T). fifo_run size l (pops ∷ ops)) (contents-pop q more)) ∙ e) in
        ap (λ (l : List T). (pop size q).0 ∷ l)
          (run_refines ops (pop size q).1 out (pop-IsValid q more fits) is)
        ∙ some-inj e1
  ]
