-- ===== src/Wire/Laws.antt =====
-- What holds of a wire in every state that it reaches.
use sample.Base.{
  length, ◌≤◌, ap, ◌∙◌, append-nil, Bool, true, false, List, [], ◌∷◌, ◌++◌, ◌≡◌, refl, Option, none,
  some, arith, append_assoc, tail,
}
use sample.Wire.{Wire, pump, Step, submit, open_up, ack, lose, idle, Reach, start, later}

module _ {A : Type 0} where
  abbrev pub first : List A → Option A
  first [] = none
  first (x ∷ xs) = some x

  -- No write is under way, or one is, of the head of the queue.
  abbrev pub Flight : List A → List A → Bool → Type 0
  Flight [] queue busy = Unit
  Flight (m ∷ []) queue busy = (first queue ≡ some m) × (busy ≡ true)
  Flight (m ∷ n ∷ ms) queue busy = ⊥

  pub record Inv (w : Wire A) : Type 0 where
    pub flight : Flight w.in_flight w.queue w.busy
    pub prompt : w.live ≡ true → w.busy ≡ false → w.queue ≡ []
    pub shut : w.live ≡ false → w.busy ≡ false
    pub fifo : w.sent ≡ w.written ++ w.queue

  -- What `pump` needs of a state, to make it hold again.
  record Pumpable (w : Wire A) : Type 0 where
    flight : Flight w.in_flight w.queue w.busy
    shut : w.live ≡ false → w.busy ≡ false
    fifo : w.sent ≡ w.written ++ w.queue
    quiet : w.busy ≡ false → w.in_flight ≡ []

  pumped : (w : Wire A) (q fl : List A) → w.queue ≡ q → w.in_flight ≡ fl → Pumpable w → Inv (pump w)
  unfolding pump
  pumped w [] [] e f p = ground arith
  pumped w [] (n ∷ []) e f p = ground arith
  pumped w (m ∷ ms) [] e f p = ground arith
  pumped w (m ∷ ms) (n ∷ []) e f p = ground arith
  pumped w q (n ∷ n' ∷ ns) e f p = ground arith

  pump-Inv : (w : Wire A) → Pumpable w → Inv (pump w)
  pump-Inv w p = pumped w w.queue w.in_flight refl refl p

  single :
      (before : List A) (m : A) (after : List A) {n : A}
      → n ∷ [] ≡ before ++ m ∷ after
      → (m ≡ n) × (before ++ after ≡ [])
  single [] m after e = (cc, cc)
  single (x ∷ []) m after e = cc
  single (x ∷ y ∷ before) m after e = cc

  none-split : (before : List A) (m : A) (after : List A) → [] ≡ before ++ m ∷ after → ⊥
  none-split [] m after e = cc
  none-split (x ∷ before) m after e = cc

  split-Flight :
      (fl q : List A) (busy : Bool) (before : List A) (m : A) (after : List A)
      → Flight fl q busy
      → fl ≡ before ++ m ∷ after
      → (first q ≡ some m) × (before ++ after ≡ []) × (busy ≡ true)
  split-Flight [] q busy before m after v e = absurd (none-split before m after e)
  split-Flight (n ∷ []) q busy before m after v e = ground (arith, single before m after {n = n} e)
  split-Flight (n ∷ n' ∷ ns) q busy before m after v e = elim v [ ]

  -- Only the write of the head of the queue can come to an end, and it is the only one.
  pub completing :
      (w : Wire A) (before : List A) (m : A) (after : List A)
      → Inv w
      → w.in_flight ≡ before ++ m ∷ after
      → (first w.queue ≡ some m) × (before ++ after ≡ []) × (w.busy ≡ true)
  completing w before m after v e =
      split-Flight w.in_flight w.queue w.busy before m after v.flight e

  -- An idle wire has nothing under way.
  quiet : (fl q : List A) (busy : Bool) → Flight fl q busy → busy ≡ false → fl ≡ []
  quiet [] q busy v e = refl
  quiet (m ∷ []) q busy v e = cc (v.1)
  quiet (m ∷ n ∷ ms) q busy v e = elim v [ ]

  first-tail : (q : List A) {m : A} → first q ≡ some m → m ∷ tail q ≡ q
  first-tail [] e = cc
  first-tail (x ∷ xs) e = cc

  first-append : (q r : List A) {m : A} → first q ≡ some m → first (q ++ r) ≡ some m
  first-append [] r e = cc
  first-append (x ∷ xs) r e = e

  Flight-append : (fl q r : List A) (busy : Bool) → Flight fl q busy → Flight fl (q ++ r) busy
  Flight-append [] q r busy v = tt
  Flight-append (m ∷ []) q r busy v = (first-append q r v.0, v.1)
  Flight-append (m ∷ n ∷ ms) q r busy v = elim v [ ]

  pub Step-Inv : {w v : Wire A} → Step w v → Inv w → Inv v
  Step-Inv {w} (submit m) v = pump-Inv _ (record {
    flight = Flight-append w.in_flight w.queue (m ∷ []) w.busy v.flight;
    shut = v.shut;
    fifo = rw v.fifo (append_assoc w.written w.queue (m ∷ []));
    quiet = quiet w.in_flight w.queue w.busy v.flight;
  })
  Step-Inv {w} open_up v = pump-Inv _ (record {
    flight = v.flight;
    shut = λ e. cc;
    fifo = v.fifo;
    quiet = quiet w.in_flight w.queue w.busy v.flight;
  })
  Step-Inv {w} (ack before m after e) v =
      let (head, empty, busy) = completing w before m after v e in
      pump-Inv _ (record {
        flight = rw empty tt;
        shut = λ _. refl;
        fifo = rw (append_assoc, v.fifo, first-tail w.queue head);
        quiet = λ _. empty;
      })
  Step-Inv {w} (lose before m after e) v =
      let (head, empty, busy) = completing w before m after v e in
      record { flight = rw empty tt; prompt = v.prompt; shut = v.shut; fifo = v.fifo }
  Step-Inv idle v = v

  pub Reach-Inv : {w : Wire A} → Reach w → Inv w
  Reach-Inv start = record { flight = tt; prompt = λ _ _. refl; shut = λ _. refl; fifo = refl }
  Reach-Inv (later r s) = Step-Inv s (Reach-Inv r)

  -- A live wire that is not busy has written all that was submitted.
  pub caught_up : {w : Wire A} → Inv w → w.live ≡ true → w.busy ≡ false → w.sent ≡ w.written
  caught_up {w} v l b = v.fifo ∙ ap (λ q. w.written ++ q) (v.prompt l b) ∙ append-nil w.written

  Flight-le_one : (fl q : List A) (busy : Bool) → Flight fl q busy → length fl ≤ 1
  Flight-le_one [] q busy v = omega arith
  Flight-le_one (m ∷ []) q busy v = omega arith
  Flight-le_one (m ∷ n ∷ ms) q busy v = elim v [ ]

  Flight-first :
      (fl q : List A) (busy : Bool) (m : A) → Flight fl q busy → fl ≡ m ∷ [] → first q ≡ some m
  Flight-first [] q busy m v e = cc
  Flight-first (n ∷ []) q busy m v e = cc (v.0)
  Flight-first (n ∷ n' ∷ ns) q busy m v e = elim v [ ]

  pub single_flight :
      {w : Wire A}
      → Inv w
      → (length w.in_flight ≤ 1)
        × ((m : A) → w.in_flight ≡ m ∷ [] → first w.queue ≡ some m)
        × (w.live ≡ false → w.in_flight ≡ [])
  single_flight {w} v = (
    Flight-le_one w.in_flight w.queue w.busy v.flight,
    λ m. Flight-first w.in_flight w.queue w.busy m v.flight,
    λ l. quiet w.in_flight w.queue w.busy v.flight (v.shut l),
  )
