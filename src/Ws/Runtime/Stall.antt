-- ===== src/Ws/Runtime/Stall.antt =====
-- A session after a write that failed.
use sample.Base.{
  true, String, List, [], ◌∷◌, ◌++◌, ◌≡◌, refl, ap, sym, ◌∙◌, length, ◌≤◌, arith, length-append,
}
use sample.Asio.{failed, is_sending, Sending, sending, send_idle}
use sample.Wire.{Wire}
use sample.Wire.Laws.{single_flight, Reach-Inv, Inv}
use sample.Wire.Stuck.{Stuck, Stuck-Step, flight_busy, not_empty}
use mathlib.Core.Path.{subst}
use sample.Ws.Runtime.{
  Op, writing, Result, Run, Steps, stays, goes_on, complete, Reach, writes, wire,
}
use sample.Ws.Runtime.Handlers.{writes-append, handle_tx-wire}
use sample.Ws.Runtime.Delivery.{Step-wire, Reach-wire}

-- One write leaves nothing when it is taken out.
alone :
    (xs : List String) (m : String) (ys : List String) → length (xs ++ m ∷ ys) ≤ 1 → xs ++ ys ≡ []
alone [] m [] h = refl
alone [] m (y ∷ ys) h = absurd (omega arith)
alone (x ∷ xs) m ys h = absurd (omega (arith, length-append xs (m ∷ ys)))

module _ {L : Type 0} where
  Stuck-Steps :
      {r t : Run L} → Stuck (wire r) → Steps r t → Stuck (wire t) × (t.written ≡ r.written)
  Stuck-Steps s stays = (s, refl)
  Stuck-Steps s (goes_on path step) =
      let (s1, same) = Stuck-Steps s path in
      let (s2, still) = Stuck-Step s1 (Step-wire step) in (s2, still ∙ same)

  wire-complete :
      (r : Run L) (before : List Op) (m : String) (rest : List Op) (c : Result)
      → failed c.code ≡ true
      → wire (complete r before (writing m) rest c)
        ≡ record (wire r) { in_flight = writes before ++ writes rest }
  wire-complete r before m rest c bad =
      rw (handle_tx-wire c.code r.session (before ++ rest) r.sent, bad, writes-append before rest)
        refl

  -- A session whose write has failed takes itself to be writing for ever.
  fails-Stuck :
      (r : Run L) (before : List Op) (m : String) (rest : List Op) (c : Result)
      → Inv (wire r)
      → r.outstanding ≡ before ++ writing m ∷ rest
      → failed c.code ≡ true
      → Stuck (wire (complete r before (writing m) rest c))
        × ((complete r before (writing m) rest c).written ≡ r.written)
  fails-Stuck r before m rest c v e bad =
      let flight = ap writes e ∙ writes-append before (writing m ∷ rest) in
      let one = subst (λ (ms : List String). length ms ≤ 1) flight (single_flight v).0 in
      let busy =
        flight_busy v
          (λ none_left. not_empty (writes before) m (writes rest) (sym flight ∙ none_left)) in
      let now = wire-complete r before m rest c bad in
      (
        subst (λ (w : Wire String). Stuck w) (sym now)
            (busy, alone (writes before) m (writes rest) one),
        ap (λ (w : Wire String). w.written) now,
      )

  -- After an outstanding write of a run of the websocket session has failed, nothing more is
  -- written, whatever steps follow, and the session stays in the state `sending`.
  pub stalls :
      {l : L} {host path : String} {r t : Run L} (before : List Op) (m : String) (rest : List Op)
      (c : Result)
      → Reach l host path r
      → r.outstanding ≡ before ++ writing m ∷ rest
      → failed c.code ≡ true
      → Steps (complete r before (writing m) rest c) t
      → (t.written ≡ r.written) × (t.session.sending_state ≡ sending)
  stalls {r = r} before m rest c h e bad path =
      let (stuck, same) = fails-Stuck r before m rest c (Reach-Inv (Reach-wire h)) e bad in
      let (stuck', still) = Stuck-Steps stuck path in (still ∙ same, still_sending _ stuck'.0)
    where
      still_sending : (s : Sending) → is_sending s ≡ true → s ≡ sending
      still_sending sending e = refl
      still_sending send_idle e = cc
