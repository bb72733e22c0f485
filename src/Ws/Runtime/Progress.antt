-- ===== src/Ws/Runtime/Progress.antt =====
-- How a connected session gets rid of its queue.
use sample.Base.{
  Bool, true, false, not, ◌&&◌, String, List, [], ◌∷◌, ◌++◌, ◌∷ʳ◌, Option, none, some, some-inj,
  ◌≡◌, ◌≢◌, refl, ap, sym, ◌∙◌, length, ◌≤◌, arith, append-nil, tail, if◌then◌else◌,
}
use sample.Asio.{is_connected, is_sending, connected, Sending, send_idle, sending}
use sample.Wire.{Wire, pump, start_next}
use sample.Wire.Laws.{first, Reach-Inv, Inv, single_flight, caught_up}
use sample.Ws.Runtime.{
  Op, writing, Run, Steps, stays, goes_on, complete, completes, Reach, writes, wire,
}
use sample.Ws.Runtime.Handlers.{code_of, writes-append, handle_tx-wire}
use sample.Ws.Runtime.Delivery.{Reach-wire}
use sample.Ws.Runtime.Speech.{Reach-Steps}

-- An outstanding write, and what stands before and behind it.
find_write :
    (ops : List Op) (m : String) (ms : List String)
    → writes ops ≡ m ∷ ms
    → (before rest : List Op) × (ops ≡ before ++ writing m ∷ rest)
      × (writes before ++ writes rest ≡ ms)
find_write [] m ms e = cc
find_write (writing n ∷ ops) m ms e =
    ([], ops, ap (λ (t : String). writing t ∷ ops) (some-inj (ap first e)), ap tail e)
find_write (o ∷ ops) m ms e =
    let (before, rest, is, left) = find_write ops m ms e in
    (o ∷ before, rest, ap (λ (l : List Op). o ∷ l) is, left)

-- The head of a list, alone.
abbrev heads : List String → List String
heads [] = []
heads (m ∷ ms) = m ∷ []

pump_open : (w : Wire String) → w.live ≡ true → w.busy ≡ false → pump w ≡ start_next w w.queue
unfolding pump
pump_open w l b =
    ap (λ (c : Bool). if c then start_next w w.queue else w) (opened w.live w.busy l b)
  where
    opened : (live busy : Bool) → live ≡ true → busy ≡ false → (live && not busy) ≡ true
    opened live busy l b = rw (l, b) refl

-- What an open wire that is not writing has in flight after it has begun to write.
next_flight :
    (w : Wire String) (q : List String) → w.in_flight ≡ [] → (start_next w q).in_flight ≡ heads q
next_flight w [] e = e
next_flight w (m ∷ q) e = ap (λ (l : List String). l ∷ʳ m) e

next_rest :
    (w : Wire String) (q : List String)
    → ((start_next w q).live ≡ w.live)
      × ((start_next w q).queue ≡ w.queue)
      × ((start_next w q).sent ≡ w.sent)
next_rest w [] = (refl, refl, refl)
next_rest w (m ∷ q) = (refl, refl, refl)

heads_of :
    (fl q : List String)
    → length fl ≤ 1
    → ((n : String) → fl ≡ n ∷ [] → first q ≡ some n)
    → fl ≢ []
    → fl ≡ heads q
heads_of [] q few is h = absurd (h refl)
heads_of (n ∷ []) [] few is h = absurd (none_first (is n refl))
  where
    none_first : ¬ (◌≡◌ {A = Option String} none (some n))
    none_first e = cc
heads_of (n ∷ []) (k ∷ q) few is h = ap (λ (x : String). x ∷ []) (sym (some-inj (is n refl)))
heads_of (n ∷ k ∷ fl) q few is h = absurd (omega arith)

module _ {L : Type 0} where
  abbrev succeed : Run L → List Op → String → List Op → Run L
  succeed r before m rest = complete r before (writing m) rest (code_of 0)

  abbrev acked : Run L → List Op → String → List Op → Wire String
  acked r before m rest = record (wire r) {
    busy = false;
    queue = tail r.session.write_queue;
    in_flight = writes before ++ writes rest;
    written = r.written ∷ʳ m;
  }

  wire-acked :
      (r : Run L) (before : List Op) (m : String) (rest : List Op)
      → wire (succeed r before m rest) ≡ pump (acked r before m rest)
  wire-acked r before m rest =
      rw (handle_tx-wire 0 r.session (before ++ rest) r.sent, writes-append before rest) refl

  -- A success leaves the session writing the next message.
  succeeded :
      (r : Run L) (before : List Op) (m : String) (rest : List Op) (q : List String)
      → is_connected r.session.state ≡ true
      → r.session.write_queue ≡ m ∷ q
      → writes before ++ writes rest ≡ []
      → let t = succeed r before m rest in
        (is_connected t.session.state ≡ true)
        × (t.session.write_queue ≡ q)
        × (writes t.outstanding ≡ heads q)
        × (t.sent ≡ r.sent)
  succeeded r before m rest q live queue flight =
      let a = acked r before m rest in
      let now = wire-acked r before m rest ∙ pump_open a live refl in
      let (l, k, s) = next_rest a a.queue in
      let rest_of = ap tail queue in
      (
        ap (λ (w : Wire String). w.live) now ∙ l ∙ live,
        ap (λ (w : Wire String). w.queue) now ∙ k ∙ rest_of,
        ap (λ (w : Wire String). w.in_flight) now ∙ next_flight a a.queue flight ∙ ap heads rest_of,
        ap (λ (w : Wire String). w.sent) now ∙ s,
      )

  -- Each round succeeds with the write that is outstanding.
  drain :
      (q : List String) (s r : Run L)
      → Steps s r
      → is_connected r.session.state ≡ true
      → r.session.write_queue ≡ q
      → writes r.outstanding ≡ heads q
      → (t : Run L) × Steps s t × (t.session.write_queue ≡ []) × (t.sent ≡ r.sent)
  drain [] s r path live queue flight = (r, path, queue, refl)
  drain (m ∷ q) s r path live queue flight =
      let (before, rest, is, left) = find_write r.outstanding m [] flight in
      let (live', queue', flight', same) = succeeded r before m rest q live queue left in
      let (t, path', emptied, sent) =
        drain q s (succeed r before m rest)
          (goes_on path (completes before (writing m) rest (code_of 0) is)) live' queue' flight' in
      (t, path', emptied, sent ∙ same)

  all_written :
      {l : L} {host path : String} (t : Run L)
      → Reach l host path t
      → t.session.write_queue ≡ []
      → t.written ≡ t.sent
  all_written t h e =
      let v = Reach-Inv (Reach-wire h) in
      sym (v.fifo ∙ ap (λ (q : List String). t.written ++ q) e ∙ append-nil t.written)

  -- From every state that a run of the websocket session reaches and in which it is connected and,
  -- if it is sending, a write is outstanding, there are steps to a state in which everything sent
  -- until then is written and nothing more was sent.
  pub writes_all :
      {l : L} {host path : String} {r : Run L}
      → Reach l host path r
      → r.session.state ≡ connected
      → (r.session.sending_state ≡ sending → writes r.outstanding ≢ [])
      → (t : Run L) × Steps r t × (t.sent ≡ r.sent) × (t.written ≡ r.sent)
  writes_all {l} {host} {path} {r} h open_now going = by_sending r.session.sending_state refl
    where
      v : Inv (wire r)
      v = Reach-Inv (Reach-wire h)

      live : is_connected r.session.state ≡ true
      live = ap is_connected open_now

      by_sending :
          (s : Sending)
          → r.session.sending_state ≡ s
          → (t : Run L) × Steps r t × (t.sent ≡ r.sent) × (t.written ≡ r.sent)
      by_sending send_idle e = (r, stays, refl, sym (caught_up v live (ap is_sending e)))
      by_sending sending e =
          let (few, head, shut) = single_flight v in
          let (t, path', emptied, same) =
            drain r.session.write_queue r r stays live refl
              (heads_of (writes r.outstanding) r.session.write_queue few head (going e)) in
          (t, path', same, all_written t (Reach-Steps h path') emptied ∙ same)
