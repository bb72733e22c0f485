-- ===== src/Market/Program/Protocol.antt =====
-- The protocol that `MarketDataService` keeps on the wire.
use mathlib.Core.Path.{subst}
use sample.Base.{
  arith, ℕ, suc, Bool, true, false, String, List, [], ◌∷◌, ◌++◌, ◌≡◌, ◌≢◌, refl, ap, ◌∙◌,
  append-nil, append_assoc, if◌then◌else◌, Bool-cases, inl, inr,
}
use sample.Asio.{is_connected, failed}
use sample.Ws
use sample.Ws.Runtime.{
  Op, resolving, connecting, ssl_shaking, ws_shaking, reading, writing, Result, handle,
}
use sample.Ws.Runtime.Calls.{news}
use sample.Ws.Runtime.Phases.{state-handle, state-on_handshake}
use sample.Market.Link.{Self}
use sample.Market.Program.Calls.{all_said}
use sample.Market.Program.Speeches.{book_text, trade_text, beat_text}

-- The protocol: heartbeats with the ids 1, 2 and so on, and once the session is connected, the two
-- subscriptions, once and one behind the other. `next` is the next id.
pub data Traffic : (subscribed : Bool) → (next : ℕ) → List String → Type 0 where
  quiet : Traffic false 1 []
  beat :
      {b : Bool} {n : ℕ} {sent : List String}
      → Traffic b n sent
      → Traffic b (suc n) (sent ++ beat_text n ∷ [])
  subscribe :
      {n : ℕ} {sent : List String} (now : ℕ)
      → Traffic false n sent
      → Traffic true n (sent ++ book_text now ∷ trade_text (suc now) ∷ [])

pub unchanged :
    {b b' : Bool} {n : ℕ} {sent ms : List String}
    → b' ≡ b
    → ms ≡ []
    → Traffic b n sent
    → Traffic b' n (sent ++ ms)
unchanged {sent = sent} e none_said t = rw (e, none_said, append-nil sent) t

traffic_beat :
    (due : Bool) {b : Bool} {n : ℕ} {sent : List String}
    → Traffic b n sent
    → Traffic b (if due then suc n else n) (sent ++ (if due then beat_text n ∷ [] else []))
traffic_beat true t = beat t
traffic_beat false t = unchanged refl refl t

-- Only a completed handshake says anything.
said_news :
    (at : ℕ) (op : Op) (c : Result) (text : String)
    → op ≢ ws_shaking
    → all_said at (news op c text) ≡ []
said_news at resolving c text d = ground arith
said_news at connecting c text d = ground arith
said_news at ssl_shaking c text d = ground arith
said_news at ws_shaking c text d = absurd (d refl)
said_news at reading c text d = ground arith
said_news at (writing m) c text d = ground arith

-- The handler of an operation, and the calls that it makes.
pub traffic_handle :
    (at : ℕ) (op : Op) (c : Result) (w : Ws.Session Self) {n : ℕ} {sent : List String}
    → (op ≡ ws_shaking → is_connected w.state ≡ false)
    → Traffic (is_connected w.state) n sent
    → Traffic (is_connected (handle op c w).0.state) n (sent ++ all_said at (news op c w.rd_buffer))
traffic_handle at ws_shaking c w {n} {sent} early t = elim (Bool-cases (failed c.code)) [
  | inl bad ↦ unchanged (ap is_connected (state-on_handshake c w ∙ rw bad refl)) (rw bad refl) t
  | inr good ↦
      rw (state-on_handshake c w, good)
        (subscribe at (subst (λ (b : Bool). Traffic b n sent) (early refl) t))
]
traffic_handle at op c w early t =
    unchanged (ap is_connected (state-handle op c w (λ e. cc)))
      (said_news at op c w.rd_buffer (λ e. cc)) t

pub traffic_on :
    (due : Bool) {b b' : Bool} {n m k : ℕ} (sent ms : List String)
    → b' ≡ b
    → n ≡ m
    → k ≡ (if due then suc n else n)
    → Traffic b m (sent ++ ms)
    → Traffic b' k (sent ++ (ms ++ (if due then beat_text n ∷ [] else [])))
traffic_on due {b' = b'} {n = n} {k = k} sent ms eb en ek t =
    let more = if due then beat_text n ∷ [] else [] in
    subst (λ (l : List String). Traffic b' k l) (append_assoc sent ms more)
      (rw (eb, ek) (traffic_beat due (rw en t)))
