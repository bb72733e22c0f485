-- ===== src/Market/Program/Speeches.antt =====
-- What each operation of `MarketDataService` says on its session.
use mathlib.Core.Path.{subst}
use sample.Base.{
  ℕ, suc, ◌+◌, Bool, true, false, String, List, [], ◌∷◌, ◌++◌, map, ◌≡◌, refl, sym, ap, ◌∙◌,
  append_assoc, if◌then◌else◌, ltb,
}
use sample.Base.Decimal.{to_string, replace_hash}
use sample.Ws
use sample.Ws.Runtime.{Op, all_started}
use sample.Ws.Runtime.Calls.{state-send}
use sample.Ws.Runtime.Speech.{Speech, silence, one_message, speak_on}
use sample.Market.{Output}
use sample.Market.Link.{
  Self, Service, Deed, ws_action, tells, Effect, ◌|>◌, book_sub, trade_sub, heart_beat, ws_send,
  on_connect, send_subscription, send_heartbeat, beat_now, run_once,
}
use sample.Market.Program.{begins}

-- The texts that the service sends.
abbrev pub book_text : ℕ → String
book_text id = replace_hash book_sub (to_string id)

abbrev pub trade_text : ℕ → String
trade_text id = replace_hash trade_sub (to_string id)

abbrev pub beat_text : ℕ → String
beat_text id = replace_hash heart_beat (to_string id)

begins-append :
    {L F : Type 0} (xs ys : List (Deed L F)) → begins (xs ++ ys) ≡ begins xs ++ begins ys
begins-append [] ys = refl
begins-append (ws_action a ∷ xs) ys =
    ap (λ (l : List Op). Ws.Runtime.started a ++ l) (begins-append xs ys)
    ∙ sym (append_assoc (Ws.Runtime.started a) (begins xs) (begins ys))
begins-append (tells o ∷ xs) ys = begins-append xs ys

begins-ws_action :
    (L F : Type 0) (actions : List (Ws.Action Self))
    → begins {L = L} {F = F} (map (λ a. ws_action a) actions) ≡ all_started actions
begins-ws_action L F [] = refl
begins-ws_action L F (a ∷ actions) =
    ap (λ (l : List Op). Ws.Runtime.started a ++ l) (begins-ws_action L F actions)

abbrev pub beats : {L : Type 0} → Service L → (now : ℕ) → Bool
beats s now = ltb (s.market.last_heartbeat_time + 29000) now

pub on_connect_market :
    {L : Type 0} (F : Type 0) (now : ℕ) (s : Service L)
    → (on_connect {F = F} now s).0.market ≡ s.market
unfolding on_connect send_subscription ws_send
on_connect_market F now s = refl

module _ {L F : Type 0} where
  begins-tells : (out : List (Output L F)) → begins (map tells out) ≡ []
  begins-tells [] = refl
  begins-tells (o ∷ out) = begins-tells out

  -- From `s` an effect gives `messages` to the session and changes nothing else of it.
  pub record Says (s : Service L) (e : Effect L F) (messages : List String) : Type 0 where
    pub speech : Speech s.ws_session e.0.ws_session (begins e.1) messages
    pub state : e.0.ws_session.state ≡ s.ws_session.state

  pub nothing : (s t : Service L) → t.ws_session ≡ s.ws_session → Says s (t, []) []
  nothing s t e = record {
    speech =
        subst (λ (w : Ws.Session Self). Speech s.ws_session w [] []) (sym e) (silence s.ws_session);
    state = ap (λ (w : Ws.Session Self). w.state) e;
  }

  ws_send-Says : (text : String) (s : Service L) → Says s (ws_send text s) (text ∷ [])
  unfolding ws_send
  ws_send-Says text s = record {
    speech =
        subst (λ (ops : List Op). Speech s.ws_session (Ws.send text s.ws_session).0 ops (text ∷ []))
          (sym (begins-ws_action L F (Ws.send text s.ws_session).1))
          (one_message text s.ws_session);
    state = state-send text s.ws_session;
  }

  pub Says-then :
      (s : Service L) (e : Effect L F) (f : Service L → Effect L F) (ms ns : List String)
      → Says s e ms
      → Says e.0 (f e.0) ns
      → Says s (e |> f) (ms ++ ns)
  Says-then s e f ms ns a b = record {
    speech =
        subst (λ (ops : List Op). Speech s.ws_session (f e.0).0.ws_session ops (ms ++ ns))
          (sym (begins-append e.1 (f e.0).1)) (speak_on a.speech b.speech);
    state = b.state ∙ a.state;
  }

  pub on_connect-Says :
      (now : ℕ) (s : Service L)
      → Says s (on_connect now s) (book_text now ∷ trade_text (suc now) ∷ [])
  unfolding on_connect
  on_connect-Says now s =
      Says-then s (ws_send (book_text now) s) (ws_send (trade_text (suc now))) (book_text now ∷ [])
        (trade_text (suc now) ∷ []) (ws_send-Says (book_text now) s)
        (ws_send-Says (trade_text (suc now)) (ws_send (book_text now) s).0)

  -- What `RunOnce` does behind its poll.
  abbrev after_poll : (now : ℕ) → Service L → Effect L F
  after_poll now u = if beats u now then beat_now now u else (u, [])

  beat_now-Says : (now : ℕ) (u : Service L) → Says u (beat_now now u) (beat_text u.market.id ∷ [])
  unfolding send_heartbeat
  beat_now-Says now u =
      let v : Service L = record u { market = record u.market { id = suc u.market.id } } in
      let w = ws_send {F = F} (beat_text u.market.id) v in
      let sent = ws_send-Says (beat_text u.market.id) v in
      Says-then u w (λ x. (record x { market = record x.market { last_heartbeat_time = now } }, []))
        (beat_text u.market.id ∷ []) [] (record { speech = sent.speech; state = sent.state })
        (nothing _ _ refl)

  pub run_once_id :
      (s : Service L) (e : Effect L F) (now : ℕ)
      → let u = (run_once (λ _. e) now s).0 in
        (u.market.id ≡ (if beats e.0 now then suc e.0.market.id else e.0.market.id))
        × (u.market.snapshot_map ≡ e.0.market.snapshot_map)
  unfolding run_once send_heartbeat ws_send
  run_once_id s e now = by_test (beats e.0 now)
    where
      by_test :
          (b : Bool)
          → let u = (if b then beat_now {F = F} now e.0 else (e.0, [])).0 in
            (u.market.id ≡ (if b then suc e.0.market.id else e.0.market.id))
            × (u.market.snapshot_map ≡ e.0.market.snapshot_map)
      by_test true = (refl, refl)
      by_test false = (refl, refl)

  after_poll-Says :
      (now : ℕ) (u : Service L)
      → Says u (after_poll now u) (if beats u now then beat_text u.market.id ∷ [] else [])
  after_poll-Says now u = by_test (beats u now)
    where
      by_test :
          (b : Bool)
          → Says u
              (if b then beat_now now u else (u, []))
              (if b then beat_text u.market.id ∷ [] else [])
      by_test true = beat_now-Says now u
      by_test false = nothing u u refl

  pub run_once-Says :
      (s t : Service L) (e : Effect L F) (now : ℕ) (ms : List String)
      → Says s e ms
      → Says s
          (run_once (λ _. e) now t)
          (ms ++ (if beats e.0 now then beat_text e.0.market.id ∷ [] else []))
  unfolding run_once
  run_once-Says s t e now ms h = Says-then s e (after_poll now) ms _ h (after_poll-Says now e.0)

  -- Calls of the service's own listeners say nothing.
  pub only_tells :
      (s t : Service L) (out : List (Output L F))
      → t.ws_session ≡ s.ws_session
      → Says s (t, map tells out) []
  only_tells s t out e = record {
    speech =
        subst (λ (ops : List Op). Speech s.ws_session t.ws_session ops []) (sym (begins-tells out))
          (nothing s t e).speech;
    state = (nothing s t e).state;
  }
