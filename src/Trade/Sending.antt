-- ===== src/Trade/Sending.antt =====
-- Where a message that `TradeService` sends ends up.
use sample.Base.{String, List, [], ◌∷◌, ◌∷ʳ◌, ◌≡◌, refl, arith}
use sample.Ws
use sample.Http

module _ {L : Type 0} where
  -- A message given to `send` is at the end of the queue, whether or not its write begins.
  pub ws_queue : (m : String) (s : Ws.Session L) → (Ws.send m s).0.write_queue ≡ s.write_queue ∷ʳ m
  unfolding Ws.send Ws.check_send
  ws_queue m s = check (s.write_queue ∷ʳ m) refl
    where
      check :
          (q : List String)
          → s.write_queue ∷ʳ m ≡ q
          → (Ws.check_send (record s { write_queue = s.write_queue ∷ʳ m })).0.write_queue
            ≡ s.write_queue ∷ʳ m
      check [] e = ground arith
      check (x ∷ q) e = ground arith

  pub http_queue :
      (r : Http.Request) (s : Http.Session L)
      → (Http.send r s).0.request_queue ≡ s.request_queue ∷ʳ r
  unfolding Http.send Http.check_send
  http_queue r s = check (s.request_queue ∷ʳ r) refl
    where
      check :
          (q : List Http.Request)
          → s.request_queue ∷ʳ r ≡ q
          → (Http.check_send (record s { request_queue = s.request_queue ∷ʳ r })).0.request_queue
            ≡ s.request_queue ∷ʳ r
      check [] e = ground arith
      check (x ∷ q) e = ground arith
