-- ===== src/Trade/Ids.antt =====
-- The ids of the messages on the websocket: which replies `onMessage` takes for the reply to the
-- authentication.
use sample.Base.{ℕ, suc, ◌≤◌, ◌<◌, true, [], some, ◌≡◌, refl, ◌∙◌, if◌then◌else◌, ◌>>=◌, arith}
use sample.Base.Int.{pos, ◌==ℤ◌}
use sample.External.{Rapidjson, Doubles, Libraries}
use sample.Trade.{Trade, Effect, ws_send, http_send}
use sample.Base.{String, List, ◌∷◌, ◌++◌, ◌∷ʳ◌, ap₂, append_assoc}
use sample.Base.Decimal.{to_string, replace_hash}
use sample.Trade.Sending.{ws_queue}
use sample.Trade.Upkeep.{auth_text, ping, ping_lem}
use sample.Trade.Link.{heart_beat, Env, send_subscribe, send_heartbeat, send_auth}
use sample.Trade.Reports.{on_reply}

-- The authentication's id is the last one given out.
abbrev pub Waiting : {L : Type 0} → Trade L → Type 0
Waiting t = t.auth_id ≡ some t.id

-- The authentication's id was given out, and others may have been since.
abbrev pub Known : {L : Type 0} → Trade L → Type 0
Known t = (a : ℕ) × (t.auth_id ≡ some a) × (a ≤ t.id)

-- Others have been.
abbrev pub Passed : {L : Type 0} → Trade L → Type 0
Passed t = (a : ℕ) × (t.auth_id ≡ some a) × (a < t.id)

-- `doc` has the number `id` as its "id".
abbrev pub Replies : (J : Rapidjson) → J.Value → ℕ → Type 0
Replies J doc id =
    (J.has_member doc "id" ≡ some true) × ((J.member doc "id" >>= J.get_int64) ≡ some (pos id))

module _ (lib : Libraries) {L : Type 0} where
  pub send_auth-Waiting : (env : Env) (t : Trade L) → Waiting (send_auth lib env t).0
  unfolding send_auth ws_send
  send_auth-Waiting env t = refl

  pub send_subscribe-Passed :
      (t : Trade L) → Known t → Passed (send_subscribe {F = lib.doubles.Double} t).0
  unfolding send_subscribe ws_send
  send_subscribe-Passed t (a, is, le) = (a, is, omega arith)

  pub send_heartbeat-Passed :
      (env : Env) (t : Trade L) → Known t → Passed (send_heartbeat {F = lib.doubles.Double} env t).0
  unfolding send_heartbeat ws_send http_send
  send_heartbeat-Passed env t (a, is, le) = (a, is, omega arith)

module _ (J : Rapidjson) (D : Doubles) {L : Type 0} where
  -- The reply to the authentication starts the subscription, once for each such reply.
  on_reply_lem :
      (t : Trade L) (doc : J.Value) (a n : ℕ)
      → t.auth_id ≡ some a
      → Replies J doc n
      → on_reply J D doc t ≡ some (if pos n ==ℤ pos a then send_subscribe t else (t, []))
  unfolding on_reply
  on_reply_lem t doc a n is (has, id) = rw (has, id, is) refl

  send_heartbeat_id :
      (env : Env) (t : Trade L) → (send_heartbeat {F = D.Double} env t).0.id ≡ suc t.id
  unfolding send_heartbeat ws_send http_send
  send_heartbeat_id env t = refl

  pub pong-Passed :
      (env : Env) (t : Trade L) (doc : J.Value)
      → Passed t
      → Replies J doc t.id
      → let (u, out) : Effect L D.Double = send_heartbeat env t in on_reply J D doc u ≡ some (u, [])
  unfolding send_heartbeat ws_send http_send
  pong-Passed env t doc (a, is, below) reply = on_reply_lem _ doc a t.id is reply ∙ ground arith

  -- When the authentication has the last id given out and the reply to it comes before the next
  -- heartbeat, that reply starts the subscription, the heartbeat takes the id after that of the
  -- subscription, and a reply with the heartbeat's id starts nothing.
  subscribes_once :
      (env : Env) (t : Trade L) (doc doc' : J.Value)
      → Waiting t
      → Replies J doc t.id
      → Replies J doc' (suc t.id)
      → let (v, sent) : Effect L D.Double = send_subscribe t in
        let (w, out) : Effect L D.Double = send_heartbeat env v in
        (on_reply J D doc t ≡ some (send_subscribe t))
        × (w.id ≡ suc (suc t.id))
        × (on_reply J D doc' w ≡ some (w, []))
  unfolding send_subscribe ws_send
  subscribes_once env t doc doc' waiting reply reply' = (
    on_reply_lem t doc t.id t.id waiting reply ∙ ground arith,
    (send_heartbeat_id env _),
    pong-Passed env _ doc' (t.id, waiting, omega arith) reply',
  )

  -- With the last id as that of the authentication, a reply with it starts the subscription, also
  -- behind a heartbeat and once more behind the subscription.
  started_twice :
      (env : Env) (t : Trade L) (doc doc' : J.Value)
      → Waiting t
      → Replies J doc t.id
      → Replies J doc' t.id
      → let (u, out) : Effect L D.Double = send_heartbeat env t in
        let (v, sent) : Effect L D.Double = send_subscribe u in
        (on_reply J D doc u ≡ some (send_subscribe u))
        × (on_reply J D doc' v ≡ some (send_subscribe v))
  unfolding send_heartbeat send_subscribe ws_send http_send
  started_twice env t doc doc' waiting reply reply' = (
    on_reply_lem _ doc t.id t.id waiting reply ∙ ground arith,
    on_reply_lem _ doc' t.id t.id waiting reply' ∙ ground arith,
  )

module _ (lib : Libraries) {L : Type 0} where
  open lib use {json, doubles}

  -- The heartbeat behind an authentication is written with the id of that authentication.
  both_queued :
      (env : Env) (t : Trade L)
      → let u = (send_heartbeat {F = doubles.Double} env (send_auth lib env t).0).0 in
        u.ws_session.write_queue
        ≡ t.ws_session.write_queue ++ auth_text lib env t ∷ ping (suc t.id) ∷ []
  unfolding send_auth send_heartbeat ws_send http_send
  both_queued env t =
      ws_queue (replace_hash heart_beat (to_string (suc t.id))) _
      ∙ ap₂ (λ (q : List String) (m : String). q ∷ʳ m) (ws_queue (auth_text lib env t) t.ws_session)
          (ping_lem (suc t.id))
      ∙ append_assoc t.ws_session.write_queue (auth_text lib env t ∷ []) (ping (suc t.id) ∷ [])

  -- When the authentication is sent and then a heartbeat, both texts are queued with the same id,
  -- in this order; and two replies with that id, the second handled after the subscription that
  -- the first has started, both start the subscription.
  pub subscribes_twice :
      (env : Env) (t : Trade L) (doc doc' : json.Value)
      → Replies json doc (suc t.id)
      → Replies json doc' (suc t.id)
      → let (a, _) = send_auth lib env t in
        let (u, _) : Effect L doubles.Double = send_heartbeat env a in
        let (v, _) : Effect L doubles.Double = send_subscribe u in
        (u.ws_session.write_queue
          ≡ t.ws_session.write_queue ++ auth_text lib env t ∷ ping (suc t.id) ∷ [])
        × (on_reply json doubles doc u ≡ some (send_subscribe u))
        × (on_reply json doubles doc' v ≡ some (send_subscribe v))
  unfolding send_auth ws_send
  subscribes_twice env t doc doc' reply reply' =
      let a = (send_auth lib env t).0 in
      let (here, there) = started_twice json doubles env a doc doc' refl reply reply' in
      (both_queued env t, here, there)
