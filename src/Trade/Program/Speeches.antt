-- ===== src/Trade/Program/Speeches.antt =====
-- What each operation of `TradeService` says on its two sessions.
use sample.Base.{String, List, [], ◌∷◌, ◌++◌, map, ◌≡◌, refl, sym, ap, ◌∙◌, append_assoc}
use sample.Ws
use sample.Http
use sample.Trade.{Trade, Self, Output, ws_action, http_action, Effect, ◌|>◌, ws_send, http_send}
use sample.Trade.Program.{ws_begins, http_begins}

module _ {L F : Type 0} where
  pub ws_begins-append :
      (xs ys : List (Output L F)) → ws_begins (xs ++ ys) ≡ ws_begins xs ++ ws_begins ys
  ws_begins-append [] ys = refl
  ws_begins-append (ws_action a ∷ xs) ys =
      ap (λ (l : List Ws.Runtime.Op). Ws.Runtime.started a ++ l) (ws_begins-append xs ys)
      ∙ sym (append_assoc (Ws.Runtime.started a) (ws_begins xs) (ws_begins ys))
  ws_begins-append (_ ∷ xs) ys = ws_begins-append xs ys

  pub http_begins-append :
      (xs ys : List (Output L F)) → http_begins (xs ++ ys) ≡ http_begins xs ++ http_begins ys
  http_begins-append [] ys = refl
  http_begins-append (http_action a ∷ xs) ys =
      ap (λ (l : List Http.Runtime.Op). Http.Runtime.started a ++ l) (http_begins-append xs ys)
      ∙ sym (append_assoc (Http.Runtime.started a) (http_begins xs) (http_begins ys))
  http_begins-append (_ ∷ xs) ys = http_begins-append xs ys

-- Lists of outputs on one session alone.
ws_begins-ws :
    (L F : Type 0) (actions : List (Ws.Action Self))
    → ws_begins {L = L} {F = F} (map (λ a. ws_action a) actions) ≡ Ws.Runtime.all_started actions
ws_begins-ws L F [] = refl
ws_begins-ws L F (a ∷ actions) =
    ap (λ (l : List Ws.Runtime.Op). Ws.Runtime.started a ++ l) (ws_begins-ws L F actions)

http_begins-ws :
    (L F : Type 0) (actions : List (Ws.Action Self))
    → http_begins {L = L} {F = F} (map (λ a. ws_action a) actions) ≡ []
http_begins-ws L F [] = refl
http_begins-ws L F (a ∷ actions) = http_begins-ws L F actions

pub http_begins-http :
    (L F : Type 0) (actions : List (Http.Action Self))
    → http_begins {L = L} {F = F} (map (λ a. http_action a) actions)
      ≡ Http.Runtime.all_started actions
http_begins-http L F [] = refl
http_begins-http L F (a ∷ actions) =
    ap (λ (l : List Http.Runtime.Op). Http.Runtime.started a ++ l) (http_begins-http L F actions)

pub ws_begins-http :
    (L F : Type 0) (actions : List (Http.Action Self))
    → ws_begins {L = L} {F = F} (map (λ a. http_action a) actions) ≡ []
ws_begins-http L F [] = refl
ws_begins-http L F (a ∷ actions) = ws_begins-http L F actions

-- What stays of the service while its sessions live.
pub record Settled {L : Type 0} (t u : Trade L) : Type 0 where
  pub host : u.host ≡ t.host
  pub ws_host : u.ws_host ≡ t.ws_host

module _ {L F : Type 0} where
  -- From `t` an effect gives `messages` and `requests` to the two sessions, and keeps their hosts.
  pub record Says (t : Trade L) (e : Effect L F) (messages : List String)
      (requests : List Http.Request) : Type 0 where
    pub ws : Ws.Runtime.Speech.Speech t.ws_session e.0.ws_session (ws_begins e.1) messages
    pub http : Http.Runtime.Speech.Speech t.http_session e.0.http_session (http_begins e.1) requests
    pub settled : Settled t e.0

  pub nothing :
      (t u : Trade L)
      → u.ws_session ≡ t.ws_session
      → u.http_session ≡ t.http_session
      → Settled t u
      → (out : List (Output L F)) → ws_begins out ≡ []
      → http_begins out ≡ []
      → Says t (u, out) [] []
  nothing t u ew eh s out ow oh = record {
    ws = rw (ew, ow) (Ws.Runtime.Speech.silence t.ws_session);
    http = rw (eh, oh) (Http.Runtime.Speech.silence t.http_session);
    settled = s;
  }

  pub ws_send-Says : (text : String) (t : Trade L) → Says t (ws_send text t) (text ∷ []) []
  unfolding ws_send
  ws_send-Says text t = record {
    ws =
        rw (ws_begins-ws L F (Ws.send text t.ws_session).1)
          (Ws.Runtime.Speech.one_message text t.ws_session);
    http =
        rw (http_begins-ws L F (Ws.send text t.ws_session).1)
          (Http.Runtime.Speech.silence t.http_session);
    settled = record { host = refl; ws_host = refl };
  }

  pub http_send-Says : (r : Http.Request) (t : Trade L) → Says t (http_send r t) [] (r ∷ [])
  unfolding http_send
  http_send-Says r t = record {
    ws =
        rw (ws_begins-http L F (Http.send r t.http_session).1)
          (Ws.Runtime.Speech.silence t.ws_session);
    http =
        rw (http_begins-http L F (Http.send r t.http_session).1)
          (Http.Runtime.Speech.one_request r t.http_session);
    settled = record { host = refl; ws_host = refl };
  }

  pub Says-then :
      (t : Trade L) (e : Effect L F) (f : Trade L → Effect L F) (ms ns : List String)
      (rs qs : List Http.Request)
      → Says t e ms rs
      → Says e.0 (f e.0) ns qs
      → Says t (e |> f) (ms ++ ns) (rs ++ qs)
  Says-then t e f ms ns rs qs a b = record {
    ws = rw (ws_begins-append e.1 (f e.0).1) (Ws.Runtime.Speech.speak_on a.ws b.ws);
    http = rw (http_begins-append e.1 (f e.0).1) (Http.Runtime.Speech.speak_on a.http b.http);
    settled = record {
      host = b.settled.host ∙ a.settled.host;
      ws_host = b.settled.ws_host ∙ a.settled.ws_host;
    };
  }
