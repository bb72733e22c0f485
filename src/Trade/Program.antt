-- ===== src/Trade/Program.antt =====
-- `TradeService` at work: `Connect` once, then calls of `RunOnce`, in each of which at most one
-- handler of a session runs, and orders between them. A session that the service has replaced lives
-- on while it has operations outstanding, and its handlers go on calling the service.
pub mod Steps
pub mod Speeches
pub mod Spoken
pub mod Messages
pub mod Effects
pub mod Runs
pub mod Invariant
pub mod Quiet
pub mod Stopped
pub mod Replaced
pub mod Linked
pub mod Calm
pub mod Recovery
mod Once
use sample.Base.{
  ℕ, Bool, true, is_empty, ◌&&◌, ◌||◌, ◌==◌, ◌>>=◌, ◌+◌, String, List, [], ◌∷◌, ◌++◌, Option, some,
  if◌then◌else◌,
}
use sample.External.{Libraries}
use sample.Ws
use sample.Http
use sample.Trade.{Trade, Self, Output, ws_action, http_action, Effect}
use sample.Trade.Link.{
  Env, on_http_close, on_http_error, on_http_connect, on_error, on_connect, on_close, reconnect,
  http_reconnect, beat,
}
use sample.Trade.Reports.{on_message, on_http_message}

-- A session with its outstanding operations, and the messages whose write succeeded.
pub record WsLine : Type 0 where
  pub session : Ws.Session Self
  pub outstanding : List Ws.Runtime.Op
  pub written : List String

pub record HttpLine : Type 0 where
  pub session : Http.Session Self
  pub outstanding : List Http.Runtime.Op
  pub written : List Http.Request

-- The service, the operations of its two sessions, and the sessions that it has replaced, the latest
-- first.
pub record Program (L : Type 0) : Type 0 where
  pub service : Trade L
  pub ws_outstanding : List Ws.Runtime.Op
  pub ws_written : List String
  pub http_outstanding : List Http.Runtime.Op
  pub http_written : List Http.Request
  pub old_ws : List WsLine
  pub old_http : List HttpLine
  -- Whether the `io_context` is stopped: it runs no handler then, and the program never calls
  -- `restart`.
  pub stopped : Bool

abbrev pub ws_idle : List WsLine → Bool
ws_idle [] = true
ws_idle (o ∷ os) = is_empty o.outstanding && ws_idle os

abbrev pub http_idle : List HttpLine → Bool
http_idle [] = true
http_idle (o ∷ os) = is_empty o.outstanding && http_idle os

module _ {L : Type 0} where
  -- No operation of a session is outstanding.
  abbrev pub idle : Program L → Bool
  idle p =
      is_empty p.ws_outstanding
      && is_empty p.http_outstanding
      && ws_idle p.old_ws
      && http_idle p.old_http

  -- The end of `poll_one`: an `io_context` that has run out of work stops. `others` is what it has
  -- in work besides the operations of the sessions, such as timers of boost that were cancelled.
  unfoldable pub ends : (others : ℕ) → Program L → Program L
  ends others p = record p { stopped = p.stopped || (others == 0) && idle p }

module _ {L F : Type 0} where
  -- The operations that a list of outputs begins on either session.
  abbrev pub ws_begins : List (Output L F) → List Ws.Runtime.Op
  ws_begins [] = []
  ws_begins (ws_action a ∷ out) = Ws.Runtime.started a ++ ws_begins out
  ws_begins (_ ∷ out) = ws_begins out

  abbrev pub http_begins : List (Output L F) → List Http.Runtime.Op
  http_begins [] = []
  http_begins (http_action a ∷ out) = Http.Runtime.started a ++ http_begins out
  http_begins (_ ∷ out) = http_begins out

  abbrev pub does : Program L → Effect L F → Program L
  does p (t, out) = record p {
    service = t;
    ws_outstanding = p.ws_outstanding ++ ws_begins out;
    http_outstanding = p.http_outstanding ++ http_begins out;
  }

  -- The websocket session is replaced by another.
  abbrev pub replaces_ws : Program L → Effect L F → Program L
  replaces_ws p (t, out) = record p {
    service = t;
    ws_outstanding = ws_begins out;
    ws_written = [];
    old_ws =
        record {
          session = p.service.ws_session;
          outstanding = p.ws_outstanding;
          written = p.ws_written;
        }
        ∷ p.old_ws;
  }

  abbrev pub replaces_http : Program L → Effect L F → Program L
  replaces_http p (t, out) = record p {
    service = t;
    http_outstanding = http_begins out;
    http_written = [];
    old_http =
        record {
          session = p.service.http_session;
          outstanding = p.http_outstanding;
          written = p.http_written;
        }
        ∷ p.old_http;
  }

module _ (lib : Libraries) {L : Type 0} where
  -- What the service does when a websocket session calls it. `none` is an assertion of rapidjson that
  -- fails, or a read of `auth_id_` before it is assigned.
  unfoldable pub ws_called : Ws.Runtime.Calls.Call → Trade L → Option (Effect L lib.doubles.Double)
  ws_called Ws.Runtime.Calls.connects t = some (on_connect t, [])
  ws_called Ws.Runtime.Calls.closes t = some (on_close t, [])
  ws_called (Ws.Runtime.Calls.fails ec) t = some (on_error ec t, [])
  ws_called (Ws.Runtime.Calls.says text) t = on_message lib.json lib.doubles text t

  unfoldable pub http_called :
      Http.Runtime.Speech.Call → Trade L → Option (Effect L lib.doubles.Double)
  http_called Http.Runtime.Speech.connects t = some (on_http_connect t, [])
  http_called Http.Runtime.Speech.closes t = some (on_http_close t, [])
  http_called (Http.Runtime.Speech.fails ec) t = some (on_http_error ec t, [])
  http_called (Http.Runtime.Speech.says text) t = on_http_message lib.json lib.doubles text t

  -- One call after another.
  unfoldable pub all_called :
      {C : Type 0}
      → (C → Trade L → Option (Effect L lib.doubles.Double))
      → List C
      → Trade L
      → Option (Effect L lib.doubles.Double)
  all_called called [] t = some (t, [])
  all_called called (c ∷ more) t = do
    (u, out) ← called c t
    (v, others) ← all_called called more u
    some (v, out ++ others)

  -- `RunOnce` behind its poll.
  unfoldable pub after_ws : Env → Program L → Program L
  after_ws env p =
      if p.service.need_reconnect then replaces_ws p (reconnect lib env p.service) else p

  unfoldable pub after_http : Env → Program L → Program L
  after_http env p =
      if p.service.http_need_reconnect
      then replaces_http p (http_reconnect {F = lib.doubles.Double} env p.service)
      else p

  unfoldable pub after_poll : Env → Program L → Program L
  unfolding after_ws after_http
  after_poll env p = let q = after_http env (after_ws env p) in does q (beat lib env q.service)
