-- ===== src/Http/Runtime/Speech.antt =====
-- What a program does that only sends on an HTTP session, as steps of the session's run.
use sample.Base.{String, List, [], ◌∷◌, ◌++◌, append-nil, append_assoc}
use sample.Http.{
  Session, Request, Action, send, on_http_connect, on_http_message, on_http_close, on_http_error,
}
use sample.Asio.{ErrorCode}
use sample.Http.Runtime.{Op, all_started, Run, submits, Reach, later}

module _ {L : Type 0} where
  abbrev pub run_of : Session L → List Op → (sent written : List Request) → Run L
  run_of s ops sent written = record {
    session = s;
    outstanding = ops;
    sent = sent;
    written = written;
  }

  -- From `s` to `t` the program gives `requests` to `send`, which begins `ops`.
  pub record Speech (s t : Session L) (ops : List Op) (requests : List Request) : Type 0 where
    pub goes :
        (l : L) (host : String) (others : List Op) (sent written : List Request)
        → Reach l host (run_of s others sent written)
        → Reach l host (run_of t (others ++ ops) (sent ++ requests) written)

  pub silence : (s : Session L) → Speech s s [] []
  silence s = record {
    goes = λ l host others sent written h. rw (append-nil others, append-nil sent) h;
  }

  pub one_request :
      (m : Request) (s : Session L) → Speech s (send m s).0 (all_started (send m s).1) (m ∷ [])
  one_request m s = record { goes = λ l host others sent written h. later h (submits m) }

  pub speak_on :
      {s t u : Session L} {ops ops' : List Op} {requests requests' : List Request}
      → Speech s t ops requests
      → Speech t u ops' requests'
      → Speech s u (ops ++ ops') (requests ++ requests')
  speak_on {s} {t} {u} {ops} {ops'} {requests} {requests'} a b = record {
    goes = λ l host others sent written h.
        rw (← append_assoc others ops ops', ← append_assoc sent requests requests')
          (b.goes l host (others ++ ops) (sent ++ requests) written
            (a.goes l host others sent written h));
  }

-- A call of a listener.
pub data Call : Type 0 where
  connects closes : Call
  fails : ErrorCode → Call
  says : (text : String) → Call

module _ {L : Type 0} where
  abbrev pub call_of : Action L → List Call
  call_of (on_http_connect _) = connects ∷ []
  call_of (on_http_message _ text) = says text ∷ []
  call_of (on_http_close _) = closes ∷ []
  call_of (on_http_error _ ec) = fails ec ∷ []
  call_of _ = []

  -- The calls among the actions of a handler, in order.
  abbrev pub calls : List (Action L) → List Call
  calls [] = []
  calls (a ∷ rest) = call_of a ++ calls rest
