-- ===== src/Ws/Runtime/Speech.antt =====
-- What a program does that only sends on a session, as steps of the session's run.
use sample.Base.{String, List, [], ◌∷◌, ◌++◌, append-nil, append_assoc, ◌≡◌, refl, ◌∙◌, arith}
use sample.Ws.{Session, send}
use sample.Ws.Runtime.Calls.{state-send}
use sample.Ws.Runtime.Phases.{setups, setups-append, setups-send}
use sample.Ws.Runtime.Alive.{reads, reads-append, reads-send}
use sample.Ws.Runtime.{Op, all_started, Run, submits, Steps, stays, goes_on, Reach, later}

module _ {L : Type 0} where
  abbrev pub run_of : Session L → List Op → (sent written : List String) → Run L
  run_of s ops sent written = record {
    session = s;
    outstanding = ops;
    sent = sent;
    written = written;
  }

  pub Steps-trans : {r t u : Run L} → Steps r t → Steps t u → Steps r u
  Steps-trans h stays = h
  Steps-trans h (goes_on more step) = goes_on (Steps-trans h more) step

  pub Reach-Steps :
      {l : L} {host path : String} {r t : Run L}
      → Reach l host path r
      → Steps r t
      → Reach l host path t
  Reach-Steps h stays = h
  Reach-Steps h (goes_on more step) = later (Reach-Steps h more) step

  -- From `s` to `t` the program gives `messages` to `send`, which begins `ops`.
  pub record Speech (s t : Session L) (ops : List Op) (messages : List String) : Type 0 where
    pub steps :
        (others : List Op) (sent written : List String)
        → Steps (run_of s others sent written) (run_of t (others ++ ops) (sent ++ messages) written)
    pub state : t.state ≡ s.state
    pub no_setups : setups ops ≡ 0
    pub no_reads : reads ops ≡ 0

  pub silence : (s : Session L) → Speech s s [] []
  silence s = record {
    steps = λ others sent written. rw (append-nil others, append-nil sent) stays;
    state = refl;
    no_setups = refl;
    no_reads = refl;
  }

  pub one_message :
      (m : String) (s : Session L) → Speech s (send m s).0 (all_started (send m s).1) (m ∷ [])
  one_message m s = record {
    steps = λ others sent written. goes_on stays (submits m);
    state = state-send m s;
    no_setups = setups-send m s;
    no_reads = reads-send m s;
  }

  pub speak_on :
      {s t u : Session L} {ops ops' : List Op} {messages messages' : List String}
      → Speech s t ops messages
      → Speech t u ops' messages'
      → Speech s u (ops ++ ops') (messages ++ messages')
  speak_on {s} {t} {u} {ops} {ops'} {messages} {messages'} a b = record {
    steps = λ others sent written.
        rw (← append_assoc others ops ops', ← append_assoc sent messages messages')
          (Steps-trans (a.steps others sent written)
            (b.steps (others ++ ops) (sent ++ messages) written));
    state = b.state ∙ a.state;
    no_setups = omega (arith, setups-append ops ops', a.no_setups, b.no_setups);
    no_reads = omega (arith, reads-append ops ops', a.no_reads, b.no_reads);
  }
