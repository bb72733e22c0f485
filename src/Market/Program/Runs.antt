-- ===== src/Market/Program/Runs.antt =====
-- `MarketDataService` at work, as a run of its session.
use mathlib.Core.Path.{subst}
use sample.Base.{
  ℕ, String, List, [], ◌∷◌, ◌++◌, Option, none, some, ◌≡◌, refl, sym, ap, ◌∙◌, if◌then◌else◌,
}
use sample.External.{Rapidjson, Doubles}
use sample.Asio.{is_connected}
use sample.Ws
use sample.Ws.Runtime.{Op, ws_shaking, Result, handle}
use sample.Ws.Runtime.Calls.{Call, news, calls-handle}
use sample.Ws.Runtime.Phases.{not_yet, Reach-listeners}
use sample.Ws.Runtime.Speech.{run_of, Reach-Steps, Steps-trans}
use sample.Base.Dict
use sample.Market.{Snapshot}
use sample.Market.Books.{AllSorted}
use sample.Market.Link.{Self, this, Service, Effect, connect, run_once, register_listener}
use sample.Market.Program.{
  Program, does, all_called, poll, completed, Step, polls, passes, registers, Reach, start, later,
}
use sample.Market.Program.Calls.{all_said, Left, all_called-Left}
use sample.Exchange.{new_market}
use sample.Market.Program.Speeches.{beat_text, nothing, beats, run_once-Says, run_once_id}
use sample.Market.Program.Protocol.{Traffic, quiet, unchanged, traffic_handle, traffic_on}

none_kept : AllSorted []
unfolding Dict.lookup
none_kept symbol s e = absurd (not_some e)
  where
    not_some : ¬ (◌≡◌ {A = Option Snapshot} none (some s))
    not_some e = cc

-- The state of the session, as the state of a run in which `sent` was given to `send`.
abbrev pub run : {L : Type 0} → Program L → List String → Ws.Runtime.Run Self
run p sent = run_of p.service.ws_session p.outstanding sent p.written

module _ (J : Rapidjson) (D : Doubles) {L : Type 0} where
  pub record Inv (from : Ws.Runtime.Run Self) (p : Program L) : Type 0 where
    pub sent : List String
    pub reached : Ws.Runtime.Reach this "phemex.com" "/ws" (run p sent)
    pub steps : Ws.Runtime.Steps from (run p sent)
    pub traffic : Traffic (is_connected p.service.ws_session.state) p.service.market.id sent
    pub sorted : AllSorted p.service.market.snapshot_map

  -- `RunOnce` behind a poll that has left `e`.
  behind :
      (from : Ws.Runtime.Run Self) (p : Program L) (s : Service L) (e : Effect L D.Double) (now : ℕ)
      (sent ms : List String)
      → Ws.Runtime.Reach this "phemex.com" "/ws" (run p sent)
      → Ws.Runtime.Steps from (run p sent)
      → Traffic (is_connected p.service.ws_session.state) p.service.market.id (sent ++ ms)
      → AllSorted p.service.market.snapshot_map
      → Left J D p.service e ms
      → Inv from (does p (run_once (λ _. e) now s))
  behind from p s e now sent ms reached steps traffic sorted left =
      let beaten = beats e.0 now in
      let more = if beaten then beat_text e.0.market.id ∷ [] else [] in
      let all = run_once-Says p.service s e now ms left.says_so in
      let (id, books) = run_once_id s e now in
      record {
        sent = sent ++ (ms ++ more);
        reached = Reach-Steps reached (all.speech.steps p.outstanding sent p.written);
        steps = Steps-trans steps (all.speech.steps p.outstanding sent p.written);
        traffic = traffic_on beaten sent ms (ap is_connected all.state) left.same_id id traffic;
        sorted = subst AllSorted (sym books) (left.sorted sorted);
      }

  -- `RunOnce`, when an operation has completed.
  pub polled :
      (from : Ws.Runtime.Run Self) {start : Ws.Runtime.Run Self} {p : Program L} (before : List Op)
      (op : Op) (rest : List Op) (c : Result) (at now : ℕ) (e : Effect L D.Double) (v : Inv start p)
      → p.outstanding ≡ before ++ op ∷ rest
      → poll J D at op c p.service ≡ some e
      → Ws.Runtime.Steps from (Ws.Runtime.complete (run p v.sent) before op rest c)
      → Inv from (does (completed J D p before op rest c) (run_once (λ _. e) now p.service))
  unfolding poll run_once
  polled from {p = p} before op rest c at now e v is done steps =
      let w = p.service.ws_session in
      let one = calls-handle op c w this (Reach-listeners v.reached) in
      let early = λ (same : op ≡ ws_shaking).
        not_yet before rest v.reached (is ∙ ap (λ (o : Op). before ++ o ∷ rest) same) in
      let t : Service L = record p.service { ws_session = (handle op c w).0 } in
      let q : Program L = record (completed J D p before op rest c) { service = t } in
      behind from q p.service e now v.sent (all_said at (news op c w.rd_buffer))
        (Ws.Runtime.later v.reached (Ws.Runtime.completes before op rest c is)) steps
        (traffic_handle at op c w early v.traffic) v.sorted
        (all_called-Left J D at (news op c w.rd_buffer) t e
          (ap (λ (cs : List Call). all_called J D at cs t) (sym one) ∙ done))

  pub Step-Inv :
      {from : Ws.Runtime.Run Self} {p q : Program L} → Inv from p → Step J D p q → Inv from q
  unfolding run_once register_listener
  Step-Inv {from} {p} v (polls before op rest c at now e is done) =
      polled from before op rest c at now e v is done
        (Ws.Runtime.goes_on v.steps (Ws.Runtime.completes before op rest c is))
  Step-Inv {from} {p} v (passes now) =
      behind from p p.service (p.service, []) now v.sent [] v.reached v.steps
        (unchanged refl refl v.traffic) v.sorted
        (record { says_so = nothing p.service p.service refl; same_id = refl; sorted = λ b. b })
  Step-Inv v (registers l) = record {
    sent = v.sent;
    reached = v.reached;
    steps = v.steps;
    traffic = v.traffic;
    sorted = v.sorted;
  }

  pub Reach-Inv : {p : Program L} → Reach J D p → Inv (Ws.Runtime.launch this "phemex.com" "/ws") p
  unfolding connect new_market Ws.connect Ws.add_listener Ws.new_session
  Reach-Inv start = record {
    sent = [];
    reached = Ws.Runtime.start;
    steps = Ws.Runtime.stays;
    traffic = quiet;
    sorted = none_kept;
  }
  Reach-Inv (later h step) = Step-Inv (Reach-Inv h) step
