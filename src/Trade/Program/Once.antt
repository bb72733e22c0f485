-- ===== src/Trade/Program/Once.antt =====
-- `RunOnce` of `TradeService`, with the sessions that it replaces.
use sample.Base.{Bool, true, false, [], ◌≡◌, refl, ap, ◌∙◌, if◌then◌else◌}
use sample.External.{Libraries}
use sample.Trade.{Trade, Effect}
use sample.Trade.Link.{Env, reconnect, http_reconnect, beat, run_once}
use sample.Trade.Program.{
  Program, does, replaces_ws, replaces_http, after_ws, after_http, after_poll,
}

module _ (lib : Libraries) {L : Type 0} (env : Env) where
  after_ws_service :
      (p : Program L)
      → (after_ws lib env p).service
        ≡ (if p.service.need_reconnect then reconnect lib env p.service else (p.service, [])).0
  unfolding after_ws
  after_ws_service p = by_test p.service.need_reconnect
    where
      by_test :
          (b : Bool)
          → (if b then replaces_ws p (reconnect lib env p.service) else p).service
            ≡ (if b then reconnect lib env p.service else (p.service, [])).0
      by_test true = refl
      by_test false = refl

  after_http_service :
      (p : Program L)
      → (after_http lib env p).service
        ≡ (if p.service.http_need_reconnect
            then http_reconnect {F = lib.doubles.Double} env p.service
            else (p.service, [])).0
  unfolding after_http
  after_http_service p = by_test p.service.http_need_reconnect
    where
      by_test :
          (b : Bool)
          → (if b
              then replaces_http p (http_reconnect {F = lib.doubles.Double} env p.service)
              else p).service
            ≡ (if b
                then http_reconnect {F = lib.doubles.Double} env p.service
                else (p.service, [])).0
      by_test true = refl
      by_test false = refl

  -- The service that a poll leaves in a program is the one that `run_once` makes.
  after_poll-run_once :
      (p : Program L) (e : Effect L lib.doubles.Double)
      → (after_poll lib env (does p e)).service ≡ (run_once lib (λ _. e) env p.service).0
  unfolding after_poll run_once
  after_poll-run_once p e =
      let q = does p e in
      ap (λ (t : Trade L). (beat lib env t).0)
        (after_http_service (after_ws lib env q)
          ∙ ap
              (λ (t : Trade L).
                (if t.http_need_reconnect
                  then http_reconnect {F = lib.doubles.Double} env t
                  else (t, [])).0)
              (after_ws_service q))
