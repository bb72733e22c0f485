-- ===== src/Trade/Program/Calm.antt =====
-- `RunOnce` of `TradeService` when all goes well around it.
use sample.Base.{Bool, true, false, [], ◌++◌, ◌≡◌, refl, ap, ◌∙◌, arith, append-nil, if◌then◌else◌}
use sample.External.{Libraries}
use sample.Ws.Runtime.{Result}
use sample.Trade.{Trade, Effect}
use sample.Trade.Link.{Env, http_reconnect, open_http, beat}
use sample.Trade.Program.{Program, replaces_http, ws_begins, after_ws, after_http, after_poll}
use sample.Trade.Program.Quiet.{after_http_rest}

-- An operation that succeeds, and quiet surroundings.
abbrev pub fine : Result
fine = record { code = 0; named = true; ssl_error = 0; received = "" }

abbrev pub calm : Env
calm = record {
  now = 0;
  auth_now = 0;
  named = true;
  ssl_error = 0;
  curl_ready = true;
  beast_version = "";
}

module _ (lib : Libraries) {L : Type 0} where
  after_http-calm :
      (p : Program L)
      → let q = after_http lib calm p in
        (q.service.need_reconnect ≡ p.service.need_reconnect)
        × (q.ws_outstanding ≡ p.ws_outstanding)
  unfolding after_http http_reconnect open_http
  after_http-calm p = by_test p.service.http_need_reconnect
    where
      by_test :
          (b : Bool)
          → let q : Program L =
              if b
              then replaces_http p (http_reconnect {F = lib.doubles.Double} calm p.service)
              else p in
            (q.service.need_reconnect ≡ p.service.need_reconnect)
            × (q.ws_outstanding ≡ p.ws_outstanding)
      by_test true = (refl, refl)
      by_test false = (refl, refl)

  beat-calm : (t : Trade L) → beat lib calm t ≡ (t, [])
  unfolding beat
  beat-calm t = ground arith

  -- Without a reconnection the session stays as it is.
  pub after_poll-same :
      (p : Program L)
      → p.service.need_reconnect ≡ false
      → let q = after_poll lib calm p in
        (q.service.ws_session ≡ p.service.ws_session) × (q.ws_outstanding ≡ p.ws_outstanding)
  unfolding after_poll after_ws
  after_poll-same p quiet =
      let a = after_ws lib calm p in
      let q = after_http lib calm a in
      let kept : a ≡ p = rw quiet refl in
      (
        ap (λ (e : Effect L lib.doubles.Double). e.0.ws_session) (beat-calm q.service)
            ∙ (after_http_rest lib calm a).0
            ∙ ap (λ (x : Program L). x.service.ws_session) kept,
        ap (λ (e : Effect L lib.doubles.Double). q.ws_outstanding ++ ws_begins e.1)
              (beat-calm q.service)
            ∙ append-nil q.ws_outstanding
            ∙ (after_http-calm a).1
            ∙ ap (λ (x : Program L). x.ws_outstanding) kept,
      )
