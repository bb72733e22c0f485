-- ===== src/Exchange/Configured.antt =====
-- From the configuration of an exchange to the first calls of its trade service.
use sample.Base.{true, String, [], ◌∷◌, ◌≡◌, refl}
use sample.Base.Dict
use sample.External.{Libraries}
use sample.Ws
use sample.Http
use sample.Trade.{ws_action, http_action, ws_send}
use sample.Trade.Link.{Env, read_config, open_ws, open_http, send_auth, connect}
use sample.Exchange.{
  Exchange, new_exchange, set_parameter, get_trade_service, new_trade, new_market,
}

-- An exchange that is given its four parameters.
abbrev pub with_parameters : {L M : Type 0} (k s h w : String) → Exchange L M
with_parameters k s h w =
    set_parameter "wshost" w
      (set_parameter "host" h (set_parameter "secretkey" s (set_parameter "apikey" k new_exchange)))

module _ (lib : Libraries) {L : Type 0} (M : Type 0) where
  -- A new exchange that is given the parameters "apikey", "secretkey", "host" and "wshost" and
  -- whose trade service then connects, where OpenSSL accepts the name of the host: the service has
  -- the four values, enters no parameter, and resolves the websocket host, names the HTTP host and
  -- resolves it, in this order.
  pub configured :
      (env : Env) (k s h w : String)
      → env.named ≡ true
      → let e : Exchange L M = with_parameters k s h w in
        let (t, out) = connect lib env (get_trade_service e) in
        (t.api_key ≡ k)
        × (t.secret_key ≡ s)
        × (t.host ≡ h)
        × (t.ws_host ≡ w)
        × (t.config ≡ e.trade.config)
        × (out
            ≡ ws_action (Ws.resolve w "443")
              ∷ http_action (Http.set_host_name h)
              ∷ http_action (Http.resolve h "443")
              ∷ [])
  unfolding connect read_config open_ws open_http send_auth ws_send Ws.connect Ws.add_listener
      Ws.send Ws.new_session Ws.check_send Http.connect Http.add_listener Http.new_session
      Dict.insert Dict.lookup Dict.get_or_insert set_parameter new_exchange new_trade new_market
      get_trade_service
  configured env k s h w named = (refl, refl, refl, refl, refl, rw named refl)
