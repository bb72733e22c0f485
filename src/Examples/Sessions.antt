-- ===== src/Examples/Sessions.antt =====
-- Runs of the two sessions: connected, with one message written and one in the queue.
use sample.Base.{ℕ, Bool, true, String, [], ◌∷◌, ◌++◌, some, ◌≡◌, refl, ◌≤◌, length}
use sample.Asio.{handshaking, connected, send_idle}
use sample.Wire
use sample.Wire.Laws.{first}
use sample.Ws
use sample.Ws.Runtime.{Run, Step, Steps, Reach, start, later, submits, completes, writes, wire}
use sample.Ws.Runtime.Delivery.{delivery, one_write, Step-wire}
use sample.Ws.Runtime.Progress.{writes_all}
use sample.Http
use sample.Http.{Request}
use sample.Http.Runtime.Delivery.{http_delivery, one_request}

-- An operation that succeeds.
abbrev fine : Ws.Runtime.Result
fine = record { code = 0; named = true; ssl_error = 0; received = "" }

abbrev launched : Run ℕ
launched = Ws.Runtime.launch 1 "phemex.com" "/ws"

unfoldable one_sent : Run ℕ
one_sent =
    Ws.Runtime.perform (record launched { sent = "auth" ∷ [] }) (Ws.send "auth" launched.session)

unfoldable resolved : Run ℕ
resolved = Ws.Runtime.complete one_sent [] Ws.Runtime.resolving [] fine

unfoldable joined : Run ℕ
joined = Ws.Runtime.complete resolved [] Ws.Runtime.connecting [] fine

unfoldable shaken : Run ℕ
shaken = Ws.Runtime.complete joined [] Ws.Runtime.ssl_shaking [] fine

unfoldable opened : Run ℕ
opened = Ws.Runtime.complete shaken [] Ws.Runtime.ws_shaking [] fine

unfoldable two_sent : Run ℕ
two_sent =
    Ws.Runtime.perform (record opened { sent = "auth" ∷ "ping" ∷ [] })
      (Ws.send "ping" opened.session)

unfoldable one_written : Run ℕ
one_written =
    Ws.Runtime.complete two_sent (Ws.Runtime.reading ∷ []) (Ws.Runtime.writing "auth") [] fine

one_written-Reach : Reach 1 "phemex.com" "/ws" one_written
unfolding one_sent resolved joined shaken opened two_sent one_written Ws.connect Ws.add_listener
    Ws.new_session Ws.on_resolve Ws.on_connected Ws.on_ssl_handshake Ws.on_handshake Ws.check_read
    Ws.check_send Ws.send
one_written-Reach =
    later
      (later
        (later
          (later
            (later
              (later (later start (submits "auth"))
                (completes [] Ws.Runtime.resolving [] fine refl))
              (completes [] Ws.Runtime.connecting [] fine refl))
            (completes [] Ws.Runtime.ssl_shaking [] fine refl))
          (completes [] Ws.Runtime.ws_shaking [] fine refl))
        (submits "ping"))
      (completes (Ws.Runtime.reading ∷ []) (Ws.Runtime.writing "auth") [] fine refl)

delivery_example :
    (one_written.sent ≡ one_written.written ++ one_written.session.write_queue)
    × (one_written.session.state ≡ connected
        → one_written.session.sending_state ≡ send_idle
        → one_written.sent ≡ one_written.written)
delivery_example = delivery one_written-Reach

one_write_example :
    (length (writes one_written.outstanding) ≤ 1)
    × ((m : String)
        → writes one_written.outstanding ≡ m ∷ []
        → first one_written.session.write_queue ≡ some m)
    × (one_written.session.state ≡ handshaking → writes one_written.outstanding ≡ [])
one_write_example = one_write one_written-Reach

Step-wire_example : Wire.Step (wire two_sent) (wire one_written)
unfolding one_sent resolved joined shaken opened two_sent one_written Ws.connect Ws.add_listener
    Ws.new_session Ws.on_resolve Ws.on_connected Ws.on_ssl_handshake Ws.on_handshake Ws.check_read
    Ws.check_send Ws.send
Step-wire_example =
    Step-wire (completes (Ws.Runtime.reading ∷ []) (Ws.Runtime.writing "auth") [] fine refl)

abbrev request : String → Request
request target = record {
  version = 11;
  method = "GET";
  target = target;
  fields = ("Host", "phemex.com") ∷ [];
  body = "";
  prepared = Bool.false;
}

abbrev done : Http.Runtime.Result
done = record { code = 0; received = "" }

abbrev http_launched : Http.Runtime.Run ℕ
http_launched = Http.Runtime.launch 1 "phemex.com" true 0

unfoldable http_sent : Http.Runtime.Run ℕ
http_sent =
    Http.Runtime.perform (record http_launched { sent = request "/a" ∷ [] })
      (Http.send (request "/a") http_launched.session)

unfoldable http_resolved : Http.Runtime.Run ℕ
http_resolved = Http.Runtime.complete http_sent [] Http.Runtime.resolving [] done

unfoldable http_joined : Http.Runtime.Run ℕ
http_joined = Http.Runtime.complete http_resolved [] Http.Runtime.connecting [] done

unfoldable http_opened : Http.Runtime.Run ℕ
http_opened = Http.Runtime.complete http_joined [] Http.Runtime.ssl_shaking [] done

http_opened-Reach : Http.Runtime.Reach 1 "phemex.com" http_opened
unfolding http_sent http_resolved http_joined http_opened Http.connect Http.add_listener
    Http.new_session Http.on_resolve Http.on_connect Http.on_handshake Http.check_read
    Http.check_send Http.send
http_opened-Reach =
    Http.Runtime.later
      (Http.Runtime.later
        (Http.Runtime.later
          (Http.Runtime.later (Http.Runtime.start true 0) (Http.Runtime.submits (request "/a")))
          (Http.Runtime.completes [] Http.Runtime.resolving [] done refl))
        (Http.Runtime.completes [] Http.Runtime.connecting [] done refl))
      (Http.Runtime.completes [] Http.Runtime.ssl_shaking [] done refl)

http_delivery_example :
    (http_opened.sent ≡ http_opened.written ++ http_opened.session.request_queue)
    × (http_opened.session.state ≡ connected
        → http_opened.session.sending_state ≡ send_idle
        → http_opened.sent ≡ http_opened.written)
http_delivery_example = http_delivery http_opened-Reach

one_request_example :
    (length (Http.Runtime.writes http_opened.outstanding) ≤ 1)
    × ((m : Request)
        → Http.Runtime.writes http_opened.outstanding ≡ m ∷ []
        → first http_opened.session.request_queue ≡ some m)
    × (http_opened.session.state ≡ handshaking → Http.Runtime.writes http_opened.outstanding ≡ [])
one_request_example = one_request http_opened-Reach

writes_all_example :
    (t : Run ℕ) × Steps one_written t × (t.sent ≡ one_written.sent) × (t.written ≡ one_written.sent)
unfolding one_sent resolved joined shaken opened two_sent one_written Ws.connect Ws.add_listener
    Ws.new_session Ws.on_resolve Ws.on_connected Ws.on_ssl_handshake Ws.on_handshake Ws.check_read
    Ws.check_send Ws.send Ws.handle_tx
writes_all_example = writes_all one_written-Reach refl (λ e none_left. cc)
