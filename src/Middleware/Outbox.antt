-- ===== src/Middleware/Outbox.antt =====
-- What becomes of the messages that are published before the MQTT module takes itself for connected.
use takt_os.Base.{ℕ, ◌≡◌, refl, ap, ◌∙◌, List, [], ◌∷◌, Bool, true, false, not, ◌||◌, take, ◌++◌}
use takt_os.Base.Int.{is_negative}
use takt_os.Middleware.MqttModule.{
  MqttModule, MqttApi, mqtt_connected_event, publish, note_connection, publish_text, send_pending,
  tick,
}

one_is_off : (a b : Bool) → b ≡ false → (not a || not b) ≡ true
one_is_off true b h = ap not h
one_is_off false b h = refl

both_are_on : (a b : Bool) → a ≡ true → b ≡ true → (not a || not b) ≡ false
both_are_on true b g h = ap not h
both_are_on false b g h = ap not g ∙ refl

module _ {W : Type 0} (api : MqttApi W) where
  -- The messages, published one behind the other.
  abbrev pub publish_all : List (List ℕ × List ℕ) → MqttModule × W → MqttModule × W
  publish_all [] s = s
  publish_all ((topic, payload) ∷ rest) s =
      let (_, m, w) = publish api s.0 topic payload s.1 in publish_all rest (m, w)

  publish_offline :
      (m : MqttModule) (topic payload : List ℕ) (w : W)
      → m.connected ≡ false
      → publish api m topic payload w ≡ (
        false,
        record m {
          pending_topic = take 63 topic;
          pending_payload = take 255 payload;
          msg_pending = true;
        },
        w,
      )
  unfolding publish
  publish_offline m topic payload w off = rw (publish, one_is_off m.client m.connected off) refl

  -- Each message takes the place of the one before.
  publish_all_offline :
      (rest : List (List ℕ × List ℕ)) (topic payload : List ℕ) (m : MqttModule) (w : W)
      → m.connected ≡ false
      → publish_all (rest ++ ((topic, payload) ∷ [])) (m, w) ≡ (
        record m {
          pending_topic = take 63 topic;
          pending_payload = take 255 payload;
          msg_pending = true;
        },
        w,
      )
  publish_all_offline [] topic payload m w off =
      ap (λ (r : Bool × MqttModule × W). (r.1, r.2)) (publish_offline m topic payload w off)
  publish_all_offline ((t, p) ∷ rest) topic payload m w off =
      let m1 = record m {
        pending_topic = take 63 t;
        pending_payload = take 255 p;
        msg_pending = true;
      } in
      ap (λ (r : Bool × MqttModule × W). publish_all (rest ++ ((topic, payload) ∷ [])) (r.1, r.2))
        (publish_offline m t p w off)
      ∙ publish_all_offline rest topic payload m1 w off

  note_connection_first :
      (m : MqttModule) (w : W)
      → m.client ≡ true
      → m.connected ≡ false
      → is_negative (api.outbox_size w) ≡ false
      → note_connection api m w
        ≡ (record m { connected = true }, api.publish_event mqtt_connected_event w)
  unfolding note_connection
  note_connection_first m w there off size = rw (note_connection, there, off, size) refl

  publish_online :
      (m : MqttModule) (topic payload : List ℕ) (w : W)
      → m.client ≡ true
      → m.connected ≡ true
      → let (code, w1) = api.send topic payload w in
        publish api m topic payload w ≡ (not (is_negative code), m, w1)
  unfolding publish
  publish_online m topic payload w there on =
      rw (publish, both_are_on m.client m.connected there on) refl

  -- A module with a client that is not connected is given messages, the last with a topic. The next
  -- tick says that it is connected, as the size of the outbox, which is never negative, is its only
  -- test, and sends the last message: at most 63 characters of the topic and 255 of the payload. The
  -- messages before it are lost, and nothing is kept of the last one either, whatever `send` returns.
  pub publish_all-tick :
      (m : MqttModule) (w : W) (rest : List (List ℕ × List ℕ)) (c : ℕ) (topic payload : List ℕ)
      → m.client ≡ true
      → m.connected ≡ false
      → is_negative (api.outbox_size w) ≡ false
      → let (m1, w1) = publish_all (rest ++ ((c ∷ topic, payload) ∷ [])) (m, w) in
        let (_, sent) =
          api.send
            (take 63 (c ∷ topic))
            (take 255 payload)
            (api.publish_event mqtt_connected_event w) in
        tick api m1 w1 ≡ (
          record m {
            connected = true;
            msg_pending = false;
            pending_topic = [];
            pending_payload = take 255 payload;
          },
          sent,
        )
  unfolding tick send_pending publish_text
  publish_all-tick m w rest c topic payload there off size =
      let m1 = record m {
        pending_topic = take 63 (c ∷ topic);
        pending_payload = take 255 payload;
        msg_pending = true;
      } in
      let m2 = record m1 { connected = true; msg_pending = false } in
      rw
        (
          publish_all_offline rest (c ∷ topic) payload m w off,
          note_connection_first m1 w there off size,
        )
        (ap (λ (r : Bool × MqttModule × W). (record (r.1) { pending_topic = [] }, r.2))
          (publish_online m2 (take 63 (c ∷ topic)) (take 255 payload)
            (api.publish_event mqtt_connected_event w) there refl))
