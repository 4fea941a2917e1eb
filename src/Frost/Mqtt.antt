-- ===== src/Frost/Mqtt.antt =====
-- internal/frost/mqtt.go: observations over MQTT. `Broker` is the client library: whether it is
-- connected, and how a publish ends within the time-out; `marshal` is json.Marshal of a body, which
-- fails for what JSON has no text for.
use clappform_sensor_things.Prelude.Int.{eqz, lez, pos, ℤ}
use clappform_sensor_things.Prelude.{
  Bool, Option, String, [], arith, false, if◌then◌else◌, none, some, sprint, str_eq, true, ℕ, ◌*◌,
  ◌↔◌, ◌∷◌, ◌≡◌,
}
use clappform_sensor_things.Frost.Writer.{ObservationPublisher}
use clappform_sensor_things.Canonical.{second}
use clappform_sensor_things.Failure.{Effect, Error, http_error, text, wrapped}
use clappform_sensor_things.Frost.Errors.{is_permanent}
use clappform_sensor_things.Frost.Entities.{Payload}

pub data Publication : Type 0 where
  delivered timed_out broker_error : Publication

pub record Broker (W : Type 0) : Type 0 where
  pub is_connected : W → Bool × W
  pub publish : String → ℤ → String → W → Publication × W  -- topic, QoS, body

pub record MqttConfig : Type 0 where
  pub broker_url : String
  pub client_id : String
  pub topic_prefix : String
  pub qos : ℤ
  pub connect_timeout : ℤ
  pub publish_timeout : ℤ

pub record MqttPublisher (W : Type 0) : Type 0 where
  pub broker : Broker W
  pub qos : ℤ
  pub topic_prefix : String
  pub marshal : Payload → Option String
  pub format_int : ℤ → String

abbrev text_or : String → String → String
text_or s fallback = if str_eq s "" then fallback else s

abbrev duration_or : ℤ → ℕ → ℤ
duration_or d fallback = if lez d (pos 0) then pos fallback else d

unfoldable pub apply_defaults : MqttConfig → MqttConfig
apply_defaults c = record {
  broker_url = c.broker_url;
  client_id = text_or c.client_id "geonovum-translation-layer";
  topic_prefix = text_or c.topic_prefix "v1.1";
  qos = if eqz c.qos (pos 0) then pos 1 else c.qos;
  connect_timeout = duration_or c.connect_timeout (10 * second);
  publish_timeout = duration_or c.publish_timeout (15 * second);
}

-- `none` is the error on an empty URL; a failed first connect is only logged.
unfoldable pub new_mqtt_publisher :
    {W : Type 0}
    → Broker W
    → (Payload → Option String)
    → (ℤ → String)
    → MqttConfig
    → Option (MqttPublisher W)
unfolding apply_defaults
new_mqtt_publisher broker marshal format_int c =
    if str_eq c.broker_url ""
    then none
    else some (record {
      broker = broker;
      qos = (apply_defaults c).qos;
      topic_prefix = (apply_defaults c).topic_prefix;
      marshal = marshal;
      format_int = format_int;
    })

module _ {W : Type 0} (p : MqttPublisher W) where
  unfoldable pub topic : ℤ → String
  topic ds = sprint (p.topic_prefix ∷ "/Datastreams(" ∷ p.format_int ds ∷ ")/Observations" ∷ [])

  -- An error is transient, but for a body that cannot be encoded.
  published : Publication × W → Option Error × W
  published (delivered, w) = (none, w)
  published (timed_out, w) = (some (http_error 0 text true), w)
  published (broker_error, w) = (some (http_error 0 (wrapped text) true), w)

  encoded : ℤ → Option String → Effect W
  unfolding topic published
  encoded ds none w = (some (http_error 0 (wrapped text) false), w)
  encoded ds (some body) w =
      let (connected, w') = p.broker.is_connected w in
      if connected
      then published (p.broker.publish (topic ds) p.qos body w')
      else (some (http_error 0 text true), w')

  unfoldable pub publish_observation : ℤ → Payload → Effect W
  unfolding encoded
  publish_observation ds body = encoded ds (p.marshal body)

  -- The publisher as the writer takes it.
  unfoldable pub observation_publisher : ObservationPublisher W
  unfolding publish_observation
  observation_publisher = record { publish_observation = publish_observation }

  -- A failure to publish is permanent exactly if the body has no JSON: whatever the broker does, the
  -- write is tried again.
  pub publish_observation_permanent_iff :
      (ds : ℤ) (body : Payload) (w : W) {e : Error}
      → (publish_observation ds body w).0 ≡ some e
      → (is_permanent e ≡ true) ↔ (p.marshal body ≡ none)
  unfolding publish_observation is_permanent
  publish_observation_permanent_iff ds body w h = (λ k. ground arith, λ k. ground arith)
