-- ===== src/Queue/Message/Recovery.antt =====
-- What is stored of a message and of a configuration is read back.
use flin.Prelude.{ℕ, ◌+◌, ◌^◌, ◌<◌, ◌≡◌, ◌++◌, length, length-append, arith}
use flin.Wire.Outcome.{Bytes, ok, then_do}
use flin.Wire.BigEndian.{put_be, length-put_be}
use flin.Wire.Reader.{Reads-need, Reads-last, Reads-uint, uint}
use flin.Wire.Writer.{make-Writes}
use flin.Protocol.Frame
use flin.Protocol.RoundTrip.Kv.{writes}
use flin.Queue.Message.Types.{QueueMessage, QueueConfig}
use flin.Queue.Message.Encode.{encode_queue_message, encode_queue_config}
use flin.Queue.Message.Decode.{
  decode_queue_message, message_too_short, id_overflow, value_overflow, consumer_overflow,
  decode_queue_config, config_too_short, name_overflow, dlq_overflow,
}

-- The fields fit the widths in which they are stored.
pub record FitsMessage (msg : QueueMessage) : Type 0 where
  pub id_fits : length msg.id < 2 ^ 16
  pub value_fits : length msg.value < 2 ^ 32
  pub state_fits : msg.state < 2 ^ 8
  pub count_fits : msg.delivery_count < 2 ^ 32
  pub consumer_fits : length msg.consumer_id < 2 ^ 16
  pub enqueued_fits : msg.enqueued_at < 2 ^ 64
  pub in_flight_fits : msg.in_flight_at < 2 ^ 64
  pub timeout_fits : msg.visibility_timeout < 2 ^ 64
  pub retries_fit : msg.max_retries < 2 ^ 32

-- The four numbers at the end of a message.
times : QueueMessage → Bytes
times msg =
    put_be 8 msg.enqueued_at
    ++ (put_be 8 msg.in_flight_at ++ (put_be 8 msg.visibility_timeout ++ put_be 4 msg.max_retries))

pub message_bytes : QueueMessage → Bytes
message_bytes msg =
    put_be 2 (length msg.id)
    ++ (msg.id
        ++ (put_be 4 (length msg.value)
            ++ (msg.value
                ++ (put_be 1 msg.state
                    ++ (put_be 4 msg.delivery_count
                        ++ (put_be 2 (length msg.consumer_id)
                            ++ (msg.consumer_id ++ times msg)))))))

length-message_bytes :
    (msg : QueueMessage)
    → length (message_bytes msg) ≡ 41 + length msg.id + length msg.value + length msg.consumer_id
unfolding message_bytes times
length-message_bytes msg = omega (arith, length-append {0} {A = ℕ}, length-put_be)

pub encode_queue_message_lem :
    (msg : QueueMessage) → encode_queue_message msg ≡ ok (message_bytes msg)
unfolding encode_queue_message message_bytes times
encode_queue_message_lem msg =
    make-Writes _ _ _ (search writes depth 20)
      (omega (arith, length-append {0} {A = ℕ}, length-put_be))

pub decode_queue_message_lem :
    (msg : QueueMessage) → FitsMessage msg → decode_queue_message (message_bytes msg) ≡ ok msg
unfolding decode_queue_message message_bytes times
decode_queue_message_lem msg fits = Frame.run-Reads_all _ _ (
    Reads-need 39 message_too_short _ (omega (arith, length-append {0} {A = ℕ}, length-put_be)) (
      Frame.Reads-word 2 (length msg.id) _ (omega (arith, fits.id_fits)) (
        Frame.Reads-checked msg.id id_overflow _ (
          Frame.Reads-word 4 (length msg.value) _ (omega (arith, fits.value_fits)) (
            Frame.Reads-checked msg.value value_overflow _ (
              Frame.Reads-word 1 msg.state _ (omega (arith, fits.state_fits)) (
                Frame.Reads-word 4 msg.delivery_count _ (omega (arith, fits.count_fits)) (
                  Frame.Reads-word 2 (length msg.consumer_id) _ (omega (arith, fits.consumer_fits))
                    (Frame.Reads-checked msg.consumer_id consumer_overflow _ (
                      Frame.Reads-word 8 msg.enqueued_at _ (omega (arith, fits.enqueued_fits)) (
                        Frame.Reads-word 8 msg.in_flight_at _ (omega (arith, fits.in_flight_fits)) (
                          Frame.Reads-word 8 msg.visibility_timeout _
                            (omega (arith, fits.timeout_fits))
                            (Reads-last (uint 4) _ (
                              Reads-uint 4 msg.max_retries
                                (omega (arith, fits.retries_fit))))))))))))))))

-- A message whose fields fit is read back from what encodeQueueMessage stores.
pub decode-encode_queue_message :
    (msg : QueueMessage)
    → FitsMessage msg
    → then_do (encode_queue_message msg) decode_queue_message ≡ ok msg
decode-encode_queue_message msg fits =
    rw (encode_queue_message_lem msg) (decode_queue_message_lem msg fits)

pub record FitsConfig (cfg : QueueConfig) : Type 0 where
  pub name_fits : length cfg.name < 2 ^ 16
  pub dlq_fits : length cfg.dead_letter_queue < 2 ^ 16
  pub limit_fits : cfg.max_retries < 2 ^ 32
  pub default_fits : cfg.default_visibility_timeout < 2 ^ 64

pub config_bytes : QueueConfig → Bytes
config_bytes cfg =
    put_be 2 (length cfg.name)
    ++ (cfg.name
        ++ (put_be 2 (length cfg.dead_letter_queue)
            ++ (cfg.dead_letter_queue
                ++ (put_be 4 cfg.max_retries ++ put_be 8 cfg.default_visibility_timeout))))

pub encode_queue_config_lem : (cfg : QueueConfig) → encode_queue_config cfg ≡ ok (config_bytes cfg)
unfolding encode_queue_config config_bytes
encode_queue_config_lem cfg =
    make-Writes _ _ _ (search writes depth 12)
      (omega (arith, length-append {0} {A = ℕ}, length-put_be))

pub decode_queue_config_lem :
    (cfg : QueueConfig) → FitsConfig cfg → decode_queue_config (config_bytes cfg) ≡ ok cfg
unfolding decode_queue_config config_bytes
decode_queue_config_lem cfg fits = Frame.run-Reads_all _ _ (
    Reads-need 16 config_too_short _ (omega (arith, length-append {0} {A = ℕ}, length-put_be)) (
      Frame.Reads-word 2 (length cfg.name) _ (omega (arith, fits.name_fits)) (
        Frame.Reads-checked cfg.name name_overflow _ (
          Frame.Reads-word 2 (length cfg.dead_letter_queue) _ (omega (arith, fits.dlq_fits)) (
            Frame.Reads-checked cfg.dead_letter_queue dlq_overflow _ (
              Frame.Reads-word 4 cfg.max_retries _ (omega (arith, fits.limit_fits)) (
                Reads-last (uint 8) _ (
                  Reads-uint 8 cfg.default_visibility_timeout
                    (omega (arith, fits.default_fits))))))))))

-- A configuration whose fields fit is read back from what encodeQueueConfig stores.
pub decode-encode_queue_config :
    (cfg : QueueConfig)
    → FitsConfig cfg
    → then_do (encode_queue_config cfg) decode_queue_config ≡ ok cfg
decode-encode_queue_config cfg fits =
    rw (encode_queue_config_lem cfg) (decode_queue_config_lem cfg fits)
