-- ===== src/Queue/Calls/Settings.antt =====
-- The settings of a queue are read back.
use flin.Prelude.{ℕ, ◌^◌, ◌<◌, ◌≡◌, refl, ap, ◌∙◌, false, length, arith}
use flin.Wire.Outcome.{Bytes, ok}
use flin.Wire.Signed.{signed_lt}
use flin.Badger.{Badger, Reliable}
use flin.Queue.Keys.{queue_config_key}
use flin.Queue.Message.Types.{QueueConfig}
use flin.Queue.Message.Recovery.{
  FitsConfig, config_bytes, encode_queue_config_lem, decode_queue_config_lem,
}
use flin.Queue.Storage.{is_empty}
use flin.Queue.Delivery.Defs.{get_queue_config, set_queue_config, config_of}
use flin.Queue.Calls.Defs.{milliseconds, set_dead_letter_queue, set_visibility_timeout}

milliseconds_fits : (d : ℕ) → d < 2 ^ 64 → milliseconds d < 2 ^ 64
unfolding milliseconds signed_lt
milliseconds_fits d h = ground arith

module _ (b : Badger) (r : Reliable b) where
  get-set_queue_config :
      (cfg : QueueConfig) (db : b.Txn)
      → FitsConfig cfg
      → is_empty cfg.name ≡ false
      → ((set_queue_config b cfg db).0 ≡ ok tt)
        × (get_queue_config b cfg.name (set_queue_config b cfg db).1 ≡ ok cfg)
  unfolding set_queue_config get_queue_config
  get-set_queue_config cfg db fits named =
      let (t, e) = r.sets db (queue_config_key cfg.name) (config_bytes cfg) in
      rw (named, encode_queue_config_lem cfg, e, r.commits t)
        (
          refl,
          ap (config_of b cfg.name) (b.get-set_self db t _ _ e) ∙ decode_queue_config_lem cfg fits,
        )

  -- On a store that accepts writes, the dead letter queue, the number of retries and the visibility
  -- timeout that are set one after the other for a queue are all read back, and nothing else of its
  -- configuration changes.
  pub set_visibility_timeout-set_dead_letter_queue :
      (dlq_name : Bytes) (max_retries timeout : ℕ) (cfg : QueueConfig) (db : b.Txn)
      → is_empty cfg.name ≡ false
      → get_queue_config b cfg.name db ≡ ok cfg
      → FitsConfig cfg
      → length dlq_name < 2 ^ 16
      → max_retries < 2 ^ 32
      → timeout < 2 ^ 64
      → let first = set_dead_letter_queue b cfg.name dlq_name max_retries db in
        let second = set_visibility_timeout b cfg.name timeout first.1 in
        (first.0 ≡ ok tt)
        × (second.0 ≡ ok tt)
        × (get_queue_config b cfg.name second.1
            ≡ ok (record cfg {
              dead_letter_queue = dlq_name;
              max_retries = max_retries;
              default_visibility_timeout = milliseconds timeout;
            }))
  unfolding set_dead_letter_queue set_visibility_timeout
  set_visibility_timeout-set_dead_letter_queue dlq_name max_retries timeout cfg db named stored fits
        dlq_fits retries_fit timeout_fits =
      let one : QueueConfig = record cfg {
        dead_letter_queue = dlq_name;
        max_retries = max_retries;
      } in
      let two : QueueConfig = record one { default_visibility_timeout = milliseconds timeout } in
      let fits_one : FitsConfig one = record {
        name_fits = fits.name_fits;
        dlq_fits = dlq_fits;
        limit_fits = retries_fit;
        default_fits = fits.default_fits;
      } in
      let fits_two : FitsConfig two = record {
        name_fits = fits.name_fits;
        dlq_fits = dlq_fits;
        limit_fits = retries_fit;
        default_fits = milliseconds_fits timeout timeout_fits;
      } in
      let (done, read) = get-set_queue_config one db fits_one named in
      let (done', read') = get-set_queue_config two (set_queue_config b one db).1 fits_two named in
      rw (stored, read) (done, done', read')
