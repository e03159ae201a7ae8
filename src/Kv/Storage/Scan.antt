-- ===== src/Kv/Storage/Scan.antt =====
-- internal/kv/storage.go: the scans over the keys with a prefix. A `limit` is an int64's bit pattern.
use flin.Prelude.{ℕ, ◌+◌, Bool, true, ltb, List, [], ◌∷◌, ◌++◌, if◌then◌else◌}
use flin.Wire.Outcome.{Bytes, Outcome, ok, err, then_do}
use flin.Wire.Signed.{signed_lt}
use flin.Badger.{Badger, Iterator}
use flin.Kv.Storage.Defs.{Storage, err_closed, value_of}
use flin.Kv.Storage.Batch.{Pairs, map_set}

-- `limit <= 0 || count < limit`
unfoldable pub within : ℕ → ℕ → Bool
within limit count = if signed_lt 0 limit then ltb count limit else true

module _ (b : Badger) (it : Iterator b) where
  -- The loops over what the iterator has left. The iterator lists keys that are found.
  unfoldable pub scan_values : b.Txn → ℕ → List Bytes → ℕ → List Bytes → Outcome (List Bytes)
  scan_values txn limit [] count values = ok values
  scan_values txn limit (key ∷ rest) count values =
      let next = scan_values txn limit rest (count + 1) in
      if within limit count
      then then_do (value_of b (b.get txn key)) (λ val. next (values ++ val ∷ []))
      else ok values

  unfoldable pub scan_names : ℕ → List Bytes → ℕ → List Bytes → List Bytes
  scan_names limit [] count keys = keys
  scan_names limit (key ∷ rest) count keys =
      let next = scan_names limit rest (count + 1) (keys ++ key ∷ []) in
      if within limit count then next else keys

  unfoldable pub scan_pairs : b.Txn → ℕ → List Bytes → ℕ → Pairs → Outcome Pairs
  scan_pairs txn limit [] count pairs = ok pairs
  scan_pairs txn limit (key ∷ rest) count pairs =
      let next = scan_pairs txn limit rest (count + 1) in
      if within limit count
      then then_do (value_of b (b.get txn key)) (λ val. next (map_set key val pairs))
      else ok pairs

  unfoldable pub scan : Bytes → ℕ → Storage b → Outcome (List Bytes)
  scan prefix limit s =
      if s.closed then err err_closed else scan_values s.db limit (it.keys s.db prefix) 0 []

  unfoldable pub scan_keys : Bytes → ℕ → Storage b → Outcome (List Bytes)
  scan_keys prefix limit s =
      if s.closed then err err_closed else ok (scan_names limit (it.keys s.db prefix) 0 [])

  unfoldable pub scan_keys_with_values : Bytes → ℕ → Storage b → Outcome Pairs
  scan_keys_with_values prefix limit s =
      if s.closed then err err_closed else scan_pairs s.db limit (it.keys s.db prefix) 0 []
