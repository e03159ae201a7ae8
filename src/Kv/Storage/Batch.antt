-- ===== src/Kv/Storage/Batch.antt =====
-- internal/kv/storage.go: the operations on several keys. A Go map is the list of its pairs in the order
-- in which `range` visits them.
use flin.Prelude.{
  ℕ, zero, suc, Bool, false, ◌||◌, Option, none, some, List, [], ◌∷◌, leb, if◌then◌else◌, length,
  take, drop,
}
use flin.Wire.Outcome.{Bytes, Outcome, ok, err, panic, then_do}
use flin.Wire.Signed.{signed_lt}
use flin.Badger.{Badger, Lookup, found, missing, failed}
use flin.Badger.Memory.{same_key}
use flin.Badger.Writers.{Writers}
use flin.Queue.Storage.{is_empty}
use flin.Kv.Storage.Defs.{Storage, err_closed, err_invalid_key}

-- A `map[string][]byte`.
abbrev pub Pairs : Type 0
Pairs = List (Bytes × Bytes)

-- `kvPairs[key] = value`
unfoldable pub map_set : Bytes → Bytes → Pairs → Pairs
map_set key value [] = (key, value) ∷ []
map_set key value ((k, v) ∷ pairs) =
    if same_key k key then (k, value) ∷ pairs else (k, v) ∷ map_set key value pairs

-- `kvPairs[key]`
unfoldable pub map_get : Bytes → Pairs → Option Bytes
map_get key [] = none
map_get key ((k, v) ∷ pairs) = if same_key k key then some v else map_get key pairs

-- `for key := range kvPairs { if key == "" … }`, on the pairs and on the keys.
unfoldable pub any_empty_pair : Pairs → Bool
any_empty_pair [] = false
any_empty_pair ((k, v) ∷ pairs) = is_empty k || any_empty_pair pairs

unfoldable pub any_empty : List Bytes → Bool
any_empty [] = false
any_empty (k ∷ keys) = is_empty k || any_empty keys

module _ (b : Badger) (w : Writers b) where
  -- What is left of a batch after its loop: flushed if every write was taken, cancelled if not.
  abbrev pub finish : Outcome (Unit {0}) × w.Batch → Outcome (Unit {0}) × b.Txn
  finish (ok _, u) = w.flush u
  finish (err e, u) = (err e, w.cancel u)
  finish (panic, u) = (panic, w.cancel u)

  -- `if err := …; err != nil { return err }` in a loop over a batch.
  abbrev pub and_then :
      Outcome (Unit {0}) × w.Batch
      → (w.Batch → Outcome (Unit {0}) × w.Batch)
      → Outcome (Unit {0}) × w.Batch
  and_then (ok _, u) next = next u
  and_then (err e, u) next = (err e, u)
  and_then (panic, u) next = (panic, u)

  unfoldable pub batch_entry : w.Batch → Bytes → Bytes → ℕ → Outcome (Unit {0}) × w.Batch
  batch_entry u key value ttl =
      if signed_lt 0 ttl then w.batch_set_ttl u key value ttl else w.batch_set u key value

  unfoldable pub set_pairs : Pairs → ℕ → w.Batch → Outcome (Unit {0}) × w.Batch
  set_pairs [] ttl u = (ok tt, u)
  set_pairs ((key, value) ∷ pairs) ttl u =
      and_then (batch_entry u key value ttl) (λ u'. set_pairs pairs ttl u')

  unfoldable pub batch_set : Pairs → ℕ → Storage b → Outcome (Unit {0}) × Storage b
  batch_set [] ttl s = if s.closed then (err err_closed, s) else (ok tt, s)
  batch_set (pair ∷ pairs) ttl s =
      if s.closed
      then (err err_closed, s)
      else if any_empty_pair (pair ∷ pairs)
      then (err err_invalid_key, s)
      else let r = finish (set_pairs (pair ∷ pairs) ttl (w.new_batch s.db)) in
        (r.0, record s { db = r.1 })

  unfoldable pub set_pairs_no_ttl : Pairs → w.Batch → Outcome (Unit {0}) × w.Batch
  set_pairs_no_ttl [] u = (ok tt, u)
  set_pairs_no_ttl ((key, value) ∷ pairs) u =
      and_then (w.batch_set u key value) (λ u'. set_pairs_no_ttl pairs u')

  unfoldable pub batch_set_no_ttl : Pairs → Storage b → Outcome (Unit {0}) × Storage b
  batch_set_no_ttl [] s = if s.closed then (err err_closed, s) else (ok tt, s)
  batch_set_no_ttl (pair ∷ pairs) s =
      if s.closed
      then (err err_closed, s)
      else if any_empty_pair (pair ∷ pairs)
      then (err err_invalid_key, s)
      else let r = finish (set_pairs_no_ttl (pair ∷ pairs) (w.new_batch s.db)) in
        (r.0, record s { db = r.1 })

  unfoldable pub delete_keys : List Bytes → w.Batch → Outcome (Unit {0}) × w.Batch
  delete_keys [] u = (ok tt, u)
  delete_keys (key ∷ keys) u = and_then (w.batch_delete u key) (λ u'. delete_keys keys u')

  unfoldable pub batch_delete : List Bytes → Storage b → Outcome (Unit {0}) × Storage b
  batch_delete [] s = if s.closed then (err err_closed, s) else (ok tt, s)
  batch_delete (key ∷ keys) s =
      if s.closed
      then (err err_closed, s)
      else if any_empty (key ∷ keys)
      then (err err_invalid_key, s)
      else let r = finish (delete_keys (key ∷ keys) (w.new_batch s.db)) in
        (r.0, record s { db = r.1 })

module _ (b : Badger) where
  -- One round of BatchGet: a missing key is skipped.
  abbrev pub put_found : Bytes → Lookup → Pairs → Outcome Pairs
  put_found key missing result = ok result
  put_found key (failed e) result = err e
  put_found key (found val) result = ok (map_set key val result)

  unfoldable pub get_keys : b.Txn → List Bytes → Pairs → Outcome Pairs
  get_keys txn [] result = ok result
  get_keys txn (key ∷ keys) result =
      then_do (put_found key (b.get txn key) result) (λ result'. get_keys txn keys result')

  -- `for i := 0; i < len(keys); i += chunkSize`, by the rounds left, with `keys[i:]`.
  unfoldable pub get_chunks : ℕ → b.Txn → List Bytes → Pairs → Outcome Pairs
  get_chunks zero txn keys result = ok result
  get_chunks (suc rounds) txn keys result =
      then_do (get_keys txn (take 100 keys) result)
        λ result'. get_chunks rounds txn (drop 100 keys) result'

  -- A call on an open storage with keys that are not empty.
  unfoldable pub get_batch : b.Txn → List Bytes → Outcome Pairs
  get_batch txn keys =
      if leb (length keys) 100 then get_keys txn keys [] else get_chunks (length keys) txn keys []

  unfoldable pub batch_get : List Bytes → Storage b → Outcome Pairs
  batch_get keys s =
      if s.closed
      then err err_closed
      else if any_empty keys
      then err err_invalid_key
      else get_batch s.db keys
