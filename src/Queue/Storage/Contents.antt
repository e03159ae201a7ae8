-- ===== src/Queue/Storage/Contents.antt =====
-- What a database holds of a queue: its items, oldest first, at consecutive positions.
use flin.Prelude.{
  ℕ, ◌+◌, ◌^◌, ◌≤◌, ◌<◌, ◌≡◌, ◌≢◌, sym, ap, ◌∙◌, List, [], ◌∷◌, ◌++◌, length, length-append,
  drop-append, take-append, take, drop, arith,
}
use flin.Wire.Outcome.{Bytes, ok}
use flin.Wire.BigEndian.{put_be, length-put_be, be_value-put_be}
use flin.Badger.{Badger, found}
use flin.Queue.Keys.{
  metadata_key, data_key, data_key-injective, metadata_key-ne-data_key, metadata_key-injective,
}
use flin.Queue.Storage.Defs.{
  QueueMetadata, decode_metadata, encode_metadata, get_metadata, set_metadata,
}

-- A uint64 pair is read back from its 16 bytes.
pub decode-encode_metadata :
    (head tail : ℕ)
    → head < 2 ^ 64
    → tail < 2 ^ 64
    → decode_metadata (encode_metadata (record { head = head; tail = tail }))
      ≡ record { head = head; tail = tail }
unfolding decode_metadata encode_metadata
decode-encode_metadata head tail hh ht =
    let hd : Bytes = put_be 8 head in
    let tl : Bytes = put_be 8 tail in
    let whole : length (hd ++ tl) ≡ 16 =
      omega (arith, length-append hd tl, length-put_be 8 head, length-put_be 8 tail) in
    let first : take 8 (hd ++ tl) ≡ hd =
      ap (λ k. take k (hd ++ tl)) (sym (length-put_be 8 head)) ∙ take-append hd tl in
    let second : drop 8 (hd ++ tl) ≡ tl =
      ap (λ k. drop k (hd ++ tl)) (sym (length-put_be 8 head)) ∙ drop-append hd tl in
    rw (
      whole,
      first,
      second,
      be_value-put_be 8 head (omega arith),
      be_value-put_be 8 tail (omega arith),
    )

module _ (b : Badger) where
  open b use {Txn, get, set, delete}

  -- The items stand under the keys of the positions from `i` on.
  abbrev pub ItemsAt : Txn → Bytes → ℕ → List Bytes → Type 0
  ItemsAt txn name i [] = Unit
  ItemsAt txn name i (x ∷ xs) = (get txn (data_key name i) ≡ found x) × ItemsAt txn name (i + 1) xs

  -- The queue's head and tail are `head` and `head + length items`, and its items are `items`.
  pub record Holds (txn : Txn) (name : Bytes) (head : ℕ) (items : List Bytes) : Type 0 where
    pub metadata : get_metadata b txn name ≡ ok (record { head = head; tail = head + length items })
    pub items_at : ItemsAt txn name head items
    pub in_range : head + length items < 2 ^ 64

  -- Two databases agree on the keys of a queue.
  pub record SameQueue (txn txn' : Txn) (name : Bytes) : Type 0 where
    pub same_metadata : get txn' (metadata_key name) ≡ get txn (metadata_key name)
    pub same_items : (i : ℕ) → i < 2 ^ 64 → get txn' (data_key name i) ≡ get txn (data_key name i)

  pub ItemsAt-same :
      (txn txn' : Txn) (name : Bytes) (i : ℕ) (items : List Bytes)
      → ((j : ℕ)
          → i ≤ j
          → j < i + length items
          → get txn' (data_key name j) ≡ get txn (data_key name j))
      → ItemsAt txn name i items
      → ItemsAt txn' name i items
  ItemsAt-same txn txn' name i [] same h = tt
  ItemsAt-same txn txn' name i (x ∷ xs) same (hx, h) = (
    same i (omega arith) (omega arith) ∙ hx,
    ItemsAt-same txn txn' name (i + 1) xs (λ j lo hi. same j (omega arith) (omega arith)) h,
  )

  -- What a database holds of a queue depends on the queue's own keys only.
  pub Holds-same :
      (txn txn' : Txn) (name : Bytes) (head : ℕ) (items : List Bytes)
      → SameQueue txn txn' name
      → Holds txn name head items
      → Holds txn' name head items
  unfolding get_metadata
  Holds-same txn txn' name head items same h = record {
    metadata = rw same.same_metadata h.metadata;
    items_at =
        ItemsAt-same txn txn' name head items
          (λ j lo hi. same.same_items j (omega (arith, h.in_range))) h.items_at;
    in_range = h.in_range;
  }

  pub get_metadata-set :
      (txn txn' : Txn) (name : Bytes) (head tail : ℕ)
      → head < 2 ^ 64
      → tail < 2 ^ 64
      → set_metadata b txn name (record { head = head; tail = tail }) ≡ ok txn'
      → get_metadata b txn' name ≡ ok (record { head = head; tail = tail })
  unfolding get_metadata set_metadata
  get_metadata-set txn txn' name head tail hh ht e =
      rw (b.get-set_self txn txn' _ _ e) (ap ok (decode-encode_metadata head tail hh ht))

  -- Writing one queue's metadata or item leaves every other key as it was.
  pub item-set_metadata :
      (txn txn' : Txn) (name other : Bytes) (i : ℕ) (meta : QueueMetadata)
      → set_metadata b txn name meta ≡ ok txn'
      → get txn' (data_key other i) ≡ get txn (data_key other i)
  unfolding set_metadata
  item-set_metadata txn txn' name other i meta e =
      b.get-set_ne txn txn' _ _ _ e (metadata_key-ne-data_key name other i)

  pub metadata-set_metadata :
      (txn txn' : Txn) (name other : Bytes) (meta : QueueMetadata)
      → name ≢ other
      → set_metadata b txn name meta ≡ ok txn'
      → get txn' (metadata_key other) ≡ get txn (metadata_key other)
  unfolding set_metadata
  metadata-set_metadata txn txn' name other meta ne e =
      b.get-set_ne txn txn' _ _ _ e (λ p. ne (metadata_key-injective name other p))

  pub item-set_item :
      (txn txn' : Txn) (name other : Bytes) (i j : ℕ) (v : Bytes)
      → i < 2 ^ 64
      → j < 2 ^ 64
      → ((name ≡ other) × (i ≡ j) → ⊥)
      → set txn (data_key name i) v ≡ ok txn'
      → get txn' (data_key other j) ≡ get txn (data_key other j)
  item-set_item txn txn' name other i j v hi hj ne e =
      b.get-set_ne txn txn' _ _ _ e (λ p. ne (data_key-injective name other i j hi hj p))

  pub item-delete_item :
      (txn txn' : Txn) (name other : Bytes) (i j : ℕ)
      → i < 2 ^ 64
      → j < 2 ^ 64
      → ((name ≡ other) × (i ≡ j) → ⊥)
      → delete txn (data_key name i) ≡ ok txn'
      → get txn' (data_key other j) ≡ get txn (data_key other j)
  item-delete_item txn txn' name other i j hi hj ne e =
      b.get-delete_ne txn txn' _ _ e (λ p. ne (data_key-injective name other i j hi hj p))

  pub metadata-set_item :
      (txn txn' : Txn) (name other : Bytes) (i : ℕ) (v : Bytes)
      → set txn (data_key name i) v ≡ ok txn'
      → get txn' (metadata_key other) ≡ get txn (metadata_key other)
  metadata-set_item txn txn' name other i v e =
      b.get-set_ne txn txn' _ _ _ e (λ p. metadata_key-ne-data_key other name i (sym p))

  pub metadata-delete_item :
      (txn txn' : Txn) (name other : Bytes) (i : ℕ)
      → delete txn (data_key name i) ≡ ok txn'
      → get txn' (metadata_key other) ≡ get txn (metadata_key other)
  metadata-delete_item txn txn' name other i e =
      b.get-delete_ne txn txn' _ _ e (λ p. metadata_key-ne-data_key other name i (sym p))
