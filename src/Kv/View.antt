-- ===== src/Kv/View.antt =====
-- What the key-value store promises: a map from keys to values.
use flin.Prelude.{
  ℕ, ◌+◌, ◌-◌, ◌*◌, ◌/◌, ◌^◌, ◌%◌, ◌==◌, length, ◌||◌, ◌≡◌, Bool, true, false, Option, none, some,
  List, [], ◌∷◌, if◌then◌else◌,
}
use flin.Wire.Outcome.{Bytes, Error, message}
use flin.Badger.{Badger, Lookup, found, missing}
use flin.Badger.Memory.{same_key}
use flin.Kv.Storage.{Storage, Pairs}

-- The errors of a key that is missing and of an empty one.
abbrev pub no_key : Error
no_key = message "key not found"

abbrev pub blank_key : Error
blank_key = message "invalid key"

abbrev pub View : Type 0
View = Bytes → Option Bytes

unfoldable pub update_view : View → Bytes → Option Bytes → View
update_view m key v k = if same_key key k then v else m k

abbrev pub lookup_of : Option Bytes → Lookup
lookup_of none = missing
lookup_of (some v) = found v

-- An open storage whose database finds what the view has.
pub record Shows (b : Badger) (s : Storage b) (m : View) : Type 0 where
  pub is_open : s.closed ≡ false
  pub agrees : (k : Bytes) → b.get s.db k ≡ lookup_of (m k)

pub data Operation : Type 0 where
  set : Bytes → Bytes → ℕ → Operation
  get : Bytes → Operation
  delete : Bytes → Operation
  exists : Bytes → Operation
  incr : Bytes → Operation
  decr : Bytes → Operation
  batch_set : Pairs → ℕ → Operation
  batch_set_no_ttl : Pairs → Operation
  batch_get : List Bytes → Operation
  batch_delete : List Bytes → Operation

pub data Answer : Type 0 where
  done : Answer
  value : Bytes → Answer
  count : ℕ → Answer
  holds : Bool → Answer
  values : View → Answer
  refused : Error → Answer
  crashed : Answer

-- An empty key is refused.
abbrev pub of_key : Bytes → View → Answer × View → Answer × View
of_key [] m r = (refused blank_key, m)
of_key (x ∷ xs) m r = r

abbrev pub answer_value : Option Bytes → Answer
answer_value none = refused no_key
answer_value (some v) = value v

abbrev pub has_value : Option Bytes → Bool
has_value none = false
has_value (some v) = true

-- The number that bytes write in base 256, the first byte the highest.
unfoldable pub number : Bytes → ℕ
number [] = 0
number (x ∷ xs) = x * 256 ^ length xs + number xs

-- A counter is 8 bytes; a key that is missing and any other value count from 0.
abbrev pub counter_at : Option Bytes → ℕ
counter_at none = 0
counter_at (some v) = if length v == 8 then number v else 0

-- One more and one less, on 64 bits.
abbrev pub next_count : ℕ → ℕ
next_count n = (n + 1) % 2 ^ 64

abbrev pub previous_count : ℕ → ℕ
previous_count n = (n + 2 ^ 64 - 1) % 2 ^ 64

unfoldable pub update_pairs : View → Pairs → View
update_pairs m [] = m
update_pairs m ((key, v) ∷ rest) = update_pairs (update_view m key (some v)) rest

unfoldable pub remove_keys : View → List Bytes → View
remove_keys m [] = m
remove_keys m (key ∷ rest) = remove_keys (update_view m key none) rest

-- Whether a key is empty.
unfoldable pub has_blank : List Bytes → Bool
has_blank [] = false
has_blank ([] ∷ keys) = true
has_blank ((x ∷ xs) ∷ keys) = has_blank keys

unfoldable pub keys_of : Pairs → List Bytes
keys_of [] = []
keys_of ((key, v) ∷ ps) = key ∷ keys_of ps

abbrev pub of_keys : List Bytes → View → Answer × View → Answer × View
of_keys keys m r = if has_blank keys then (refused blank_key, m) else r

unfoldable pub is_listed : Bytes → List Bytes → Bool
is_listed k [] = false
is_listed k (j ∷ js) = same_key j k || is_listed k js

-- The view at some keys only.
abbrev pub restrict : View → List Bytes → View
restrict m keys k = if is_listed k keys then m k else none

-- A count in 8 bytes, the highest first.
abbrev pub count_bytes : ℕ → Bytes
count_bytes n =
    n / 256 ^ 7 % 256
    ∷ n / 256 ^ 6 % 256
    ∷ n / 256 ^ 5 % 256
    ∷ n / 256 ^ 4 % 256
    ∷ n / 256 ^ 3 % 256
    ∷ n / 256 ^ 2 % 256
    ∷ n / 256 ^ 1 % 256
    ∷ n / 256 ^ 0 % 256
    ∷ []

abbrev pub count_at : (ℕ → ℕ) → Bytes → View → Answer × View
count_at step key m =
    let n = step (counter_at (m key)) in (count n, update_view m key (some (count_bytes n)))

unfoldable pub spec : Operation → View → Answer × View
spec (set key v ttl) m = of_key key m (done, update_view m key (some v))
spec (get key) m = of_key key m (answer_value (m key), m)
spec (delete key) m = of_key key m (done, update_view m key none)
spec (exists key) m = of_key key m (holds (has_value (m key)), m)
spec (incr key) m = of_key key m (count_at next_count key m)
spec (decr key) m = of_key key m (count_at previous_count key m)
spec (batch_set ps ttl) m = of_keys (keys_of ps) m (done, update_pairs m ps)
spec (batch_set_no_ttl ps) m = of_keys (keys_of ps) m (done, update_pairs m ps)
spec (batch_get keys) m = of_keys keys m (values (restrict m keys), m)
spec (batch_delete keys) m = of_keys keys m (done, remove_keys m keys)
