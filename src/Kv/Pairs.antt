-- ===== src/Kv/Pairs.antt =====
-- Go maps as lists of pairs without a repeated key.
use mathlib.Core.Path.{fun_ext}
use flin.Prelude.{
  ◌≡◌, refl, ◌∙◌, Bool, true, false, ◌||◌, Option, none, some, List, [], ◌∷◌, if◌then◌else◌,
  Bool-cases, inl, inr, arith,
}
use flin.Wire.Outcome.{Bytes}
use flin.Badger.Memory.{same_key, same_key_iff}
use flin.Queue.Storage.{is_empty}
use flin.Kv.Storage.{Pairs, map_set, map_get, any_empty, any_empty_pair}
use flin.Kv.View.{View, update_view, update_pairs, is_listed, restrict, has_blank, keys_of}

abbrev pub NoRepeat : Pairs → Type 0
NoRepeat [] = Unit
NoRepeat ((k, v) ∷ ps) = (map_get k ps ≡ none) × NoRepeat ps

abbrev pub overlay : Option Bytes → Option Bytes → Option Bytes
overlay none o = o
overlay (some v) o = some v

-- The view under a map that hides its keys.
abbrev pub overlay_view : Pairs → View → View
overlay_view ps m k = overlay (map_get k ps) (m k)

pub map_get-map_set :
    (j k v : Bytes) (ps : Pairs)
    → map_get j (map_set k v ps) ≡ (if same_key k j then some v else map_get j ps)
unfolding map_get map_set
map_get-map_set j k v [] = refl
map_get-map_set j k v ((i, u) ∷ ps) =
    ground (arith, map_get-map_set j k v ps, same_key_iff i k, same_key_iff k j, same_key_iff i j)

pub map_set-NoRepeat : (k v : Bytes) (ps : Pairs) → NoRepeat ps → NoRepeat (map_set k v ps)
unfolding map_get map_set
map_set-NoRepeat k v [] h = (refl, tt)
map_set-NoRepeat k v ((i, u) ∷ ps) (f, h) =
    ground (
      arith,
      map_set-NoRepeat k v ps h,
      map_get-map_set i k v ps,
      same_key_iff i k,
      same_key_iff k i,
    )

pub overlay_view-map_set :
    (k v : Bytes) (ps : Pairs) (m : View)
    → overlay_view (map_set k v ps) m ≡ update_view (overlay_view ps m) k (some v)
unfolding update_view
overlay_view-map_set k v ps m = fun_ext (λ j. elim (Bool-cases (same_key k j)) [
  | inl y ↦ rw (map_get-map_set j k v ps, y)
  | inr n ↦ rw (map_get-map_set j k v ps, n)
])

pub update_pairs-eq-overlay_view :
    (ps : Pairs) (m : View) → NoRepeat ps → update_pairs m ps ≡ overlay_view ps m
unfolding update_pairs update_view map_get
update_pairs-eq-overlay_view [] m h = refl
update_pairs-eq-overlay_view ((j, v) ∷ ps) m (f, h) =
    update_pairs-eq-overlay_view ps (update_view m j (some v)) h ∙ fun_ext (λ k. point k)
  where
    point :
        (k : Bytes) → overlay_view ps (update_view m j (some v)) k ≡ overlay_view ((j, v) ∷ ps) m k
    point k = ground (arith, same_key_iff j k)

pub any_empty_pair-map_set :
    (k v : Bytes) (ps : Pairs) → any_empty_pair (map_set k v ps) ≡ (is_empty k || any_empty_pair ps)
unfolding any_empty_pair map_set
any_empty_pair-map_set k v [] = refl
any_empty_pair-map_set k v ((i, u) ∷ ps) =
    ground (arith, any_empty_pair-map_set k v ps, same_key_iff i k)

-- What BatchGet adds to its map for a key, and for some keys.
abbrev pub add_value : Bytes → Option Bytes → Pairs → Pairs
add_value key none result = result
add_value key (some v) result = map_set key v result

unfoldable pub values_at : View → List Bytes → Pairs → Pairs
values_at m [] result = result
values_at m (key ∷ rest) result = values_at m rest (add_value key (m key) result)

map_get-add_value :
    (k key : Bytes) (o : Option Bytes) (ps : Pairs)
    → map_get k (add_value key o ps)
      ≡ (if same_key key k then overlay o (map_get k ps) else map_get k ps)
map_get-add_value k key none ps = ground arith
map_get-add_value k key (some v) ps = map_get-map_set k key v ps

-- What BatchGet collects for a key.
pub map_get-values_at :
    (k : Bytes) (m : View) (keys : List Bytes) (ps : Pairs)
    → map_get k (values_at m keys ps)
      ≡ (if is_listed k keys then overlay (m k) (map_get k ps) else map_get k ps)
unfolding values_at is_listed
map_get-values_at k m [] ps = refl
map_get-values_at k m (key ∷ keys) ps = ground (
  arith,
  map_get-values_at k m keys (add_value key (m key) ps),
  map_get-add_value k key (m key) ps,
  same_key_iff key k,
)

-- The map that BatchGet returns shows the view at the keys.
pub map_get-restrict :
    (m : View) (keys : List Bytes) → (λ k. map_get k (values_at m keys [])) ≡ restrict m keys
unfolding map_get
map_get-restrict m keys =
    fun_ext λ k. map_get-values_at k m keys [] ∙ at_key (m k) (is_listed k keys)
  where
    at_key :
        (o : Option Bytes) (p : Bool)
        → (if p then overlay o none else none) ≡ (if p then o else none)
    at_key none true = refl
    at_key (some v) true = refl
    at_key o false = refl

pub has_blank-any_empty : (keys : List Bytes) → has_blank keys ≡ any_empty keys
unfolding has_blank any_empty
has_blank-any_empty [] = refl
has_blank-any_empty ([] ∷ keys) = refl
has_blank-any_empty ((x ∷ xs) ∷ keys) = has_blank-any_empty keys

pub has_blank-any_empty_pair : (ps : Pairs) → has_blank (keys_of ps) ≡ any_empty_pair ps
unfolding has_blank keys_of any_empty_pair
has_blank-any_empty_pair [] = refl
has_blank-any_empty_pair (([], v) ∷ ps) = refl
has_blank-any_empty_pair ((x ∷ xs, v) ∷ ps) = has_blank-any_empty_pair ps
