-- ===== src/Server/Batches.antt =====
-- The batches of the server: the pairs that it collects, and the values that it puts in order.
use flin.Prelude.{
  ◌≡◌, refl, sym, ap, ◌∙◌, Bool, true, false, ◌||◌, Option, none, some, List, [], ◌∷◌, arith,
}
use flin.Wire.Outcome.{Bytes, ok}
use flin.Badger.Memory.{same_key_iff}
use flin.Queue.Storage.{is_empty}
use flin.Protocol.RoundTrip.Batch.{PairsFit}
use flin.Kv.Storage.{Pairs, map_set, map_get, any_empty, any_empty_pair}
use flin.Kv.View.{View, update_pairs, is_listed, restrict, has_blank, keys_of}
use flin.Kv.Pairs.{
  NoRepeat, overlay_view, map_set-NoRepeat, overlay_view-map_set, update_pairs-eq-overlay_view,
  any_empty_pair-map_set, has_blank-any_empty, has_blank-any_empty_pair,
}
use flin.Server.Kv.{collect_pairs, ordered_values, or_nothing}
use flin.Server.Spec.{update_all, value_or_empty, values_or_nothing}

-- What MSet makes of keys and values of one length.
record Collected (keys values : List Bytes) (m : View) (ps : Pairs) : Type 0 where
  pub result : Pairs
  pub collected : collect_pairs keys values ps ≡ ok result
  pub no_repeat : NoRepeat result
  pub shown : overlay_view result m ≡ update_all (overlay_view ps m) keys values
  pub empty_keys : any_empty_pair result ≡ (any_empty keys || any_empty_pair ps)

or_swap : (p q r : Bool) → (p || (q || r)) ≡ ((q || p) || r)
or_swap p q r = ground arith

collect_pairs-Collected :
    (keys values : List Bytes) (m : View) (ps : Pairs)
    → PairsFit keys values
    → NoRepeat ps
    → Collected keys values m ps
unfolding collect_pairs update_all any_empty
collect_pairs-Collected [] [] m ps h n = record {
  result = ps;
  collected = refl;
  no_repeat = n;
  shown = refl;
  empty_keys = refl;
}
collect_pairs-Collected [] (v ∷ values) m ps h n = absurd h
collect_pairs-Collected (key ∷ keys) [] m ps h n = absurd h
collect_pairs-Collected (key ∷ keys) (v ∷ values) m ps h n =
    let c =
      collect_pairs-Collected keys values m (map_set key v ps) h.2 (map_set-NoRepeat key v ps n) in
    record {
      result = c.result;
      collected = c.collected;
      no_repeat = c.no_repeat;
      shown = c.shown ∙ ap (λ x. update_all x keys values) (overlay_view-map_set key v ps m);
      empty_keys =
          c.empty_keys
          ∙ ap (λ x. any_empty keys || x) (any_empty_pair-map_set key v ps)
          ∙ or_swap (any_empty keys) (is_empty key) (any_empty_pair ps);
    }

-- The pairs of an MSet show as its keys set in order.
pub collect_pairs_lem :
    (keys values : List Bytes) (m : View)
    → PairsFit keys values
    → (ps : Pairs) × (collect_pairs keys values [] ≡ ok ps)
      × (update_pairs m ps ≡ update_all m keys values)
      × (has_blank (keys_of ps) ≡ has_blank keys)
unfolding map_get any_empty_pair
collect_pairs_lem keys values m h =
    let c = collect_pairs-Collected keys values m [] h tt in
    (
      c.result,
      c.collected,
      update_pairs-eq-overlay_view c.result m c.no_repeat ∙ c.shown,
      has_blank-any_empty_pair c.result
          ∙ c.empty_keys
          ∙ or_false (any_empty keys)
          ∙ sym (has_blank-any_empty keys),
    )
  where
    or_false : (p : Bool) → (p || false) ≡ p
    or_false true = refl
    or_false false = refl

-- Every key of the first list is one of the second.
abbrev AllListed : List Bytes → List Bytes → Type 0
AllListed [] keys = Unit
AllListed (k ∷ ks) keys = (is_listed k keys ≡ true) × AllListed ks keys

AllListed-cons :
    (ks keys : List Bytes) (key : Bytes) → AllListed ks keys → AllListed ks (key ∷ keys)
unfolding is_listed
AllListed-cons [] keys key h = tt
AllListed-cons (k ∷ ks) keys key (h, hs) = (ground arith, AllListed-cons ks keys key hs)

AllListed-refl : (keys : List Bytes) → AllListed keys keys
unfolding is_listed
AllListed-refl [] = tt
AllListed-refl (k ∷ ks) =
    (ground (arith, same_key_iff k k), AllListed-cons ks ks k (AllListed-refl ks))

values_or_nothing-AllListed :
    (ks keys : List Bytes) (m : View)
    → AllListed ks keys
    → values_or_nothing (restrict m keys) ks ≡ values_or_nothing m ks
unfolding values_or_nothing
values_or_nothing-AllListed [] keys m h = refl
values_or_nothing-AllListed (k ∷ ks) keys m (h, hs) =
    rw (h, values_or_nothing-AllListed ks keys m hs)

or_nothing_lem : (o : Option Bytes) → or_nothing o ≡ value_or_empty o
or_nothing_lem none = refl
or_nothing_lem (some v) = refl

-- The handler's values are those that its map has.
pub ordered_values-map_get :
    (ks : List Bytes) (ps : Pairs) → ordered_values ks ps ≡ values_or_nothing (λ k. map_get k ps) ks
unfolding ordered_values values_or_nothing
ordered_values-map_get [] ps = refl
ordered_values-map_get (k ∷ ks) ps =
    λ i. or_nothing_lem (map_get k ps) i ∷ ordered_values-map_get ks ps i

-- The values of an MGet are those of its keys, in their order.
pub values_or_nothing-restrict :
    (keys : List Bytes) (m : View)
    → values_or_nothing (restrict m keys) keys ≡ values_or_nothing m keys
values_or_nothing-restrict keys m = values_or_nothing-AllListed keys keys m (AllListed-refl keys)
