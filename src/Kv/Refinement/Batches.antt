-- ===== src/Kv/Refinement/Batches.antt =====
-- On a store that accepts writes: the operations on several keys.
use flin.Prelude.{
  ℕ, ◌≡◌, ◌≢◌, refl, ap, ◌∙◌, Option, none, some, List, [], ◌∷◌, Bool-cases, inl, inr,
}
use flin.Wire.Outcome.{Bytes, ok}
use flin.Wire.Signed.{signed_lt}
use flin.Badger.{Badger, Reliable, found}
use flin.Badger.Writers.{Writers, IsLawful, AreReliable}
use flin.Kv.Storage.{
  Storage, Pairs, any_empty, any_empty_pair, batch_entry, set_pairs, set_pairs_no_ttl, delete_keys,
  put_found, get_keys, get_chunks, get_batch, finish,
}
use flin.Kv.Storage
use flin.Kv.View.{
  View, Operation, Shows, update_view, lookup_of, update_pairs, remove_keys, Answer, has_blank,
  keys_of, spec,
}
use flin.Kv.Pairs.{
  add_value, values_at, map_get-restrict, has_blank-any_empty, has_blank-any_empty_pair,
}
use flin.Kv.Calls.{call}
use flin.Kv.Chunks.{get_batch-eq-get_keys}
use flin.Kv.Refinement.Single.{Follows, view_change}

module _ (b : Badger) (w : Writers b) (r : Reliable b) (l : IsLawful b w)
    (a : AreReliable b w) where
  -- What is due once a batch is flushed is what the view has.
  abbrev Due : w.Batch → View → Type 0
  Due u m = (k : Bytes) → w.due u k ≡ lookup_of (m k)

  batch_entry_lem :
      (u : w.Batch) (key v : Bytes) (ttl : ℕ)
      → (u' : w.Batch) × (batch_entry b w u key v ttl ≡ (ok tt, u'))
        × (w.due u' key ≡ found v)
        × ((k : Bytes) → key ≢ k → w.due u' k ≡ w.due u k)
  unfolding batch_entry
  batch_entry_lem u key v ttl = elim (Bool-cases (signed_lt 0 ttl)) [
    | inl y ↦
        let (u', e) = a.batch_sets_ttl u key v ttl in
        (
          u',
          rw (y, e),
          l.due-batch_set_ttl_self u u' key v ttl e,
          λ k. l.due-batch_set_ttl_ne u u' key v k ttl e,
        )
    | inr n ↦
        let (u', e) = a.batch_sets u key v in
        (u', rw (n, e), l.due-batch_set_self u u' key v e, λ k. l.due-batch_set_ne u u' key v k e)
  ]

  set_pairs_lem :
      (ps : Pairs) (ttl : ℕ) (u : w.Batch) (m : View)
      → Due u m
      → (u' : w.Batch) × (set_pairs b w ps ttl u ≡ (ok tt, u')) × Due u' (update_pairs m ps)
  unfolding set_pairs update_pairs
  set_pairs_lem [] ttl u m h = (u, refl, h)
  set_pairs_lem ((key, v) ∷ ps) ttl u m h =
      let (u1, e, self, ne) = batch_entry_lem u key v ttl in
      let (u2, e', h') =
        set_pairs_lem ps ttl u1 (update_view m key (some v))
          (view_change (w.due u) (w.due u1) m key (some v) h self ne) in
      (u2, rw (e, e'), h')

  set_pairs_no_ttl_lem :
      (ps : Pairs) (u : w.Batch) (m : View)
      → Due u m
      → (u' : w.Batch) × (set_pairs_no_ttl b w ps u ≡ (ok tt, u')) × Due u' (update_pairs m ps)
  unfolding set_pairs_no_ttl update_pairs
  set_pairs_no_ttl_lem [] u m h = (u, refl, h)
  set_pairs_no_ttl_lem ((key, v) ∷ ps) u m h =
      let (u1, e) = a.batch_sets u key v in
      let (u2, e', h') = set_pairs_no_ttl_lem ps u1 (update_view m key (some v)) (
        view_change (w.due u) (w.due u1) m key (some v) h (l.due-batch_set_self u u1 key v e)
          (λ k. l.due-batch_set_ne u u1 key v k e)) in
      (u2, rw (e, e'), h')

  delete_keys_lem :
      (keys : List Bytes) (u : w.Batch) (m : View)
      → Due u m
      → (u' : w.Batch) × (delete_keys b w keys u ≡ (ok tt, u')) × Due u' (remove_keys m keys)
  unfolding delete_keys remove_keys
  delete_keys_lem [] u m h = (u, refl, h)
  delete_keys_lem (key ∷ keys) u m h =
      let (u1, e) = a.batch_deletes u key in
      let (u2, e', h') = delete_keys_lem keys u1 (update_view m key none) (
        view_change (w.due u) (w.due u1) m key none h (l.due-batch_delete_self u u1 key e)
          (λ k. l.due-batch_delete_ne u u1 key k e)) in
      (u2, rw (e, e'), h')

  -- A batch that is due as the view has it, once flushed.
  flushed :
      (u : w.Batch) (m : View)
      → Due u m
      → (t : b.Txn) × (w.flush u ≡ (ok tt, t)) × ((k : Bytes) → b.get t k ≡ lookup_of (m k))
  flushed u m h = let (t, e) = a.flushes u in (t, e, λ k. l.get-flush u t k e ∙ h k)

  started : (s : Storage b) (m : View) → Shows b s m → Due (w.new_batch s.db) m
  started s m h k = l.due-new_batch s.db k ∙ h.agrees k

  pub batch_set-Follows :
      (ps : Pairs) (ttl : ℕ) (s : Storage b) (m : View)
      → Shows b s m
      → Follows b w r l a (Operation.batch_set ps ttl) s m
  unfolding call Storage.batch_set spec any_empty_pair update_pairs has_blank keys_of
  batch_set-Follows [] ttl s m h = record { next = s; called = rw h.is_open; shows = h }
  batch_set-Follows (p ∷ ps) ttl s m h = elim (Bool-cases (any_empty_pair (p ∷ ps))) [
    | inl y ↦
        let y' = has_blank-any_empty_pair (p ∷ ps) ∙ y in
        record { next = s; called = rw (h.is_open, y', y); shows = rw y' h }
    | inr n ↦
        let n' = has_blank-any_empty_pair (p ∷ ps) ∙ n in
        let (u, e, due) = set_pairs_lem (p ∷ ps) ttl (w.new_batch s.db) m (started s m h) in
        let (t, f, agrees) = flushed u _ due in
        record {
          next = record s { db = t };
          called = rw (h.is_open, n', n, e, f);
          shows = rw n' (record { is_open = h.is_open; agrees = agrees });
        }
  ]

  pub batch_set_no_ttl-Follows :
      (ps : Pairs) (s : Storage b) (m : View)
      → Shows b s m
      → Follows b w r l a (Operation.batch_set_no_ttl ps) s m
  unfolding call Storage.batch_set_no_ttl spec any_empty_pair update_pairs has_blank keys_of
  batch_set_no_ttl-Follows [] s m h = record { next = s; called = rw h.is_open; shows = h }
  batch_set_no_ttl-Follows (p ∷ ps) s m h = elim (Bool-cases (any_empty_pair (p ∷ ps))) [
    | inl y ↦
        let y' = has_blank-any_empty_pair (p ∷ ps) ∙ y in
        record { next = s; called = rw (h.is_open, y', y); shows = rw y' h }
    | inr n ↦
        let n' = has_blank-any_empty_pair (p ∷ ps) ∙ n in
        let (u, e, due) = set_pairs_no_ttl_lem (p ∷ ps) (w.new_batch s.db) m (started s m h) in
        let (t, f, agrees) = flushed u _ due in
        record {
          next = record s { db = t };
          called = rw (h.is_open, n', n, e, f);
          shows = rw n' (record { is_open = h.is_open; agrees = agrees });
        }
  ]

  pub batch_delete-Follows :
      (keys : List Bytes) (s : Storage b) (m : View)
      → Shows b s m
      → Follows b w r l a (Operation.batch_delete keys) s m
  unfolding call Storage.batch_delete spec any_empty remove_keys has_blank
  batch_delete-Follows [] s m h = record { next = s; called = rw h.is_open; shows = h }
  batch_delete-Follows (k ∷ ks) s m h = elim (Bool-cases (any_empty (k ∷ ks))) [
    | inl y ↦
        let y' = has_blank-any_empty (k ∷ ks) ∙ y in
        record { next = s; called = rw (h.is_open, y', y); shows = rw y' h }
    | inr n ↦
        let n' = has_blank-any_empty (k ∷ ks) ∙ n in
        let (u, e, due) = delete_keys_lem (k ∷ ks) (w.new_batch s.db) m (started s m h) in
        let (t, f, agrees) = flushed u _ due in
        record {
          next = record s { db = t };
          called = rw (h.is_open, n', n, e, f);
          shows = rw n' (record { is_open = h.is_open; agrees = agrees });
        }
  ]

  put_found_lem :
      (key : Bytes) (o : Option Bytes) (result : Pairs)
      → put_found b key (lookup_of o) result ≡ ok (add_value key o result)
  put_found_lem key none result = refl
  put_found_lem key (some v) result = refl

  get_keys_lem :
      (t : b.Txn) (m : View) (keys : List Bytes) (result : Pairs)
      → ((k : Bytes) → b.get t k ≡ lookup_of (m k))
      → get_keys b t keys result ≡ ok (values_at m keys result)
  unfolding get_keys values_at
  get_keys_lem t m [] result h = refl
  get_keys_lem t m (key ∷ keys) result h =
      rw (h key, put_found_lem key (m key) result)
        (get_keys_lem t m keys (add_value key (m key) result) h)

  pub batch_get-Follows :
      (keys : List Bytes) (s : Storage b) (m : View)
      → Shows b s m
      → Follows b w r l a (Operation.batch_get keys) s m
  unfolding call Storage.batch_get spec
  batch_get-Follows keys s m h = elim (Bool-cases (any_empty keys)) [
    | inl y ↦
        let y' = has_blank-any_empty keys ∙ y in
        record { next = s; called = rw (h.is_open, y', y); shows = rw y' h }
    | inr n ↦
        let n' = has_blank-any_empty keys ∙ n in
        record {
          next = s;
          called =
              rw (n', n)
                (ap (λ x. (x, s))
                  (rw
                    (
                      h.is_open,
                      get_batch-eq-get_keys b s.db keys,
                      get_keys_lem s.db m keys [] h.agrees,
                    )
                    (ap Answer.values (map_get-restrict m keys))));
          shows = rw n' h;
        }
  ]
