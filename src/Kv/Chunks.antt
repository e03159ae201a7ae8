-- ===== src/Kv/Chunks.antt =====
-- BatchGet reads long lists of keys in chunks of 100, and short ones at once.
use flin.Prelude.{
  ℕ, zero, suc, ◌≤◌, ◌≡◌, refl, sym, ap, ◌∙◌, List, [], ◌∷◌, ◌++◌, leb, length, take, drop,
  length-drop, Bool-cases, inl, inr, arith,
}
use flin.Wire.Outcome.{Bytes, Outcome, ok, err, panic, then_do}
use flin.Badger.{Badger}
use flin.Kv.Storage.{Pairs, put_found, get_keys, get_chunks, get_batch}

then_do_assoc {ℓ} :
    {A B C : Type ℓ} (m : Outcome A) (f : A → Outcome B) (g : B → Outcome C)
    → then_do (then_do m f) g ≡ then_do m (λ x. then_do (f x) g)
then_do_assoc (ok x) f g = refl
then_do_assoc (err e) f g = refl
then_do_assoc panic f g = refl

take-append-drop {ℓ} : {A : Type ℓ} (n : ℕ) (xs : List A) → take n xs ++ drop n xs ≡ xs
take-append-drop zero xs = refl
take-append-drop (suc n) [] = refl
take-append-drop (suc n) (x ∷ xs) = ap (◌∷◌ x) (take-append-drop n xs)

module _ (b : Badger) (t : b.Txn) where
  get_keys-append :
      (xs ys : List Bytes) (result : Pairs)
      → get_keys b t (xs ++ ys) result ≡ then_do (get_keys b t xs result) (get_keys b t ys)
  unfolding get_keys
  get_keys-append [] ys result = refl
  get_keys-append (x ∷ xs) ys result =
      ap (then_do (put_found b x (b.get t x) result)) (λ i r. get_keys-append xs ys r i)
      ∙ sym (then_do_assoc (put_found b x (b.get t x) result) (get_keys b t xs) (get_keys b t ys))

  get_chunks_done : (rounds : ℕ) (result : Pairs) → get_chunks b rounds t [] result ≡ ok result
  unfolding get_chunks get_keys
  get_chunks_done zero result = refl
  get_chunks_done (suc rounds) result = get_chunks_done rounds result

  get_chunks-eq-get_keys :
      (rounds : ℕ) (keys : List Bytes) (result : Pairs)
      → length keys ≤ rounds
      → get_chunks b rounds t keys result ≡ get_keys b t keys result
  unfolding get_chunks get_keys
  get_chunks-eq-get_keys zero [] result h = refl
  get_chunks-eq-get_keys zero (k ∷ keys) result h = absurd (omega arith)
  get_chunks-eq-get_keys (suc rounds) keys result h =
      ap (then_do (get_keys b t (take 100 keys) result)) (λ i r.
        get_chunks-eq-get_keys rounds (drop 100 keys) r (omega (arith, length-drop 100 keys)) i)
      ∙ sym (get_keys-append (take 100 keys) (drop 100 keys) result)
      ∙ ap (λ ks. get_keys b t ks result) (take-append-drop 100 keys)

  pub get_batch-eq-get_keys : (keys : List Bytes) → get_batch b t keys ≡ get_keys b t keys []
  unfolding get_batch
  get_batch-eq-get_keys keys = elim (Bool-cases (leb (length keys) 100)) [
    | inl y ↦ rw y
    | inr n ↦ rw n (get_chunks-eq-get_keys (length keys) keys [] (omega arith))
  ]
