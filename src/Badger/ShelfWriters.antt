-- ===== src/Badger/ShelfWriters.antt =====
-- Writes of the shelf: a batch makes its writes at once, and no entry's time passes.
use flin.Prelude.{refl, sym, ap, ◌∙◌, ◌≡◌, ◌∷◌}
use flin.Wire.Outcome.{Outcome, ok}
use flin.Badger.Shelf.{Shelf, shelf, look, without, look_set, look_self}
use flin.Badger.Writers.{Writers, IsLawful, AreReliable}

abbrev pub shelf_writers : Writers shelf
shelf_writers = record {
  set_ttl = λ t k v ttl. ok ((k, v) ∷ without k t);
  Batch = Shelf;
  new_batch = λ t. t;
  batch_set = λ u k v. (ok tt, (k, v) ∷ without k u);
  batch_set_ttl = λ u k v ttl. (ok tt, (k, v) ∷ without k u);
  batch_delete = λ u k. (ok tt, without k u);
  flush = λ u. (ok tt, u);
  cancel = λ u. u;
  due = look;
}

-- What a batch is once a write has made it `t`.
left :
    (m t : Shelf)
    → ◌≡◌ {A = Outcome (Unit {0}) × Shelf} (ok tt, m) (ok tt, t)
    → ◌≡◌ {A = Outcome Shelf} (ok m) (ok t)
left m t e = ap (λ p. ok p.1) e

pub shelf_writers-IsLawful : IsLawful shelf shelf_writers
shelf_writers-IsLawful = record {
  get-set_ttl_self = λ t t' k v ttl e. look_set t t' k v k e ∙ look_self (without k t) k v;
  get-set_ttl_ne = λ t t' k v j ttl e ne. shelf.get-set_ne t t' k v j e ne;
  due-new_batch = λ t k. refl;
  due-batch_set_self = λ u u' k v e. shelf.get-set_self u u' k v (left _ u' e);
  due-batch_set_ne = λ u u' k v j e ne. shelf.get-set_ne u u' k v j (left _ u' e) ne;
  due-batch_set_ttl_self = λ u u' k v ttl e. shelf.get-set_self u u' k v (left _ u' e);
  due-batch_set_ttl_ne = λ u u' k v j ttl e ne. shelf.get-set_ne u u' k v j (left _ u' e) ne;
  due-batch_delete_self = λ u u' k e. shelf.get-delete_self u u' k (left _ u' e);
  due-batch_delete_ne = λ u u' k j e ne. shelf.get-delete_ne u u' k j (left _ u' e) ne;
  get-flush = λ u t k e. ap (λ p. look p.1 k) (sym e);
}

pub shelf_writers-AreReliable : AreReliable shelf shelf_writers
shelf_writers-AreReliable = record {
  sets_ttl = λ t k v ttl. ((k, v) ∷ without k t, refl);
  batch_sets = λ u k v. ((k, v) ∷ without k u, refl);
  batch_sets_ttl = λ u k v ttl. ((k, v) ∷ without k u, refl);
  batch_deletes = λ u k. (without k u, refl);
  flushes = λ u. (u, refl);
}
