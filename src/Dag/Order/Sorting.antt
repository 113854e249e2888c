-- ===== src/Dag/Order/Sorting.antt =====
-- Sorting hashes keeps membership and distinctness.
use cytah_speed.Prelude.{
  ℕ, ◌≡◌, refl, ◌∙◌, ◌||◌, List, [], ◌∷◌, ◌==◌, ==_iff, arith, contains, get, Table, keys, IsKeyed,
  contains_key, false, true, sym,
}
use cytah_speed.Core.Block.Validity.{IsDistinct}
use cytah_speed.Storage.BlockStore.{insert_key, sort_keys}

contains-insert_key :
    (x : ℕ) (xs : List ℕ) (v : ℕ) → contains (insert_key x xs) v ≡ (x == v || contains xs v)
unfolding insert_key
contains-insert_key x [] v = refl
contains-insert_key x (y ∷ ys) v = ground (arith, contains-insert_key x ys v)

pub contains-sort_keys : (xs : List ℕ) (v : ℕ) → contains (sort_keys xs) v ≡ contains xs v
unfolding sort_keys
contains-sort_keys [] v = refl
contains-sort_keys (x ∷ xs) v =
    ground (arith, contains-insert_key x (sort_keys xs) v, contains-sort_keys xs v)

insert_key-IsDistinct :
    (x : ℕ) (xs : List ℕ) → contains xs x ≡ false → IsDistinct xs → IsDistinct (insert_key x xs)
unfolding insert_key
insert_key-IsDistinct x [] new d = (refl, tt)
insert_key-IsDistinct x (y ∷ ys) new d =
    ground (arith, insert_key-IsDistinct x ys, contains-insert_key x ys y, ==_iff x y)

pub sort_keys-IsDistinct : (xs : List ℕ) → IsDistinct xs → IsDistinct (sort_keys xs)
unfolding sort_keys
sort_keys-IsDistinct [] d = tt
sort_keys-IsDistinct (x ∷ xs) d =
    insert_key-IsDistinct x (sort_keys xs) (contains-sort_keys xs x ∙ d.0)
      (sort_keys-IsDistinct xs d.1)

pub contains-keys {ℓ} : {V : Type ℓ} (m : Table V) (k : ℕ) → contains (keys m) k ≡ contains_key k m
unfolding get
contains-keys [] k = refl
contains-keys ((j, v) ∷ m) k = ground (arith, contains-keys m k)

pub keys-IsDistinct {ℓ} : {V : Type ℓ} (m : Table V) → IsKeyed m → IsDistinct (keys m)
keys-IsDistinct [] keyed = tt
keys-IsDistinct ((k, v) ∷ m) keyed =
    (ground (arith, contains-keys m k, keyed.0), keys-IsDistinct m keyed.1)

-- What the sorted keys list is stored.
pub sorted_key_stored {ℓ} :
    {V : Type ℓ} (m : Table V) (k : ℕ)
    → contains (sort_keys (keys m)) k ≡ true
    → contains_key k m ≡ true
sorted_key_stored m k listed = sym (contains-sort_keys (keys m) k ∙ contains-keys m k) ∙ listed
