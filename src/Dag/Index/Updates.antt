-- ===== src/Dag/Index/Updates.antt =====
-- What the updates of the index do to membership.
use cytah_speed.Prelude.{
  ℕ, ◌≡◌, refl, ap, ◌∙◌, not, ◌&&◌, ◌||◌, List, [], ◌∷◌, ◌++◌, arith, ◌==◌, ==_iff, contains,
  if◌then◌else◌, Table, get, insert, get-insert, contains_key, none, some, Bool-cases, inl, inr,
}
use cytah_speed.Core.Block.{BlockHash, Block}
use cytah_speed.Dag.Worklist.Found.{contains-append}
use cytah_speed.Dag.Index.{
  set_insert, set_remove, set_remove_all, get_children, push_child, push_children, parents_of,
}

pub contains-set_insert :
    (x : ℕ) (xs : List ℕ) (v : ℕ) → contains (set_insert x xs) v ≡ (x == v || contains xs v)
unfolding set_insert
contains-set_insert x xs v = elim (Bool-cases (contains xs x)) [
  | inl old ↦ ground (arith, ==_iff x v)
  | inr new ↦ ground (arith, contains-append xs (x ∷ []) v)
]

contains-set_remove :
    (x : ℕ) (xs : List ℕ) (v : ℕ) → contains (set_remove x xs) v ≡ (contains xs v && not (x == v))
unfolding set_remove
contains-set_remove x [] v = refl
contains-set_remove x (y ∷ ys) v = ground (arith, contains-set_remove x ys v)

pub contains-set_remove_all :
    (ps xs : List ℕ) (v : ℕ)
    → contains (set_remove_all ps xs) v ≡ (contains xs v && not (contains ps v))
unfolding set_remove_all
contains-set_remove_all [] xs v = ground arith
contains-set_remove_all (p ∷ ps) xs v =
    contains-set_remove_all ps (set_remove p xs) v ∙ ground (arith, contains-set_remove p xs v)

pub get_children-push_child :
    (p child parent : BlockHash) (m : Table (List BlockHash))
    → get_children p (push_child child parent m)
      ≡ (if parent == p then get_children p m ++ child ∷ [] else get_children p m)
unfolding push_child get_children
get_children-push_child p child parent m =
    ground (arith, get-insert p parent (get_children parent m ++ child ∷ []) m, ==_iff parent p)

pub contains-push_children :
    (p child : BlockHash) (ps : List BlockHash) (m : Table (List BlockHash)) (x : BlockHash)
    → contains (get_children p (push_children child ps m)) x
      ≡ (contains (get_children p m) x || (contains ps p && child == x))
unfolding push_children
contains-push_children p child [] m x = ground arith
contains-push_children p child (q ∷ ps) m x =
    contains-push_children p child ps (push_child child q m) x
    ∙ ground (
      arith,
      ap (λ (l : List ℕ). contains l x) (get_children-push_child p child q m),
      contains-append (get_children p m) (child ∷ []) x,
    )

pub parents_of-insert :
    (store : Table Block) (a : Block) (c : BlockHash)
    → parents_of (insert a.hash a store) c
      ≡ (if a.hash == c then a.header.parent_hashes else parents_of store c)
unfolding parents_of
parents_of-insert store a c = ground (arith, get-insert c a.hash a store)

pub parents_of_absent :
    (store : Table Block) (h : BlockHash) → get h store ≡ none → parents_of store h ≡ []
unfolding parents_of
parents_of_absent store h e = rw (e, parents_of)

pub parents_of_stored :
    (store : Table Block) (h : BlockHash) (b : Block)
    → get h store ≡ some b
    → parents_of store h ≡ b.header.parent_hashes
unfolding parents_of
parents_of_stored store h b e = rw (e, parents_of)

pub contains_key-insert :
    (k h : BlockHash) (b : Block) (store : Table Block)
    → contains_key h (insert k b store) ≡ (k == h || contains_key h store)
contains_key-insert k h b store = ground (arith, get-insert h k b store)
