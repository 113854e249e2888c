-- ===== src/Execution/Access/Graph.antt =====
-- The conflict graph links every two transactions that conflict, both ways.
use cytah_speed.Prelude.{
  ℕ, zero, suc, ◌<◌, ◌≡◌, refl, sym, true, ◌&&◌, ◌||◌, some, List, [], ◌∷◌, ◌==◌, if_ind, arith,
  get_elem?, contains, Table, get-insert, not,
}
use cytah_speed.Core.Transaction.{Hash}
use cytah_speed.Dag.Index.{set_insert}
use cytah_speed.Dag.Index.Updates.{contains-set_insert}
use cytah_speed.Execution.Access.{
  TxNode, neighbors, add_edge, link_later, link_all_pairs, transactions_conflict, StateKey,
  TxAccessSet, same_bytes, same_key, is_disjoint, has_key,
}

abbrev pub IsEdge : Hash → Hash → Table (List Hash) → Type 0
IsEdge x y edges = contains (neighbors x edges) y ≡ true

contains-add_edge :
    (k x y v : Hash) (edges : Table (List Hash))
    → contains (neighbors k (add_edge x y edges)) v
      ≡ (contains (neighbors k edges) v || (x == k && y == v))
unfolding add_edge
contains-add_edge k x y v edges = ground (
  arith,
  get-insert k x (set_insert y (neighbors x edges)) edges,
  contains-set_insert y (neighbors x edges) v,
)

add_edge-IsEdge :
    (k x y v : Hash) (edges : Table (List Hash))
    → IsEdge k v edges
    → IsEdge k v (add_edge x y edges)
add_edge-IsEdge k x y v edges h = ground (arith, contains-add_edge k x y v edges)

link_later-IsEdge :
    (k v : Hash) (a : TxNode) (bs : List TxNode) (edges : Table (List Hash))
    → IsEdge k v edges
    → IsEdge k v (link_later a bs edges)
unfolding link_later
link_later-IsEdge k v a [] edges h = h
link_later-IsEdge k v a (b ∷ bs) edges h = link_later-IsEdge k v a bs _ (
    if_ind (IsEdge k v) (transactions_conflict a.0 b.0)
      (λ _.
        add_edge-IsEdge k b.1 a.1 v (add_edge a.1 b.1 edges) (add_edge-IsEdge k a.1 b.1 v edges h))
      (λ _. h))

link_all_pairs-IsEdge :
    (k v : Hash) (nodes : List TxNode) (edges : Table (List Hash))
    → IsEdge k v edges
    → IsEdge k v (link_all_pairs nodes edges)
unfolding link_all_pairs
link_all_pairs-IsEdge k v [] edges h = h
link_all_pairs-IsEdge k v (a ∷ nodes) edges h =
    link_all_pairs-IsEdge k v nodes (link_later a nodes edges)
      (link_later-IsEdge k v a nodes edges h)

both_added :
    (x y : Hash) (edges : Table (List Hash))
    → IsEdge y x (add_edge y x (add_edge x y edges))
      × IsEdge x y (add_edge y x (add_edge x y edges))
both_added x y edges = (
  ground (arith, contains-add_edge y y x x (add_edge x y edges)),
  add_edge-IsEdge x y x y (add_edge x y edges) (ground (arith, contains-add_edge x x y y edges)),
)

link_later_conflict :
    (a b : TxNode) (bs : List TxNode) (j : ℕ) (edges : Table (List Hash))
    → get_elem? bs j ≡ some b
    → transactions_conflict a.0 b.0 ≡ true
    → IsEdge b.1 a.1 (link_later a bs edges) × IsEdge a.1 b.1 (link_later a bs edges)
unfolding link_later
link_later_conflict a b [] j edges found conflict = cc
link_later_conflict a b (d ∷ bs) zero edges found conflict =
    let same : d ≡ b = ground arith in
    let (back, forth) = both_added a.1 b.1 edges in
    rw (same, conflict)
      (link_later-IsEdge b.1 a.1 a bs _ back, link_later-IsEdge a.1 b.1 a bs _ forth)
link_later_conflict a b (d ∷ bs) (suc j) edges found conflict =
    link_later_conflict a b bs j _ found conflict

-- Of two conflicting transactions at different places each is a neighbour of the other.
pub link_all_pairs_conflict :
    (a b : TxNode) (nodes : List TxNode) (i j : ℕ) (edges : Table (List Hash))
    → get_elem? nodes i ≡ some a
    → get_elem? nodes j ≡ some b
    → i < j
    → transactions_conflict a.0 b.0 ≡ true
    → IsEdge b.1 a.1 (link_all_pairs nodes edges) × IsEdge a.1 b.1 (link_all_pairs nodes edges)
unfolding link_all_pairs
link_all_pairs_conflict a b [] i j edges at_i at_j lt conflict = cc
link_all_pairs_conflict a b (d ∷ nodes) zero zero edges at_i at_j lt conflict = absurd (omega arith)
link_all_pairs_conflict a b (d ∷ nodes) zero (suc j) edges at_i at_j lt conflict =
    let same : d ≡ a = ground arith in
    let (back, forth) = link_later_conflict a b nodes j edges at_j conflict in
    rw same (
      link_all_pairs-IsEdge b.1 a.1 nodes (link_later a nodes edges) back,
      link_all_pairs-IsEdge a.1 b.1 nodes (link_later a nodes edges) forth,
    )
link_all_pairs_conflict a b (d ∷ nodes) (suc i) zero edges at_i at_j lt conflict =
    absurd (omega arith)
link_all_pairs_conflict a b (d ∷ nodes) (suc i) (suc j) edges at_i at_j lt conflict =
    link_all_pairs_conflict a b nodes i j (link_later d nodes edges) at_i at_j (omega arith)
      conflict

same_bytes_comm : (xs ys : List ℕ) → same_bytes xs ys ≡ same_bytes ys xs
same_bytes_comm [] [] = refl
same_bytes_comm [] (y ∷ ys) = refl
same_bytes_comm (x ∷ xs) [] = refl
same_bytes_comm (x ∷ xs) (y ∷ ys) = ground (arith, same_bytes_comm xs ys)

same_key_comm : (k l : StateKey) → same_key k l ≡ same_key l k
same_key_comm (StateKey.account a) (StateKey.account b) = ground arith
same_key_comm (StateKey.contract_storage a k) (StateKey.contract_storage b l) =
    ground (arith, same_bytes_comm k l)
same_key_comm (StateKey.contract_registry a) (StateKey.contract_registry b) = ground arith
same_key_comm (StateKey.account _) (StateKey.contract_storage _ _) = refl
same_key_comm (StateKey.account _) (StateKey.contract_registry _) = refl
same_key_comm (StateKey.contract_storage _ _) (StateKey.account _) = refl
same_key_comm (StateKey.contract_storage _ _) (StateKey.contract_registry _) = refl
same_key_comm (StateKey.contract_registry _) (StateKey.account _) = refl
same_key_comm (StateKey.contract_registry _) (StateKey.contract_storage _ _) = refl

is_disjoint-nil : (xs : List StateKey) → is_disjoint xs [] ≡ true
is_disjoint-nil [] = refl
is_disjoint-nil (x ∷ xs) = is_disjoint-nil xs

is_disjoint-cons :
    (xs : List StateKey) (y : StateKey) (ys : List StateKey)
    → is_disjoint xs (y ∷ ys) ≡ (not (has_key y xs) && is_disjoint xs ys)
is_disjoint-cons [] y ys = refl
is_disjoint-cons (x ∷ xs) y ys = ground (arith, is_disjoint-cons xs y ys, same_key_comm x y)

is_disjoint_comm : (xs ys : List StateKey) → is_disjoint xs ys ≡ is_disjoint ys xs
is_disjoint_comm [] ys = sym (is_disjoint-nil ys)
is_disjoint_comm (x ∷ xs) ys = ground (arith, is_disjoint_comm xs ys, is_disjoint-cons ys x xs)

pub transactions_conflict_comm :
    (a b : TxAccessSet) → transactions_conflict a b ≡ transactions_conflict b a
unfolding transactions_conflict
transactions_conflict_comm a b = ground (
  arith,
  is_disjoint_comm a.writes b.writes,
  is_disjoint_comm a.writes b.reads,
  is_disjoint_comm a.reads b.writes,
)
