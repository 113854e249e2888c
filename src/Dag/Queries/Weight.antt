-- ===== src/Dag/Queries/Weight.antt =====
-- The fuel that a search backwards needs: the references of the blocks not visited yet.
use cytah_speed.Prelude.{
  ℕ, ◌+◌, ◌≤◌, ◌≡◌, sym, subst, ◌∙◌, false, not, ◌&&◌, ◌||◌, List, [], ◌∷◌, ◌++◌, arith, ◌==◌,
  ==_iff, contains, length, length-append, Table, get, Bool-cases, inl, inr, if◌then◌else◌,
}
use cytah_speed.Core.Block.{BlockHash, Block}
use cytah_speed.Dag.Worklist.Found.{contains-append}
use cytah_speed.Dag.Index.{parents_of, all_parents}
use cytah_speed.Dag.Queries.{push_unvisited}

-- The references of the stored blocks that are not visited yet.
unfoldable pub weight : Table Block → List BlockHash → ℕ
weight [] visited = 0
weight ((k, b) ∷ m) visited =
    let rest = weight m visited in
    if contains visited k then rest else length b.header.parent_hashes + rest

weight_mono :
    (store : Table Block) (visited : List BlockHash) (u : BlockHash)
    → weight store (visited ++ u ∷ []) ≤ weight store visited
unfolding weight
weight_mono [] visited u = omega arith
weight_mono ((k, b) ∷ m) visited u =
    ground (arith, weight_mono m visited u, contains-append visited (u ∷ []) k)

pub weight_visit :
    (store : Table Block) (visited : List BlockHash) (u : BlockHash)
    → contains visited u ≡ false
    → weight store (visited ++ u ∷ []) + length (parents_of store u) ≤ weight store visited
unfolding weight parents_of get
weight_visit [] visited u new = omega arith
weight_visit ((k, b) ∷ m) visited u new = elim (Bool-cases (k == u)) [
  | inl same ↦
      let old : contains visited k ≡ false =
        subst (λ (x : ℕ). contains visited x ≡ false) (sym ((==_iff k u).0 same)) new in
      ground (
        arith,
        same,
        old,
        weight_mono m visited u,
        contains-append visited (u ∷ []) k,
        ==_iff u k,
        (==_iff k u).0 same,
      )
  | inr other ↦ ground (
    arith,
    other,
    weight_visit m visited u new,
    contains-append visited (u ∷ []) k,
    ==_iff u k,
    ==_iff k u,
  )
]

pub weight_none : (store : Table Block) → weight store [] ≤ length (all_parents store)
unfolding weight all_parents
weight_none [] = omega arith
weight_none ((k, b) ∷ m) =
    omega (arith, weight_none m, length-append b.header.parent_hashes (all_parents m))

pub contains-push_unvisited :
    (visited ps queue : List BlockHash) (v : BlockHash)
    → contains (push_unvisited visited ps queue) v
      ≡ (contains queue v || (contains ps v && not (contains visited v)))
unfolding push_unvisited
contains-push_unvisited visited [] queue v = ground arith
contains-push_unvisited visited (p ∷ ps) queue v =
    contains-push_unvisited visited ps (if contains visited p then queue else queue ++ p ∷ []) v
    ∙ (elim (Bool-cases (contains visited p)) [
      | inl old ↦ ground (arith, old, ==_iff p v)
      | inr new ↦ ground (arith, new, ==_iff p v, contains-append queue (p ∷ []) v)
    ])

pub length-push_unvisited :
    (visited ps queue : List BlockHash)
    → length (push_unvisited visited ps queue) ≤ length queue + length ps
unfolding push_unvisited
length-push_unvisited visited [] queue = omega arith
length-push_unvisited visited (p ∷ ps) queue =
    let later =
      length-push_unvisited visited ps (if contains visited p then queue else queue ++ p ∷ []) in
    ground (arith, later, length-append queue (p ∷ []))
