-- ===== src/Finality.antt =====
-- The finality engine (src/finality/finality_engine.rs): heights and scores from the topological
-- order, virtual selected parents, the threshold, and reachability as the engine sees it.
pub mod Marks
pub mod Scores
pub mod Parents
pub mod Closed
pub mod Tests
use cytah_speed.Prelude.{
  ◌>>=◌, ℕ, zero, suc, ◌+◌, ◌/◌, ◌≤◌, Bool, true, false, not, ◌&&◌, Option, none, some, List, [],
  ◌∷◌, ◌++◌, ◌==◌, ltb, leb, max, if◌then◌else◌, unwrap_or, length, any, contains, keys, values,
  Table, get, insert, saturating_sub,
}
use cytah_speed.Consensus.Reward.{Floats}
use cytah_speed.Core.Block.{BlockHash, Block}
use cytah_speed.Storage.BlockStore.{sort_keys}
use cytah_speed.Dag.Index.{set_insert}
use cytah_speed.Dag.Order.{get_topological_order}
use cytah_speed.Dag.Queries.{get_block_height, get_block_parents}
use cytah_speed.Dag.Engine.{BlockDag, get_blue_set}

pub record VirtualSelectedParent : Type 0 where
  pub block_hash : BlockHash
  pub height : ℕ
  pub score : ℕ
  pub blue_score : ℕ

pub record FinalityEngine : Type 0 where
  pub confirmation_depth : ℕ
  pub k : ℕ
  pub vsp_cache : Table VirtualSelectedParent
  pub finalized_blocks : Table (List BlockHash)
  pub block_heights : Table ℕ
  pub block_scores : Table ℕ
  pub blue_scores : Table ℕ

pub data FinalityError : Type 0 where
  empty_ordering : FinalityError
  height_missing parents_missing blue_set_missing : BlockHash → FinalityError

-- `endless`: the fuel of the depth or of the topological order ran out, and nothing is known of
-- the call; on a linked graph neither happens.
pub data Fallible (A : Type 0) : Type 0 where
  done : A → Fallible A
  failure : FinalityError → Fallible A
  endless : Fallible A

-- `FinalityEngine::new_with_k`; `new` takes k = 8.
unfoldable pub new_with_k : ℕ → ℕ → FinalityEngine
new_with_k confirmation_depth k = record {
  confirmation_depth = confirmation_depth;
  k = k;
  vsp_cache = [];
  finalized_blocks = [];
  block_heights = [];
  block_scores = [];
  blue_scores = [];
}

-- `get_block_height` with the error for a missing block.
unfoldable pub height_of : Table Block → BlockHash → Fallible ℕ
height_of store h = elim (get_block_height store h) [
  | none ↦ failure (FinalityError.height_missing h)
  | some height ↦ elim height [ none ↦ endless | some n ↦ done n ]
]

-- The loop of `build_interval_tree` over the order: the heights, and the positions as scores.
unfoldable pub scan_ordering :
    Table Block → List BlockHash → ℕ → Table ℕ → Table ℕ → Fallible (Table ℕ × Table ℕ)
scan_ordering store [] index heights scores = done (heights, scores)
scan_ordering store (h ∷ hs) index heights scores = elim (height_of store h) [
  | failure e ↦ failure e
  | endless ↦ endless
  | done height ↦
      scan_ordering store hs (suc index) (insert h height heights) (insert h index scores)
]

-- `get_blue_score`, through its cache.
unfoldable pub get_blue_score :
    Table Block → BlockHash → FinalityEngine → Fallible ℕ × FinalityEngine
get_blue_score store h engine = elim (get h engine.blue_scores) [
  | some score ↦ (done score, engine)
  | none ↦ elim (get_blue_set store h) [
    | none ↦ (failure (FinalityError.blue_set_missing h), engine)
    | some blue_set ↦ (
      done (length blue_set),
      record engine { blue_scores = insert h (length blue_set) engine.blue_scores },
    )
  ]
]

-- The loop of `compute_single_vsp` over the parents: the first of greatest positive score.
unfoldable pub best_blue :
    Table Block
    → List BlockHash
    → Option BlockHash × ℕ
    → FinalityEngine
    → Fallible (Option BlockHash × ℕ) × FinalityEngine
best_blue store [] best engine = (done best, engine)
best_blue store (p ∷ ps) best engine =
    let (result, engine') = get_blue_score store p engine in
    elim result [
      | failure e ↦ (failure e, engine')
      | endless ↦ (endless, engine')
      | done score ↦ best_blue store ps (if ltb best.1 score then (some p, score) else best) engine'
    ]

-- The end of `compute_single_vsp`: a parent without a positive score gives way to the first one.
unfoldable pub vsp_of :
    Table Block → BlockHash → Option BlockHash × ℕ → FinalityEngine → Fallible VirtualSelectedParent
vsp_of store first best engine =
    let selected_parent = unwrap_or best.0 first in
    elim (height_of store selected_parent) [
      | failure e ↦ failure e
      | endless ↦ endless
      | done height ↦ done (record {
        block_hash = selected_parent;
        height = height;
        score = unwrap_or (get selected_parent engine.block_scores) 0;
        blue_score = best.1;
      })
    ]

unfoldable pub compute_single_vsp :
    Table Block → BlockHash → FinalityEngine → Fallible VirtualSelectedParent × FinalityEngine
compute_single_vsp store h engine = elim (get_block_parents store h) [
  | none ↦ (failure (FinalityError.parents_missing h), engine)
  | some parents ↦ elim parents [
    | [] ↦ (done (record { block_hash = h; height = 0; score = 0; blue_score = 0 }), engine)
    | p ∷ ps ↦
        let (result, engine') = best_blue store (p ∷ ps) (none, 0) engine in
        elim result [
          | failure e ↦ (failure e, engine')
          | endless ↦ (endless, engine')
          | done best ↦ (vsp_of store p best engine', engine')
        ]
  ]
]

-- `compute_virtual_selected_parents` over the hashes of all blocks.
unfoldable pub compute_vsps :
    Table Block
    → List BlockHash
    → Table VirtualSelectedParent
    → FinalityEngine
    → Fallible (Table VirtualSelectedParent) × FinalityEngine
compute_vsps store [] vsps engine = (done vsps, engine)
compute_vsps store (h ∷ hs) vsps engine =
    let (result, engine') = compute_single_vsp store h engine in
    elim result [
      | failure e ↦ (failure e, engine')
      | endless ↦ (endless, engine')
      | done vsp ↦ compute_vsps store hs (insert h vsp vsps) engine'
    ]

-- `scores.values().max()`, or 0.
unfoldable pub head_score : Table ℕ → ℕ
head_score [] = 0
head_score ((h, s) ∷ m) = max s (head_score m)

unfoldable pub calculate_finality_threshold : Floats → ℕ → ℕ → ℕ
calculate_finality_threshold fl k head =
    let threshold = saturating_sub head k in
    let safety_margin = fl.to_u64 (fl.mul (fl.from_u64 head) (fl.fraction 1 10)) in
    saturating_sub threshold safety_margin

-- The loop of `calculate_score_based_finality`.
unfoldable pub mark_finalized :
    ℕ → Table ℕ → Table ℕ → Table (List BlockHash) → Table (List BlockHash)
mark_finalized threshold heights [] finalized = finalized
mark_finalized threshold heights ((h, s) ∷ scores) finalized =
    let height = unwrap_or (get h heights) 0 in
    mark_finalized threshold heights scores (
      if leb s threshold
      then insert height (set_insert h (unwrap_or (get height finalized) [])) finalized
      else finalized)

unfoldable pub calculate_score_based_finality : Floats → FinalityEngine → FinalityEngine
calculate_score_based_finality fl engine =
    let threshold = calculate_finality_threshold fl engine.k (head_score engine.block_scores) in
    record engine {
      finalized_blocks = mark_finalized threshold engine.block_heights engine.block_scores [];
    }

unfoldable pub is_finalized : BlockHash → FinalityEngine → Bool
is_finalized h engine = any (λ blocks. contains blocks h) (values engine.finalized_blocks)

unfoldable pub get_finalized_at_height : ℕ → FinalityEngine → Option (List BlockHash)
get_finalized_at_height height engine = get height engine.finalized_blocks

unfoldable pub get_virtual_selected_parent :
    BlockHash → FinalityEngine → Option VirtualSelectedParent
get_virtual_selected_parent h engine = get h engine.vsp_cache

-- `compute_finality` after the order has been computed.
unfoldable pub finalize_order :
    Floats → Table Block → List BlockHash → FinalityEngine → Fallible Unit × FinalityEngine
finalize_order fl store [] engine = (failure FinalityError.empty_ordering, engine)
finalize_order fl store (h ∷ hs) engine = elim (scan_ordering store (h ∷ hs) 0 [] []) [
  | failure e ↦ (failure e, engine)
  | endless ↦ (endless, engine)
  | done tables ↦
      let scanned = record engine { block_heights = tables.0; block_scores = tables.1 } in
      let (result, engine') = compute_vsps store (sort_keys (keys store)) [] scanned in
      elim result [
        | failure e ↦ (failure e, engine')
        | endless ↦ (endless, engine')
        | done vsps ↦
            (done tt, calculate_score_based_finality fl (record engine' { vsp_cache = vsps }))
      ]
]

unfoldable pub compute_finality :
    Floats → BlockDag → FinalityEngine → Fallible Unit × FinalityEngine
compute_finality fl dag engine = elim (get_topological_order dag.store dag.index) [
  | none ↦ (endless, engine)
  | some order ↦ finalize_order fl dag.store order engine
]

-- `compute_reachability`; `none` for a hash that has no height or no score.
unfoldable pub compute_reachability : FinalityEngine → BlockHash → BlockHash → Option Bool
compute_reachability engine from to = do
  from_height ← get from engine.block_heights
  to_height ← get to engine.block_heights
  from_score ← get from engine.block_scores
  to_score ← get to engine.block_scores
  some (leb from_height to_height && leb from_score to_score)

-- `reset`
unfoldable pub reset : FinalityEngine → FinalityEngine
reset engine = record engine {
  vsp_cache = [];
  finalized_blocks = [];
  block_heights = [];
  block_scores = [];
  blue_scores = [];
}
