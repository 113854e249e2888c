-- ===== src/Ghostdag/Engine.antt =====
-- The GHOSTDAG engine: blue scores with their cache, parent selection, the order of the blocks
-- and its validation (src/consensus/ghostdag.rs).
pub mod Scores
pub mod Best
pub mod Selection
use cytah_speed.Prelude.{
  ℕ, zero, suc, ◌+◌, ◌%◌, ◌^◌, Bool, true, false, not, ◌&&◌, ◌||◌, Option, none, some, List, [],
  ◌∷◌, ◌++◌, ◌==◌, leb, ltb, max, if◌then◌else◌, unwrap_or, length, contains, contains_key, retain,
  all, Table, get, insert, saturating_add,
}
use cytah_speed.Core.Block.{BlockHash, Block, Node}
use cytah_speed.Storage.BlockStore.{sort_keys}
use cytah_speed.Dag.Index.{parents_of, set_insert}
use cytah_speed.Dag.Engine.{BlockDag}
use cytah_speed.Ghostdag.Traversal.{ancestors_of, get_anticone}
use cytah_speed.Ghostdag.BlueSet.{BlueSet, new_blue_set, get_all_blocks}

pub data GhostdagError : Type 0 where
  not_attached no_candidates no_parents : GhostdagError
  not_found duplicate : BlockHash → GhostdagError
  parent_missing parent_after_child : BlockHash → BlockHash → GhostdagError
  wrong_count : ℕ → ℕ → GhostdagError

pub data Outcome (A : Type 0) : Type 0 where
  ok : A → Outcome A
  err : GhostdagError → Outcome A

pub record GhostdagEngine : Type 0 where
  pub k : ℕ
  pub dag : Option BlockDag
  pub blue_score_cache : Table ℕ
  pub blue_set : BlueSet

-- `GHOSTDAGEngine::new`
unfoldable pub new_engine : ℕ → GhostdagEngine
new_engine k = record { k = k; dag = none; blue_score_cache = []; blue_set = new_blue_set k }

unfoldable pub clear_cache : GhostdagEngine → GhostdagEngine
clear_cache engine = record engine { blue_score_cache = [] }

unfoldable pub attach_dag : BlockDag → GhostdagEngine → GhostdagEngine
attach_dag dag engine = clear_cache (record engine { dag = some dag })

-- `blue_count += 1` for each block of a list with a small anticone.
unfoldable pub count_blue : ℕ → Table Block → BlockHash → List BlockHash → ℕ → ℕ
count_blue k store reference [] blue_count = blue_count
count_blue k store reference (h ∷ hs) blue_count = count_blue k store reference hs (
    if leb (length (get_anticone store h reference)) k
    then (blue_count + 1) % 2 ^ 64
    else blue_count)

-- The block itself, then its ancestors.
unfoldable pub blue_score_of : ℕ → Table Block → BlockHash → ℕ
blue_score_of k store h =
    count_blue k store h (ancestors_of store h) (count_blue k store h (h ∷ []) 0)

unfoldable pub calculate_blue_score_immutable : GhostdagEngine → BlockDag → BlockHash → Outcome ℕ
calculate_blue_score_immutable engine dag h = elim (get h engine.blue_score_cache) [
  | some cached ↦ Outcome.ok cached
  | none ↦ Outcome.ok (blue_score_of engine.k dag.store h)
]

unfoldable pub calculate_blue_score : BlockHash → GhostdagEngine → Outcome ℕ × GhostdagEngine
calculate_blue_score h engine = elim engine.dag [
  | none ↦ (Outcome.err GhostdagError.not_attached, engine)
  | some dag ↦ elim (get h engine.blue_score_cache) [
    | some cached ↦ (Outcome.ok cached, engine)
    | none ↦
        let score = blue_score_of engine.k dag.store h in
        (
          Outcome.ok score,
          record engine { blue_score_cache = insert h score engine.blue_score_cache },
        )
  ]
]

unfoldable pub get_blue_score : BlockHash → GhostdagEngine → Outcome ℕ × GhostdagEngine
get_blue_score h engine = elim (get h engine.blue_score_cache) [
  | some cached ↦ (Outcome.ok cached, engine)
  | none ↦ calculate_blue_score h engine
]

-- `unwrap_or(0)`
unfoldable pub score_or_zero : Outcome ℕ → ℕ
score_or_zero (Outcome.ok score) = score
score_or_zero (Outcome.err e) = 0

-- The loop of `select_parent_from_parents` over the candidates after the first.
unfoldable pub improve_parent :
    List BlockHash → BlockHash × ℕ → GhostdagEngine → BlockHash × GhostdagEngine
improve_parent [] (best_parent, best_score) engine = (best_parent, engine)
improve_parent (p ∷ ps) (best_parent, best_score) engine =
    let (result, engine') = get_blue_score p engine in
    let score = score_or_zero result in
    improve_parent ps
      (if ltb best_score score || (score == best_score && ltb p best_parent)
        then (p, score)
        else (best_parent, best_score))
      engine'

unfoldable pub select_parent_from_parents :
    List BlockHash → GhostdagEngine → Outcome BlockHash × GhostdagEngine
select_parent_from_parents [] engine = (Outcome.err GhostdagError.no_candidates, engine)
select_parent_from_parents (p ∷ ps) engine =
    let (result, engine') = get_blue_score p engine in
    let (best, engine'') = improve_parent ps (p, score_or_zero result) engine' in
    (Outcome.ok best, engine'')

unfoldable pub max_score : List BlockHash → ℕ → GhostdagEngine → ℕ × GhostdagEngine
max_score [] best engine = (best, engine)
max_score (p ∷ ps) best engine =
    let (result, engine') = get_blue_score p engine in
    max_score ps (max best (score_or_zero result)) engine'

unfoldable pub calculate_blue_score_for_new_block : Block → GhostdagEngine → ℕ × GhostdagEngine
calculate_blue_score_for_new_block b engine =
    let (best, engine') = max_score b.header.parent_hashes 0 engine in
    (saturating_add best 1, engine')

-- The insertion of a scored block in front of the first that it comes before: score downwards,
-- then hash upwards.
unfoldable pub insert_scored : BlockHash × ℕ → List (BlockHash × ℕ) → List (BlockHash × ℕ)
insert_scored x [] = x ∷ []
insert_scored x (y ∷ ys) =
    let rest = insert_scored x ys in
    if ltb y.1 x.1 || (y.1 == x.1 && leb x.0 y.0) then x ∷ y ∷ ys else y ∷ rest

unfoldable pub sort_scored : List (BlockHash × ℕ) → List (BlockHash × ℕ)
sort_scored [] = []
sort_scored (x ∷ xs) = insert_scored x (sort_scored xs)

-- The scores of the parents; the first failure ends the loop.
unfoldable pub score_parents :
    List BlockHash
    → List (BlockHash × ℕ)
    → GhostdagEngine
    → Outcome (List (BlockHash × ℕ)) × GhostdagEngine
score_parents [] scores engine = (Outcome.ok scores, engine)
score_parents (p ∷ ps) scores engine =
    let (result, engine') = calculate_blue_score p engine in
    elim result [
      | ok score ↦ score_parents ps (scores ++ (p, score) ∷ []) engine'
      | err e ↦ (Outcome.err e, engine')
    ]

-- `parent_scores[0].0`: the list is not empty here.
unfoldable pub first_hash : List (BlockHash × ℕ) → Outcome BlockHash
first_hash [] = Outcome.err GhostdagError.no_parents
first_hash ((p, score) ∷ rest) = Outcome.ok p

unfoldable pub select_by_score :
    List BlockHash → GhostdagEngine → Outcome BlockHash × GhostdagEngine
select_by_score [] engine = (Outcome.err GhostdagError.no_parents, engine)
select_by_score (p ∷ []) engine = (Outcome.ok p, engine)
select_by_score (p ∷ q ∷ ps) engine =
    let (result, engine') = score_parents (p ∷ q ∷ ps) [] engine in
    elim result [
      | ok scores ↦ (first_hash (sort_scored scores), engine')
      | err e ↦ (Outcome.err e, engine')
    ]

unfoldable pub select_parent : BlockHash → GhostdagEngine → Outcome BlockHash × GhostdagEngine
select_parent h engine = elim engine.dag [
  | none ↦ (Outcome.err GhostdagError.not_attached, engine)
  | some dag ↦ select_by_score (parents_of dag.store h) engine
]
