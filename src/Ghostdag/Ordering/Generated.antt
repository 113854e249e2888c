-- ===== src/Ghostdag/Ordering/Generated.antt =====
-- The generated ordering lists every block, and parents before their children.
use cytah_speed.Prelude.{
  ℕ, ◌≡◌, refl, ap, sym, subst, none, some, List, [], ◌∷◌, arith, length, retain, unwrap_or, get,
  insert, Table, Option-cases, inl, inr,
}
use cytah_speed.Core.Block.{BlockHash}
use cytah_speed.Storage.BlockStore.{sort_keys}
use cytah_speed.Dag.Engine.{BlockDag}
use cytah_speed.Dag.Engine.Parents.{IsLinked}
use cytah_speed.Dag.Order.Counted.{IsOrderable}
use cytah_speed.Dag.Order.Complete.{IsTopological, get_topological_order-IsTopological}
use cytah_speed.Ghostdag.BlueSet.{get_all_blocks}
use cytah_speed.Ghostdag.Engine.{
  GhostdagEngine, Outcome, blue_score_of, calculate_blue_score_immutable,
}
use cytah_speed.Ghostdag.Ordering.{
  score_all, without_parents, insert_all, order_all, generate_ordering, validate_ordering,
}
use cytah_speed.Ghostdag.Ordering.Validation.{validate_ordering_iff}
use cytah_speed.Ghostdag.Ordering.Rounds.{insert_all_new}
use cytah_speed.Ghostdag.Ordering.Loop.{ordering_loop_returns, Inv-genesis}

immutable_total :
    (engine : GhostdagEngine) (dag : BlockDag) (h : BlockHash)
    → (score : ℕ) × (calculate_blue_score_immutable engine dag h ≡ Outcome.ok score)
unfolding calculate_blue_score_immutable
immutable_total engine dag h = elim (Option-cases (get h engine.blue_score_cache)) [
  | inl fresh ↦ (blue_score_of engine.k dag.store h, ground (arith, fresh))
  | inr (cached, found) ↦ (cached, ground (arith, found))
]

score_all_total :
    (engine : GhostdagEngine) (dag : BlockDag) (hs : List BlockHash) (scores : Table ℕ)
    → (scores' : Table ℕ) × (score_all engine dag hs scores ≡ Outcome.ok scores')
unfolding score_all
score_all_total engine dag [] scores = (scores, refl)
score_all_total engine dag (h ∷ hs) scores =
    let (score, e) = immutable_total engine dag h in
    let (scores', later) = score_all_total engine dag hs (insert h score scores) in
    (scores', ground (arith, e, later))

pub all_blocks-IsTopological :
    (dag : BlockDag)
    → IsLinked dag.store
    → IsOrderable dag
    → IsTopological dag.store (get_all_blocks dag)
unfolding get_all_blocks
all_blocks-IsTopological dag linked fit =
    let (order, returned, t) =
      get_topological_order-IsTopological dag.store linked dag.index fit.keyed fit.counted in
    subst (IsTopological dag.store) (ap (λ o. unwrap_or o []) (sym returned)) t

order_all-IsTopological :
    (engine : GhostdagEngine) (dag : BlockDag)
    → IsLinked dag.store
    → IsOrderable dag
    → (order : List BlockHash) × (order_all engine dag ≡ Outcome.ok (some order))
      × IsTopological dag.store order
unfolding order_all
order_all-IsTopological engine dag linked fit =
    let all_blocks = get_all_blocks dag in
    let sorted = all_blocks-IsTopological dag linked fit in
    let (scores, scored) = score_all_total engine dag all_blocks [] in
    let first = sort_keys (retain (without_parents dag.store) all_blocks) in
    let i = Inv-genesis dag.store scores all_blocks sorted in
    let (order, returned, t) =
      ordering_loop_returns dag.store scores all_blocks sorted (length all_blocks) first i
        (omega arith) in
    let begun : insert_all first [] ≡ first = insert_all_new first [] i.distinct in
    (order, ground (arith, scored, begun, returned), t)

-- If the attached graph is linked, no hash is stored twice and the table of children agrees with
-- the parents, then `generate_ordering` returns: its fuel of one round for each block is enough.
-- The ordering lists every stored block once, parents in front of their children, and
-- `validate_ordering` accepts it. The cached scores may be any.
pub generate_ordering-IsTopological :
    (engine : GhostdagEngine) (dag : BlockDag)
    → engine.dag ≡ some dag
    → IsLinked dag.store
    → IsOrderable dag
    → (order : List BlockHash) × (generate_ordering engine ≡ Outcome.ok (some order))
      × IsTopological dag.store order
      × (validate_ordering engine order ≡ none)
unfolding generate_ordering
generate_ordering-IsTopological engine dag attached linked fit =
    let (order, returned, t) = order_all-IsTopological engine dag linked fit in
    (
      order,
      ground (arith, attached, returned),
      t,
      (validate_ordering_iff engine dag order attached fit.keyed).1 t,
    )
