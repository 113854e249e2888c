-- ===== src/Dag/Order/Complete.antt =====
-- The topological order lists every block, and parents before their children.
use cytah_speed.Prelude.{
  ℕ, zero, suc, ◌<◌, ◌≡◌, refl, sym, ap, subst, ◌∙◌, true, some, List, [], ◌∷◌, arith, contains,
  length, Table, get, contains_key, keys, IsKeyed, Option-cases, inl, inr,
}
use mathlib.Core.List.{append-nil}
use cytah_speed.Core.Block.{BlockHash, Block}
use cytah_speed.Core.Block.Validity.{IsDistinct}
use cytah_speed.Dag.Worklist.Found.{missing, missing-le}
use cytah_speed.Dag.Index.{DagIndex, parents_of}
use cytah_speed.Dag.Index.Updates.{parents_of_stored}
use cytah_speed.Dag.Engine.Parents.{IsLinked}
use cytah_speed.Dag.Order.{get_topological_order, sorted_blocks, in_degrees, parentless}
use cytah_speed.Dag.Order.Waiting.{IsOrdered, missing_zero}
use cytah_speed.Dag.Order.Start.{Inv-start}
use cytah_speed.Dag.Order.Loop.{IsCounted, Inv, order_loop_returns}

pub length-keys : (store : Table Block) → length (keys store) ≡ length store
length-keys [] = refl
length-keys ((k, b) ∷ m) = ap suc (length-keys m)

-- A list of exactly the stored blocks, each once, parents before their children.
pub record IsTopological (store : Table Block) (order : List BlockHash) : Type 0 where
  pub distinct : IsDistinct order
  pub complete : (h : BlockHash) → contains order h ≡ contains_key h store
  pub ordered : IsOrdered store order

module _ (store : Table Block) (linked : IsLinked store) where
  -- When the queue is empty, every block below a height is in the order.
  below :
      (degree : Table ℕ) (order : List BlockHash)
      → Inv store [] degree [] order
      → (n : ℕ) (h : BlockHash) (b : Block) → get h store ≡ some b
      → b.height < n
      → contains order h ≡ true
  below degree order inv zero h b found low = absurd (omega arith)
  below degree order inv (suc n) h b found low =
      let at_h = linked h b found in
      let settled : missing (parents_of store h) order ≡ 0 =
        missing_zero (parents_of store h) order λ p named.
          let (q, stored, lower) = at_h.parents p (
            sym (ap (λ (l : List BlockHash). contains l p) (parents_of_stored store h b found))
            ∙ named) in
          below degree order inv n p q stored (omega arith) in
      ground (arith, inv.ready h, found, settled)

  -- If the graph is linked, no hash is stored twice, and a block is listed among the children of
  -- a hash exactly as often as it names that hash as a parent, then `get_topological_order`
  -- returns: its fuel of one round for each block is enough. The result lists every stored
  -- block once, parents in front of their children.
  pub get_topological_order-IsTopological :
      (index : DagIndex)
      → IsKeyed store
      → IsCounted store index.parent_to_children
      → (order : List BlockHash) × (get_topological_order store index ≡ some order)
        × IsTopological store order
  unfolding get_topological_order
  get_topological_order-IsTopological index keyed counted =
      let blocks = sorted_blocks store in
      let (order, degree, returned, inv) =
        order_loop_returns store index.parent_to_children counted (length store)
          (in_degrees blocks []) (parentless blocks) [] (Inv-start store linked keyed)
          (omega (arith, missing-le (keys store), length-keys store)) in
      (
        order,
        returned,
        record {
          distinct = subst IsDistinct (append-nil order) inv.distinct;
          complete = λ h. elim (Option-cases (get h store)) [
            | inl absent ↦ ground (arith, absent, inv.stored h)
            | inr (b, found) ↦
                ground (arith, found, below degree order inv (suc b.height) h b found (omega arith))
          ];
          ordered = inv.ordered;
        },
      )
