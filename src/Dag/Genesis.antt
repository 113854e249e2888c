-- ===== src/Dag/Genesis.antt =====
-- The genesis block that a node makes for itself (`create_genesis_block` and
-- `create_genesis_if_empty` in src/dag/blockdag.rs).
use cytah_speed.Prelude.{
  ◌≡◌, refl, ap, subst, Bool, true, none, [], ◌∷◌, arith, ◌==◌, if◌then◌else◌, length, map, get,
  insert,
}
use cytah_speed.Core.Transaction.{Transaction, new_transfer, tx_hash}
use cytah_speed.Core.Block.{
  Block, Node, new_block, calculate_hash, block_bytes, validate_basic, set_consensus_metadata,
  to_set,
}
use cytah_speed.Consensus.Reward.{cts_genesis_allocation, calculate_reward}
use cytah_speed.Dag.Index.{new_index, update_tips_after_insert, set_insert, set_remove_all}
use cytah_speed.Dag.Engine.{
  BlockDag, DagResult, new_dag, block_error, or_else, check_parents, check_block, annotate,
  insert_block,
}
use cytah_speed.Dag.Integrity.{Validity, validate}
use cytah_speed.Dag.Integrity.Grown.{Grown}
use cytah_speed.Dag.Integrity.Verdict.{validate_grown}

abbrev pub genesis_tx : Transaction
genesis_tx = new_transfer 0 0 cts_genesis_allocation 0 0 0

module _ (nd : Node) where
  abbrev pub genesis_block : Block
  genesis_block = new_block nd [] nd.now (genesis_tx ∷ []) 0 0 0 0 0

  -- The block comes back as it was made; what the insertion says is dropped.
  unfoldable pub create_genesis_block : Bool → BlockDag → Block × BlockDag
  create_genesis_block written dag = (genesis_block, (insert_block nd written genesis_block dag).1)

  unfoldable pub create_genesis_if_empty : Bool → BlockDag → BlockDag
  unfolding create_genesis_block
  create_genesis_if_empty written dag =
      if length dag.store == 0 then (create_genesis_block written dag).1 else dag

  own_hash : genesis_block.hash ≡ calculate_hash nd.crypto genesis_block
  unfolding new_block calculate_hash block_bytes
  own_hash = refl

  own_reward : genesis_block.reward ≡ calculate_reward nd.floats (length genesis_block.transactions)
  unfolding new_block
  own_reward = refl

  own_header :
      (genesis_block.header.difficulty ≡ 0)
      × (genesis_block.header.timestamp ≡ nd.now)
      × (genesis_block.header.parent_hashes ≡ [])
  unfolding new_block
  own_header = (refl, refl, refl)

  one_transaction :
      length (to_set (map (tx_hash nd.crypto) genesis_block.transactions))
      ≡ length genesis_block.transactions
  unfolding new_block to_set
  one_transaction = refl

  genesis_passes : check_block nd [] genesis_block ≡ none
  unfolding check_block validate_basic block_error or_else check_parents get
  genesis_passes = ground (arith, own_hash, own_reward, own_header, one_transaction)

  -- The graph with that block alone.
  abbrev genesis_dag : BlockDag
  genesis_dag =
      let a = annotate nd [] genesis_block in
      record { store = (a.hash, a) ∷ []; index = update_tips_after_insert a new_index }

  genesis_inserted : insert_block nd true genesis_block new_dag ≡ (DagResult.ok, genesis_dag)
  unfolding new_dag insert insert_block annotate update_tips_after_insert
  genesis_inserted = rw (genesis_passes, insert_block) refl

  one_tip : length (to_set genesis_dag.index.tips) ≡ 1
  unfolding update_tips_after_insert new_index set_insert set_remove_all to_set annotate
      set_consensus_metadata new_block
  one_tip = refl

  genesis-Grown : Grown nd genesis_dag
  unfolding new_dag get
  genesis-Grown =
      subst (λ (r : DagResult × BlockDag). Grown nd r.1) genesis_inserted
        (Grown.inserted true genesis_block new_dag Grown.new (omega arith) refl)

  created : create_genesis_if_empty true new_dag ≡ genesis_dag
  unfolding create_genesis_if_empty new_dag
  created = ap (λ (r : DagResult × BlockDag). r.1) genesis_inserted

  -- On a new graph, when the database accepts the write: there is then one block, the check of
  -- the whole graph succeeds, and a second call changes nothing.
  pub create_genesis_if_empty_lem :
      let dag = create_genesis_if_empty true new_dag in
      (length dag.store ≡ 1)
      × (validate nd dag ≡ Validity.ok)
      × (create_genesis_if_empty true dag ≡ dag)
  unfolding create_genesis_if_empty
  create_genesis_if_empty_lem =
      rw created (refl, ground (arith, validate_grown nd genesis_dag genesis-Grown, one_tip), kept)
    where
      kept : create_genesis_if_empty true genesis_dag ≡ genesis_dag
      kept = refl
