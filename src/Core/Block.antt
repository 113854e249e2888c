-- ===== src/Core/Block.antt =====
-- Blocks (src/core/block.rs). The clock, the digest and floating-point numbers are parameters.
pub mod Validity
use cytah_speed.Prelude.{
  ℕ, zero, suc, ◌+◌, ◌*◌, Bool, true, false, not, ◌&&◌, Option, none, some, List, [], ◌∷◌, ◌++◌,
  map, ◌==◌, ltb, if◌then◌else◌, length, contains, le_bytes, be_bytes,
}
use cytah_speed.Core.Transaction.{Address, Hash, Bytes, Transaction, Crypto, tx_hash}
use cytah_speed.Consensus.Pow.{meets_difficulty}
use cytah_speed.Consensus.Reward.{Floats, calculate_reward}

abbrev pub BlockHash : Type 0
BlockHash = Hash

pub record BlockHeader : Type 0 where
  pub parent_hashes : List BlockHash
  pub timestamp : ℕ
  pub nonce : ℕ
  pub difficulty : ℕ
  pub base_fee : ℕ
  pub state_root : Hash
  pub version : ℕ
  pub blue_score : ℕ
  pub selected_parent : Option BlockHash
  pub chain_height : ℕ
  pub topo_index : ℕ

pub record Block : Type 0 where
  pub hash : BlockHash
  pub header : BlockHeader
  pub transactions : List Transaction
  pub producer : Address
  pub reward : ℕ
  pub height : ℕ

pub data BlockError : Type 0 where
  hash_mismatch low_work unexpected_reward duplicate_transactions far_future : BlockError

pub data BlockResult : Type 0 where
  ok : BlockResult
  err : BlockError → BlockResult

-- The 32-byte values, one behind the other.
unfoldable pub concat_hashes : List Hash → Bytes
concat_hashes [] = []
concat_hashes (h ∷ hs) = be_bytes 32 h ++ concat_hashes hs

-- A missing selected parent is written as 32 zero bytes.
abbrev pub selected_or_zero : Option BlockHash → Hash
selected_or_zero none = 0
selected_or_zero (some h) = h

-- What `calculate_hash` feeds to the digest behind the parents and the transactions.
unfoldable pub metadata_bytes : BlockHeader → Address → Bytes
metadata_bytes h producer =
    le_bytes 8 h.timestamp
    ++ (le_bytes 8 h.nonce
        ++ (le_bytes 4 h.difficulty
            ++ (le_bytes 8 h.base_fee
                ++ (be_bytes 32 h.state_root
                    ++ (le_bytes 4 h.version
                        ++ (le_bytes 8 h.blue_score
                            ++ (le_bytes 8 h.chain_height
                                ++ (le_bytes 8 h.topo_index
                                    ++ (be_bytes 32 (selected_or_zero h.selected_parent)
                                        ++ be_bytes 20 producer)))))))))

unfoldable pub block_bytes : Crypto → Block → Bytes
unfolding concat_hashes
block_bytes c b =
    concat_hashes b.header.parent_hashes
    ++ (concat_hashes (map (tx_hash c) b.transactions) ++ metadata_bytes b.header b.producer)

unfoldable pub calculate_hash : Crypto → Block → BlockHash
unfolding block_bytes
calculate_hash c b = c.sha256 (block_bytes c b)

-- Collecting into a `HashSet`.
unfoldable pub to_set : List ℕ → List ℕ
to_set [] = []
to_set (x ∷ xs) = let rest = to_set xs in if contains xs x then rest else x ∷ rest

-- What a node has around it: the digest, floating-point numbers, and the clock in seconds.
pub record Node : Type 1 where
  pub crypto : Crypto
  pub floats : Floats
  pub now : ℕ

module _ (nd : Node) where
  unfoldable pub new_block :
      List BlockHash → ℕ → List Transaction → ℕ → ℕ → ℕ → Address → Hash → Block
  new_block parent_hashes timestamp transactions nonce difficulty base_fee producer state_root =
      let header : BlockHeader = record {
        parent_hashes = parent_hashes;
        timestamp = timestamp;
        nonce = nonce;
        difficulty = difficulty;
        base_fee = base_fee;
        state_root = state_root;
        version = 1;
        blue_score = 0;
        selected_parent = none;
        chain_height = 0;
        topo_index = 0;
      } in
      let block : Block = record {
        hash = 0;
        header = header;
        transactions = transactions;
        producer = producer;
        reward = calculate_reward nd.floats (length transactions);
        height = 0;
      } in
      record block { hash = calculate_hash nd.crypto block }

  unfoldable pub validate_basic : Block → BlockResult
  validate_basic b =
      let tx_hashes = map (tx_hash nd.crypto) b.transactions in
      if not (b.hash == calculate_hash nd.crypto b)
      then BlockResult.err BlockError.hash_mismatch
      else if ltb 0 b.header.difficulty
          && not (meets_difficulty (be_bytes 32 b.hash) b.header.difficulty)
      then BlockResult.err BlockError.low_work
      else if not (b.reward == calculate_reward nd.floats (length b.transactions))
      then BlockResult.err BlockError.unexpected_reward
      else if not (length (to_set tx_hashes) == length b.transactions)
      then BlockResult.err BlockError.duplicate_transactions
      else if ltb (nd.now + 3600) b.header.timestamp
      then BlockResult.err BlockError.far_future
      else BlockResult.ok

  unfoldable pub set_consensus_metadata : Option BlockHash → ℕ → ℕ → ℕ → Block → Block
  set_consensus_metadata selected_parent blue_score chain_height topo_index b =
      let header = record b.header {
        selected_parent = selected_parent;
        blue_score = blue_score;
        chain_height = chain_height;
        topo_index = topo_index;
      } in
      let annotated = record b { header = header; height = chain_height } in
      record annotated { hash = calculate_hash nd.crypto annotated }

unfoldable pub is_genesis : Block → Bool
is_genesis b = elim b.header.parent_hashes [ [] ↦ true | _ ∷ _ ↦ false ]
