-- ===== src/State/Tree.antt =====
-- The account tree (src/state/state_tree.rs). A `HashMap` iterates in an order of its own: the
-- runtime's `order` is that order, as a function of the table.
pub mod Merkle
pub mod Sums
use cytah_speed.Prelude.{
  ℕ, zero, suc, Option, none, some, List, [], ◌∷◌, ◌++◌, map, length, le_bytes, be_bytes, Table,
  get, insert,
}
use cytah_speed.Core.Transaction.{Address, Hash, Bytes, Crypto}

pub record Account : Type 0 where
  pub balance : ℕ
  pub nonce : ℕ

pub record Runtime : Type 0 where
  pub crypto : Crypto
  pub order : Table Account → Table Account

-- `MerkleNode`, with a constructor for each of the two ways to make one: `new_leaf` fills the
-- key and the value, `new_internal` the children.
pub data MerkleNode : Type 0 where
  leaf : (hash : Hash) (key : Address) (value : Account) → MerkleNode
  internal : (hash : Hash) (left right : MerkleNode) → MerkleNode

-- The field `hash`.
abbrev pub node_hash : MerkleNode → Hash
node_hash (MerkleNode.leaf hash key value) = hash
node_hash (MerkleNode.internal hash left right) = hash

pub record SparseMerkleTree : Type 0 where
  pub root : Option MerkleNode
  pub leaves : Table Account

-- `SparseMerkleTree::new`
abbrev pub empty_tree : SparseMerkleTree
empty_tree = record { root = none; leaves = [] }

-- `calculate_root`: the root's hash, and 32 zero bytes for an empty tree.
unfoldable pub calculate_root : SparseMerkleTree → Hash
calculate_root t = elim t.root [ none ↦ 0 | some n ↦ node_hash n ]

-- `get_account`
unfoldable pub get_account : Address → SparseMerkleTree → Option Account
get_account a t = get a t.leaves

module _ (rt : Runtime) where
  -- `Account::hash`
  unfoldable pub account_hash : Account → Hash
  account_hash a = rt.crypto.sha256 (le_bytes 8 a.balance ++ le_bytes 8 a.nonce)

  unfoldable pub leaf_hash : Address → Account → Hash
  unfolding account_hash
  leaf_hash k v = rt.crypto.sha256 (be_bytes 20 k ++ be_bytes 32 (account_hash v))

  unfoldable pub internal_hash : Hash → Hash → Hash
  internal_hash l r = rt.crypto.sha256 (be_bytes 32 l ++ be_bytes 32 r)

  unfoldable pub new_leaf : Address × Account → MerkleNode
  new_leaf (k, v) = MerkleNode.leaf (leaf_hash k v) k v

  unfoldable pub new_internal : MerkleNode → MerkleNode → MerkleNode
  new_internal l r = MerkleNode.internal (internal_hash (node_hash l) (node_hash r)) l r

  -- The body of the `while` loop: the pass over `nodes.chunks(2)`.
  unfoldable pub merge_chunks : List MerkleNode → List MerkleNode
  unfolding new_internal
  merge_chunks [] = []
  merge_chunks (a ∷ []) = a ∷ []
  merge_chunks (a ∷ b ∷ rest) = new_internal a b ∷ merge_chunks rest

  -- `while nodes.len() > 1`, with a round of fuel for each node.
  unfoldable pub merge_levels : ℕ → List MerkleNode → List MerkleNode
  unfolding merge_chunks
  merge_levels zero nodes = nodes
  merge_levels (suc fuel) [] = []
  merge_levels (suc fuel) (a ∷ []) = a ∷ []
  merge_levels (suc fuel) (a ∷ b ∷ rest) = merge_levels fuel (merge_chunks (a ∷ b ∷ rest))

  -- `into_iter().next()`
  abbrev pub next : List MerkleNode → Option MerkleNode
  next [] = none
  next (n ∷ ns) = some n

  -- `rebuild_tree`
  unfoldable pub rebuild_tree : Table Account → Option MerkleNode
  unfolding merge_levels new_leaf
  rebuild_tree leaves =
      let nodes = map new_leaf (rt.order leaves) in next (merge_levels (length nodes) nodes)

  -- `update_account`
  unfoldable pub update_account : Address → Account → SparseMerkleTree → SparseMerkleTree
  update_account a v t =
      let leaves = insert a v t.leaves in record { root = rebuild_tree leaves; leaves = leaves }
