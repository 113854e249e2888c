-- ===== src/Execution/Access.antt =====
-- What a transaction may touch, and which transactions conflict (`analyze_access`,
-- `transactions_conflict` and `build_conflict_graph` in src/execution/parallel_executor.rs).
-- A `HashSet` is a list without repetition; a graph is a table from hashes to sets of hashes.
pub mod Graph
use cytah_speed.Prelude.{
  ℕ, ◌/◌, ◌^◌, Bool, true, false, not, ◌&&◌, ◌||◌, List, [], ◌∷◌, ◌++◌, map, ◌==◌, if◌then◌else◌,
  unwrap_or, any, all, Table, get, insert,
}
use cytah_speed.Core.Transaction.{Address, Hash, Bytes, TxPayload, Transaction, Crypto, tx_hash}
use cytah_speed.Dag.Index.{set_insert}

-- An empty key of contract storage stands for all of it.
pub data StateKey : Type 0 where
  account : (address : Address) → StateKey
  contract_storage : (address : Address) (key : Bytes) → StateKey
  contract_registry : (address : Address) → StateKey

pub record TxAccessSet : Type 0 where
  pub reads : List StateKey
  pub writes : List StateKey

abbrev pub same_bytes : Bytes → Bytes → Bool
same_bytes [] [] = true
same_bytes (x ∷ xs) (y ∷ ys) = x == y && same_bytes xs ys
same_bytes _ _ = false

-- The derived `PartialEq` of `StateKey`.
abbrev pub same_key : StateKey → StateKey → Bool
same_key (StateKey.account a) (StateKey.account b) = a == b
same_key (StateKey.contract_storage a k) (StateKey.contract_storage b l) = a == b && same_bytes k l
same_key (StateKey.contract_registry a) (StateKey.contract_registry b) = a == b
same_key _ _ = false

abbrev pub has_key : StateKey → List StateKey → Bool
has_key k keys = any (same_key k) keys

abbrev pub add_key : StateKey → List StateKey → List StateKey
add_key k keys = if has_key k keys then keys else keys ++ k ∷ []

-- The address of a contract: the first 20 of the 32 bytes of its code's digest.
abbrev pub deploy_address : Crypto → Bytes → Address
deploy_address c wasm_code = c.sha256 wasm_code / 256 ^ 12

-- The match of `analyze_access`, after the sender is entered into both sets.
unfoldable pub payload_access : Crypto → TxPayload → TxAccessSet → TxAccessSet
payload_access c (TxPayload.transfer to amount) s = record {
  reads = add_key (StateKey.account to) s.reads;
  writes = add_key (StateKey.account to) s.writes;
}
payload_access c (TxPayload.contract_deploy wasm_code init_args) s =
    let address = deploy_address c wasm_code in
    record s {
      writes = add_key (StateKey.contract_registry address) (
          add_key (StateKey.contract_storage address [])
            (add_key (StateKey.account address) s.writes));
    }
payload_access c (TxPayload.contract_call address method args) s = record {
  reads =
      add_key (StateKey.contract_registry address) (
        add_key (StateKey.contract_storage address [])
          (add_key (StateKey.account address) s.reads));
  writes =
      add_key (StateKey.contract_storage address []) (add_key (StateKey.account address) s.writes);
}

unfoldable pub analyze_access : Crypto → Transaction → TxAccessSet
unfolding payload_access
analyze_access c tx =
    payload_access c tx.payload
      (record { reads = StateKey.account tx.from ∷ []; writes = StateKey.account tx.from ∷ [] })

-- `HashSet::is_disjoint`
abbrev pub is_disjoint : List StateKey → List StateKey → Bool
is_disjoint xs ys = all (λ k. not (has_key k ys)) xs

unfoldable pub transactions_conflict : TxAccessSet → TxAccessSet → Bool
transactions_conflict a b =
    if not (is_disjoint a.writes b.writes)
    then true
    else if not (is_disjoint a.writes b.reads)
    then true
    else if not (is_disjoint a.reads b.writes)
    then true
    else false

-- A transaction as the graph sees it: its access set and its id.
abbrev pub TxNode : Type 0
TxNode = TxAccessSet × Hash

abbrev pub node_of : Crypto → Transaction → TxNode
node_of c tx = (analyze_access c tx, tx_hash c tx)

abbrev pub neighbors : Hash → Table (List Hash) → List Hash
neighbors h edges = unwrap_or (get h edges) []

-- `edges.entry(x).or_default().insert(y)`
unfoldable pub add_edge : Hash → Hash → Table (List Hash) → Table (List Hash)
add_edge x y edges = insert x (set_insert y (neighbors x edges)) edges

-- The loop over j, for one i.
unfoldable pub link_later : TxNode → List TxNode → Table (List Hash) → Table (List Hash)
unfolding add_edge
link_later a [] edges = edges
link_later a (b ∷ bs) edges =
    link_later a bs
      (if transactions_conflict a.0 b.0 then add_edge b.1 a.1 (add_edge a.1 b.1 edges) else edges)

-- The loop over i.
unfoldable pub link_all_pairs : List TxNode → Table (List Hash) → Table (List Hash)
unfolding link_later
link_all_pairs [] edges = edges
link_all_pairs (a ∷ later) edges = link_all_pairs later (link_later a later edges)

unfoldable pub build_conflict_graph : Crypto → List Transaction → Table (List Hash)
unfolding link_all_pairs
build_conflict_graph c txs = link_all_pairs (map (node_of c) txs) []
