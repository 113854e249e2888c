-- ===== src/Lib.antt =====
-- Cytah-Speed, a proof-of-work block graph with accounts (a Rust program).
--
-- The program. A node collects signed transactions, mines them into blocks, and stores the blocks
-- in a directed acyclic graph, whose blocks name several parents. Transactions change a table of
-- accounts, whose root a Merkle tree commits to. Peers come and go under a reputation and a ban
-- list, and a guard in front of the node limits connections, requests and bandwidth.
--
-- The files, and the code that they model (paths from the root of the repository):
--   Core/Transaction    src/core/transaction.rs: `Transaction`, the digest's input, `validate_basic`
--   Core/Block          src/core/block.rs: `Block`, `calculate_hash`, `validate_basic`
--   Consensus/Pow       src/consensus/mining.rs: `meets_difficulty`
--   Consensus/Reward    src/consensus/mining.rs: the emission schedule
--   Consensus/Fees      src/consensus/fee_market.rs: `next_base_fee`
--   Consensus/Daa       src/consensus/daa.rs: `calculate_next_difficulty`, `next_difficulty`
--   State/Tree          src/state/state_tree.rs: `SparseMerkleTree`
--   State/Manager       src/state/state_manager.rs: `StateManager`
--   Execution/Access    src/execution/parallel_executor.rs: access sets, the graph of conflicts
--   Execution/Schedule  src/execution/parallel_executor.rs: the batches that run side by side
--   Execution/Run       src/execution/parallel_executor.rs: `execute_transaction`, one batch,
--                       `merge_overlay`; src/contracts: `write`, `register_contract`
--   Mempool/Pool        src/mempool/tx_dag_mempool.rs: `TxDagMempool`
--   Storage/BlockStore  src/storage/block_store.rs: `BlockStore` with its cache
--   Storage/Heights     src/storage/block_store.rs: ranges of heights, metadata, statistics
--   Storage/Rollback    src/storage/block_store.rs: `rollback_blocks`
--   Dag/Index           src/dag/dag_index.rs: tips, children, ancestors, descendants
--   Dag/Engine          src/dag/blockdag.rs: `BlockDAG::insert_block` and what it calls
--   Dag/Order           src/dag/dag_index.rs: `get_topological_order`
--   Dag/Queries         src/dag/dag_index.rs, src/dag/blockdag.rs: depth, LCA, timestamps
--   Dag/Integrity       src/dag/blockdag.rs: `validate`, and the graphs that insertions grow
--   Dag/Genesis         src/dag/blockdag.rs: `create_genesis_if_empty`
--   Ghostdag/Traversal  src/consensus/dag_traversal.rs: ancestors, anticones
--   Ghostdag/Path       src/consensus/dag_traversal.rs: `get_path`
--   Ghostdag/BlueSet    src/consensus/blue_set.rs: blue and red blocks
--   Ghostdag/Engine     src/consensus/ghostdag.rs: blue scores, parent selection
--   Ghostdag/Annotation src/consensus/ghostdag.rs: `annotate_block`
--   Ghostdag/Ordering   src/consensus/ghostdag.rs: `generate_ordering`, `validate_ordering`
--   Finality            src/finality/finality_engine.rs: `FinalityEngine::compute_finality`
--   Network/Peers       src/network/peer_manager.rs: `PeerManager`
--   Security/Dos        src/security/dos_protection.rs: `DosProtection`
--   Security/PreValidation
--                       src/security/pre_validation.rs: `TransactionPreValidator`
--   Prelude             names of the libraries, Boolean tests, lists, tables, machine words, bytes
--   Samples             the world in which the tests of every part run
-- The modules below these hold the lemmas and the theorems on them; each part's Tests hold the
-- theorems at concrete inputs. The parts meet where the code's do: blocks hold transactions; the
-- graph checks a block by `Block::validate_basic`, which checks proof of work and reward; the
-- state manager stands on the account tree, GHOSTDAG and finality read the graph and its order,
-- and the state manager's caps stand on the reward's constants; the schedule and the block store
-- go by the hashes of transactions and blocks. A rollback joins three parts: it deletes from the
-- store, submits to the pool, and rebuilds the state of the manager.
--
-- How the code becomes definitions. A struct is a record and an enum a data type, with the
-- source's names. A method on `&mut self` takes the state last and returns its result beside the
-- new state; a method that returns `Result` returns a result type of its own module. Locks are
-- left out, except where a method takes one twice. Addresses ([u8; 20]) and hashes ([u8; 32]) are
-- numbers, and byte strings are lists of numbers. A u64 or u32 is a number whose arithmetic is
-- written out as the code does it: saturating, wrapping, or cut off by a test before it. A
-- `HashMap` is a table, a list of keys and values; a column of the database is a table too.
--
-- Parameters stand for what the repository does not hold: SHA-256 and the recovery of a public
-- key (`Crypto`), floating-point numbers (`Floats`), the clock (an argument, or `Node.now`), the
-- runs of contracts (`Machine` and `WasmRuntime`, behind which stands wasmtime), whether RocksDB
-- accepts a write of blocks (a Boolean argument), the size of an encoded block and of a
-- transaction's struct, and the order in which a `HashMap` iterates (`Runtime.order`, `order`),
-- of which at most is assumed that it is a permutation of the entries. Reads of the database and
-- writes to the storage of contracts succeed: the branches for their errors are left out.
--
-- Fuel. The walk over the graph (Dag/Worklist) has as much fuel as there are entries in the lists
-- of parents or children, and one more: every step takes one entry off the stack, and every hash
-- is expanded at most once. The topological order and the rounds of `generate_ordering` have one
-- round for each stored block, the depth one more: each round lists a block, each level of the
-- depth is lower than the one before. On a graph with a cycle the loop of the depth does not end,
-- so that its fuel is enough for linked graphs only; what depends on the depth then has no result
-- (`none`, or `endless` in Finality). The traversals of GHOSTDAG and its search for a path have
-- the fuel of the walk, and a path that is traced back is no longer than the list of visited
-- blocks; the searches backwards of Dag/Queries have a round for each hash that they start from
-- and for each reference in the store, since a visited block queues its parents once. The search
-- for a free colour has one more step than there are forbidden colours. All other loops are by
-- recursion on a list.
--
-- Not modelled. Signing, key generation and the wallet; the virtual machine; RocksDB, libp2p and
-- the transport; RPC, the command line, events, the indexer and the SDKs. The tree and the caches
-- of the finality engine, the statistics of the graph and of GHOSTDAG, and pruning are not
-- modelled.
pub mod Prelude
pub mod Samples
pub mod Core
pub mod Consensus
pub mod State
pub mod Execution
pub mod Storage
pub mod Dag
pub mod Ghostdag
pub mod Finality
pub mod Mempool
pub mod Network
pub mod Security
