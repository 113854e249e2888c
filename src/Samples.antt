-- ===== src/Samples.antt =====
-- A small world that the tests of the other modules run in: a checksum for the digest, whole
-- numbers for floating-point ones, and a map that iterates in the order of its list.
use cytah_speed.Prelude.{
  ℕ, ◌+◌, ◌*◌, ◌-◌, ◌/◌, ◌%◌, max, min, Option, some, List, [], ◌∷◌, ltb, Table,
}
use cytah_speed.Core.Transaction.{Bytes, Crypto, Transaction, TxPayload, CryptoAlgorithm}
use cytah_speed.Core.Block.{Node, Block, BlockHash}
use cytah_speed.Consensus.Reward.{Floats}
use cytah_speed.State.Tree.{Runtime, Account}

abbrev pub checksum : Bytes → ℕ
checksum [] = 7
checksum (b ∷ bs) = (b + 31 * checksum bs) % 1_000_003

abbrev pub sample_crypto : Crypto
sample_crypto = record { sha256 = checksum; recover = λ digest bytes. some 1 }

abbrev pub sample_floats : Floats
sample_floats = record {
  F64 = ℕ;
  fraction = λ a b. a / b;
  from_u64 = λ x. x;
  to_u64 = λ x. x;
  add = λ x y. x + y;
  sub = λ x y. x - y;
  mul = λ x y. x * y;
  div = λ x y. x / y;
  neg = λ x. x;
  exp = λ x. x + 1;
  round = λ x. x;
  max_f64 = max;
  min_f64 = min;
  lt_f64 = ltb;
}

abbrev pub sample_node : Node
sample_node = record { crypto = sample_crypto; floats = sample_floats; now = 1000 }

abbrev pub sample_runtime : Runtime
sample_runtime = record { crypto = sample_crypto; order = λ (m : Table Account). m }

-- Alice (address 1) pays Bob (address 2).
abbrev pub payment : Transaction
payment = record {
  from = 1;
  payload = TxPayload.transfer 2 300;
  nonce = 0;
  gas_limit = 10;
  gas_price = 2;
  signature = record { algorithm = CryptoAlgorithm.secp256k1; bytes = [] };
}

abbrev pub sample_block : BlockHash → ℕ → List BlockHash → Block
sample_block hash height parents = record {
  hash = hash;
  header = record {
    parent_hashes = parents;
    timestamp = 900;
    nonce = 0;
    difficulty = 0;
    base_fee = 1;
    state_root = 0;
    version = 1;
    blue_score = height;
    selected_parent = Option.none;
    chain_height = height;
    topo_index = 0;
  };
  transactions = [];
  producer = 1;
  reward = 0;
  height = height;
}
