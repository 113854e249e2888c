-- ===== src/Core/Tests.antt =====
-- The theorems on transactions and blocks, at concrete inputs.
use cytah_speed.Consensus.Reward.{
  calculate_reward, calculate_base_reward, calculate_activity_multiplier,
}
use cytah_speed.Prelude.{ℕ, ◌<◌, ◌≡◌, refl, ◌^◌, List, [], ◌∷◌, arith, be_bytes, le_bytes}
use cytah_speed.Samples.{checksum, sample_crypto, sample_node, payment, sample_block}
use cytah_speed.Core.Transaction.{Bytes, Transaction, CryptoAlgorithm, hash_input, tx_hash}
use cytah_speed.Core.Transaction.Preimage.{Fits, SamePayload, hash_input-commits}
use cytah_speed.Core.Block.{
  Block, BlockResult, new_block, validate_basic, block_bytes, calculate_hash, metadata_bytes,
  to_set,
}
use cytah_speed.Core.Block.Validity.{IsWellFormed, validate_basic-IsWellFormed}

checksum-lt : (bs : Bytes) → checksum bs < 256 ^ 32
checksum-lt [] = omega arith
checksum-lt (b ∷ bs) = omega arith

abbrev signed : Transaction
signed = record payment {
  signature = record { algorithm = CryptoAlgorithm.secp256k1; bytes = 5 ∷ [] };
}

payment-Fits : Fits payment
payment-Fits = record {
  from = omega arith;
  payload = (omega arith, omega arith);
  nonce = omega arith;
  gas_limit = omega arith;
  gas_price = omega arith;
}

signed-Fits : Fits signed
signed-Fits = record {
  from = omega arith;
  payload = (omega arith, omega arith);
  nonce = omega arith;
  gas_limit = omega arith;
  gas_price = omega arith;
}

same_input : hash_input sample_crypto payment ≡ hash_input sample_crypto signed
unfolding hash_input
same_input = refl

hash_input-commits_example :
    (payment.from ≡ signed.from)
    × (payment.nonce ≡ signed.nonce)
    × (payment.gas_limit ≡ signed.gas_limit)
    × (payment.gas_price ≡ signed.gas_price)
    × SamePayload sample_crypto payment.payload signed.payload
hash_input-commits_example =
    hash_input-commits sample_crypto checksum-lt payment signed payment-Fits signed-Fits same_input

abbrev produced : Block
produced = new_block sample_node (9 ∷ []) 900 (payment ∷ []) 0 0 1 1 5

produced_hash : produced.hash < 256 ^ 32
unfolding new_block calculate_hash block_bytes
produced_hash = checksum-lt (block_bytes sample_crypto produced)

produced_valid : validate_basic sample_node produced ≡ BlockResult.ok
unfolding validate_basic new_block calculate_hash be_bytes tx_hash le_bytes metadata_bytes
    calculate_reward calculate_base_reward calculate_activity_multiplier to_set
produced_valid = refl

validate_basic-IsWellFormed_example : IsWellFormed sample_node produced
validate_basic-IsWellFormed_example =
    validate_basic-IsWellFormed sample_node produced produced_hash produced_valid

abbrev moved_block : List ℕ → List Transaction → Block
moved_block parents txs =
    let b = sample_block 3 1 [] in
    record b { header = record b.header { parent_hashes = parents }; transactions = txs }
