-- ===== src/Security/Tests.antt =====
-- The theorems on the protection against abuse, at concrete inputs.
use cytah_speed.Prelude.{replicate, All, map, ◌↔◌, ◌≡◌, refl, none, some, List, [], ◌∷◌, arith, get}
use cytah_speed.Samples.{sample_crypto, payment}
use cytah_speed.Core.Transaction.{Transaction, CryptoAlgorithm, tx_hash}
use cytah_speed.Core.Block.Validity.{IsDistinct}
use cytah_speed.Dag.Index.{set_insert}
use cytah_speed.Security.PreValidation.{
  TransactionPreValidator, new_validator, validate_block_transactions, check_transactions, report,
  pre_validate_transaction, push_error, validate_format, validate_signature, validate_gas,
  validate_addresses, check_duplicate,
}
use cytah_speed.Security.PreValidation.Accepted.{validate_block_transactions_iff}
use cytah_speed.Security.Dos.{PeerState, DosProtection, default_config}
use cytah_speed.Security.Dos.Limits.{AllWithin, DosEvent, handle_all, handle_all-AllWithin}

abbrev busy : PeerState
busy = record {
  connections = 10;
  request_times = 5 ∷ 9 ∷ [];
  bytes_sent = 100;
  bytes_received = 20;
  last_activity = 9;
  banned_until = none;
  violations = 2;
}

abbrev outlaw : PeerState
outlaw = record busy { connections = 3; banned_until = some 7_000_000_000; violations = 3 }

abbrev guarded : DosProtection
guarded = record {
  config = default_config;
  peer_states = (8, busy) ∷ (9, outlaw) ∷ [];
  stats = record {
    tracked_ips = 2;
    total_violations = 5;
    bans_issued = 1;
    blocked_connections = 0;
    blocked_requests = 0;
  };
}

abbrev traffic : List DosEvent
traffic =
    DosEvent.connection 20 21 8
    ∷ DosEvent.request 30 31 9
    ∷ DosEvent.closed 8
    ∷ DosEvent.bandwidth 40 41 8 500 20_000_000
    ∷ DosEvent.tick 900_000_000_000
    ∷ DosEvent.unban 9
    ∷ []

handle_all-AllWithin_example :
    AllWithin guarded.config (handle_all traffic guarded).peer_states
    × ((handle_all traffic guarded).config ≡ guarded.config)
handle_all-AllWithin_example =
    handle_all-AllWithin traffic guarded (omega arith)
      ((omega arith, omega arith), ((omega arith, omega arith), tt))

busy_found : get 8 guarded.peer_states ≡ some busy
unfolding get
busy_found = refl

outlaw_found : get 9 guarded.peer_states ≡ some outlaw
unfolding get
outlaw_found = refl

abbrev strict : TransactionPreValidator
strict = new_validator 8_000_000 1_000_000_000 131072

-- A transaction that passes.
abbrev signed : Transaction
signed = record payment {
  gas_limit = 21_000;
  gas_price = 1_000_000_000;
  signature = record { algorithm = CryptoAlgorithm.secp256k1; bytes = replicate 65 1 };
}

validate_block_transactions_iff_example :
    (validate_block_transactions sample_crypto 200 strict (signed ∷ []) ≡ []) ↔ (
      All (λ tx. pre_validate_transaction sample_crypto 200 strict tx ≡ []) (signed ∷ [])
      × IsDistinct (map (tx_hash sample_crypto) (signed ∷ [])))
validate_block_transactions_iff_example =
    validate_block_transactions_iff sample_crypto 200 strict (signed ∷ [])

signed_passes : validate_block_transactions sample_crypto 200 strict (signed ∷ []) ≡ []
unfolding validate_block_transactions check_transactions report pre_validate_transaction push_error
    validate_format validate_signature validate_gas validate_addresses check_duplicate new_validator
    set_insert
signed_passes = refl
