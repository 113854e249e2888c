-- ===== src/Core/Block/Validity.antt =====
-- What a block that passes `validate_basic` satisfies, and what its hash determines.
use cytah_speed.Prelude.{
  ℕ, zero, suc, ◌+◌, ◌*◌, ◌/◌, ◌%◌, ◌≤◌, ◌<◌, ◌^◌, ◌≡◌, refl, ap, ◌∙◌, true, false, List, [], ◌∷◌,
  ◌++◌, map, length, contains, arith, All, be_bytes, length-be_bytes, length-append, length-map,
}
use mathlib.Core.List.{append_assoc, append-nil}
use native.Mathlib.Nat.{pow-suc}
use cytah_speed.Core.Transaction.{Hash, Bytes, Transaction, tx_hash}
use cytah_speed.Core.Block.{
  Block, BlockResult, Node, concat_hashes, metadata_bytes, calculate_hash, to_set, validate_basic,
}
use cytah_speed.Consensus.Pow.{meets_difficulty}
use cytah_speed.Consensus.Pow.Target.{be_value, IsByte, meets_difficulty_iff}
use cytah_speed.Consensus.Reward.{calculate_reward}

-- No element occurs twice.
abbrev pub IsDistinct : List ℕ → Type 0
IsDistinct [] = Unit
IsDistinct (x ∷ xs) = (contains xs x ≡ false) × IsDistinct xs

length-to_set : (xs : List ℕ) → length (to_set xs) ≤ length xs
unfolding to_set
length-to_set [] = omega arith
length-to_set (x ∷ xs) = ground (arith, length-to_set xs)

to_set-IsDistinct : (xs : List ℕ) → length (to_set xs) ≡ length xs → IsDistinct xs
unfolding to_set
to_set-IsDistinct [] h = tt
to_set-IsDistinct (x ∷ xs) h = ground (arith, length-to_set xs, to_set-IsDistinct xs)

IsByte-append : (xs ys : List ℕ) → All IsByte xs → All IsByte ys → All IsByte (xs ++ ys)
IsByte-append [] ys hx hy = hy
IsByte-append (x ∷ xs) ys hx hy = (hx.0, IsByte-append xs ys hx.1 hy)

be_bytes-IsByte : (n x : ℕ) → All IsByte (be_bytes n x)
unfolding be_bytes
be_bytes-IsByte zero x = tt
be_bytes-IsByte (suc n) x =
    IsByte-append (be_bytes n (x / 256)) ((x % 256) ∷ []) (be_bytes-IsByte n (x / 256))
      (omega arith, tt)

be_value-append_byte : (xs : List ℕ) (b : ℕ) → be_value (xs ++ b ∷ []) ≡ be_value xs * 256 + b
unfolding be_value
be_value-append_byte [] b = omega arith
be_value-append_byte (c ∷ xs) b =
    let e : length (xs ++ b ∷ []) ≡ suc (length xs) = omega (arith, length-append xs (b ∷ [])) in
    rw (e, pow-suc 256 (length xs)) (omega (arith, be_value-append_byte xs b))

be_value-be_bytes : (n x : ℕ) → x < 256 ^ n → be_value (be_bytes n x) ≡ x
unfolding be_bytes be_value
be_value-be_bytes zero x h = omega arith
be_value-be_bytes (suc n) x h =
    let high : x / 256 < 256 ^ n = omega (arith, pow-suc 256 n) in
    be_value-append_byte (be_bytes n (x / 256)) (x % 256)
    ∙ omega (arith, be_value-be_bytes n (x / 256) high)

concat_hashes-append :
    (xs ys : List Hash) → concat_hashes (xs ++ ys) ≡ concat_hashes xs ++ concat_hashes ys
unfolding concat_hashes
concat_hashes-append [] ys = refl
concat_hashes-append (x ∷ xs) ys = simp (concat_hashes-append xs ys, append_assoc)

boundary_bytes :
    (ps : List Hash) (h : Hash) (hs : List Hash) (m : Bytes)
    → concat_hashes (ps ++ h ∷ []) ++ (concat_hashes hs ++ m)
      ≡ concat_hashes ps ++ (concat_hashes (h ∷ hs) ++ m)
unfolding concat_hashes
boundary_bytes ps h hs m = simp (concat_hashes-append, append_assoc, append-nil)

module _ (nd : Node) where
  -- What `validate_basic` promises of a block.
  pub record IsWellFormed (b : Block) : Type 0 where
    pub hashed : b.hash ≡ calculate_hash nd.crypto b
    pub worked : b.header.difficulty ≤ 256 → b.hash * 2 ^ b.header.difficulty < 256 ^ 32
    pub rewarded : b.reward ≡ calculate_reward nd.floats (length b.transactions)
    pub distinct : IsDistinct (map (tx_hash nd.crypto) b.transactions)
    pub timely : b.header.timestamp ≤ nd.now + 3600

  -- Difficulty 0 is treated as no work, and then the bound on the hash holds by its width.
  work_bound :
      (hash difficulty : ℕ)
      → hash < 256 ^ 32
      → (1 ≤ difficulty → meets_difficulty (be_bytes 32 hash) difficulty ≡ true)
      → difficulty ≤ 256
      → hash * 2 ^ difficulty < 256 ^ 32
  work_bound hash zero fits met le = omega arith
  work_bound hash (suc d) fits met le =
      let wide = length-be_bytes 32 hash in
      let bound =
        (meets_difficulty_iff (be_bytes 32 hash) (suc d) (be_bytes-IsByte 32 hash)
            (omega (arith, wide))).0
          (met (omega arith)) in
      rw (wide, be_value-be_bytes 32 hash fits) at bound

  -- A block whose hash fits 32 bytes and that passes `validate_basic` carries its own digest,
  -- for a difficulty of at most 256 that many leading zero bits, the reward for its number of
  -- transactions, no transaction twice (by hash), and a timestamp at most an hour ahead.
  pub validate_basic-IsWellFormed :
      (b : Block) → b.hash < 256 ^ 32 → validate_basic nd b ≡ BlockResult.ok → IsWellFormed b
  unfolding validate_basic
  validate_basic-IsWellFormed b fits h = record {
    hashed = ground arith;
    worked = work_bound b.hash b.header.difficulty fits (λ p. ground arith);
    rewarded = ground arith;
    distinct =
        to_set-IsDistinct hashes (ground (arith, length-map (tx_hash nd.crypto) b.transactions));
    timely = ground arith;
  }
    where
      hashes : List Hash
      hashes = map (tx_hash nd.crypto) b.transactions

  -- The digest does not separate parents from transactions: a block whose last parent is the
  -- hash of some transaction has the same hash as the block that drops this parent and has that
  -- transaction in front.
  pub calculate_hash_boundary :
      (b : Block) (parents : List Hash) (tx : Transaction) (txs : List Transaction)
      → calculate_hash nd.crypto (record b {
        header = record b.header { parent_hashes = parents ++ tx_hash nd.crypto tx ∷ [] };
        transactions = txs;
      })
        ≡ calculate_hash nd.crypto (record b {
          header = record b.header { parent_hashes = parents };
          transactions = tx ∷ txs;
        })
  unfolding calculate_hash metadata_bytes
  calculate_hash_boundary b parents tx txs =
      ap nd.crypto.sha256
        (boundary_bytes parents (tx_hash nd.crypto tx) (map (tx_hash nd.crypto) txs) _)
