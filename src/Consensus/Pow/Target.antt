-- ===== src/Consensus/Pow/Target.antt =====
-- The bit tests of `meets_difficulty` against the hash read as a number.
use cytah_speed.Prelude.{
  ℕ, zero, suc, ◌+◌, ◌-◌, ◌*◌, ◌/◌, ◌%◌, ◌^◌, ◌≤◌, ◌<◌, ◌≡◌, refl, ap, ◌↔◌, Bool, true, false, not,
  ◌&&◌, List, [], ◌∷◌, ◌==◌, ltb, length, All, arith, ==_iff, sym, ◌∙◌, if◌then◌else◌,
}
use Prim.Native.Nat.{bit_and}
use native.Mathlib.Nat.{pow-suc, mul-le-mul, le_refl}
use native.Mathlib.Decide.{dec_lt}
use native.Mathlib.Numerals.{towards_suc}
use cytah_speed.Consensus.Pow.{bit_mask, has_zero_bits, meets_difficulty}

-- The number that the bytes write, most significant byte first.
unfoldable pub be_value : List ℕ → ℕ
be_value [] = 0
be_value (b ∷ bs) = b * 256 ^ length bs + be_value bs

abbrev pub IsByte : ℕ → Type 0
IsByte b = b < 256

be_value-lt : (bs : List ℕ) → All IsByte bs → be_value bs < 256 ^ length bs
unfolding be_value
be_value-lt [] h = omega arith
be_value-lt (b ∷ bs) h = grind (arith, be_value-lt bs h.1, pow-suc 256 (length bs))

ltb→lt : (a b : ℕ) → ltb a b ≡ true → a < b
ltb→lt a b h = ground arith

lt→ltb : (a b : ℕ) → a < b → ltb a b ≡ true
lt→ltb a b h = ground arith

-- A test of every number under a bound, by evaluation.
holds_under : (ℕ → Bool) → ℕ → Bool
holds_under test zero = true
holds_under test (suc k) = let rest = holds_under test k in if test k then rest else false

holds_under-test : (test : ℕ → Bool) (k i : ℕ) → i < k → holds_under test k ≡ true → test i ≡ true
unfolding holds_under
holds_under-test test zero i below h = elim below [ ]
holds_under-test test (suc k) i below h = ground (arith, holds_under-test test k i)

same : Bool → Bool → Bool
same true b = b
same false b = not b

same_eq : (a b : Bool) → same a b ≡ true → a ≡ b
unfolding same
same_eq true b h = ground arith
same_eq false b h = ground arith

mask_test : ℕ → ℕ → Bool
unfolding same bit_mask
mask_test r b = same (bit_and b (bit_mask r) == 0) (ltb b (2 ^ (8 - r)))

mask_table : holds_under (λ r. holds_under (mask_test r) 256) 8 ≡ true
unfolding holds_under mask_test
mask_table = refl

-- Masking with r leading ones tests whether the r leading bits are zero.
mask_lem : (r b : ℕ) → r < 8 → b < 256 → (bit_and b (bit_mask r) == 0) ≡ ltb b (2 ^ (8 - r))
unfolding mask_test
mask_lem r b hr hb =
    let row = holds_under-test (λ k. holds_under (mask_test k) 256) 8 r hr mask_table in
    same_eq _ _ (holds_under-test (mask_test r) 256 b hb row)

split_table : holds_under (λ r. 2 ^ (8 - r) * 2 ^ r == 256) 8 ≡ true
unfolding holds_under
split_table = refl

pow_split : (r : ℕ) → r < 8 → 2 ^ (8 - r) * 2 ^ r ≡ 256
pow_split r h =
    (==_iff _ _).0 (holds_under-test (λ k. 2 ^ (8 - k) * 2 ^ k == 256) 8 r h split_table)

-- The leading byte against a bound of whole powers.
step_rem_below : (b v P K T : ℕ) → v < P → K * T ≡ 256 → b < K → (b * P + v) * T < 256 * P
step_rem_below b v P K T hv e hb =
    let row : b * P + v + 1 ≤ b * P + P = omega arith in
    let t₁ : (b * P + v + 1) * T ≤ (b * P + P) * T = mul-le-mul row (le_refl T) in
    let t₂ : (b + 1) * (T * P) ≤ K * (T * P) = mul-le-mul (omega arith) (le_refl (T * P)) in
    let some_bits : 1 ≤ T = grind arith in omega (arith, t₁, t₂, ap (λ (t : ℕ). t * P) e, some_bits)

step_rem_above : (b v P K T : ℕ) → K * T ≡ 256 → (b * P + v) * T < 256 * P → b < K
step_rem_above b v P K T e h = elim (dec_lt b K) [
  | yes p ↦ p
  | no p ↦
      let t : K * (T * P) ≤ b * (T * P) = mul-le-mul (omega arith) (le_refl (T * P)) in
      absurd (omega (arith, t, ap (λ (t : ℕ). t * P) e))
]

step_byte_zero : (b v P T : ℕ) → 1 ≤ T → (b * P + v) * (256 * T) < P * 256 → b ≡ 0
step_byte_zero b v P T ht h = elim (dec_lt 0 b) [
  | yes p ↦
      let t : 1 * P ≤ b * P = mul-le-mul p (le_refl P) in
      let u : P * (256 * 1) ≤ (b * P + v) * (256 * T) =
        mul-le-mul (omega (arith, t)) (omega arith) in
      absurd (omega (arith, u))
  | no p ↦ omega arith
]

step_byte : (b v P T : ℕ) → 1 ≤ T → ((b * P + v) * (256 * T) < P * 256) ↔ ((b ≡ 0) × (v * T < P))
step_byte b v P T ht =
    (λ h. let z = step_byte_zero b v P T ht h in (z, rest z h), λ (z, h). rw z (omega arith))
  where
    rest : b ≡ 0 → (b * P + v) * (256 * T) < P * 256 → v * T < P
    rest z h = let h' : (0 * P + v) * (256 * T) < P * 256 = rw z at h in omega arith

pow-pos : (n : ℕ) → 1 ≤ 2 ^ n
pow-pos zero = omega arith
pow-pos (suc n) = omega (arith, pow-pos n, pow-suc 2 n)

pow256-pos : (n : ℕ) → 1 ≤ 256 ^ n
pow256-pos zero = omega arith
pow256-pos (suc n) = omega (arith, pow256-pos n, pow-suc 256 n)

has_zero_bits-rem :
    (b : ℕ) (bs : List ℕ) (r : ℕ)
    → b < 256
    → suc r < 8
    → has_zero_bits (b ∷ bs) zero (suc r) ≡ ltb b (2 ^ (8 - suc r))
unfolding has_zero_bits
has_zero_bits-rem b bs r hb hr = ground (arith, mask_lem (suc r) b hr hb)

has_zero_bits-byte :
    (b : ℕ) (bs : List ℕ) (n r : ℕ)
    → has_zero_bits (b ∷ bs) (suc n) r ≡ (b == 0 && has_zero_bits bs n r)
unfolding has_zero_bits
has_zero_bits-byte b bs n r = ground arith

-- `has_zero_bits` says whether the number stays below the target of n whole bytes and r bits.
has_zero_bits_iff :
    (hash : List ℕ) (n r : ℕ)
    → All IsByte hash
    → r < 8
    → 8 * n + r ≤ 8 * length hash
    → (has_zero_bits hash n r ≡ true) ↔ (be_value hash * (256 ^ n * 2 ^ r) < 256 ^ length hash)
unfolding has_zero_bits be_value
has_zero_bits_iff [] zero zero bytes hr le = (λ _. omega arith, λ _. refl)
has_zero_bits_iff [] zero (suc r) bytes hr le = absurd (omega arith)
has_zero_bits_iff [] (suc n) r bytes hr le = absurd (omega arith)
has_zero_bits_iff (b ∷ bs) zero zero bytes hr le =
    (λ _. omega (arith, be_value-lt (b ∷ bs) bytes), λ _. refl)
has_zero_bits_iff (b ∷ bs) zero (suc r) bytes hr le =
    let v = be_value-lt bs bytes.1 in
    let P = 256 ^ length bs in
    let K = 2 ^ (8 - suc r) in
    let T = 2 ^ suc r in
    let e = pow_split (suc r) hr in
    let test = has_zero_bits-rem b bs r bytes.0 hr in
    (
      λ h.
          let below = step_rem_below b (be_value bs) P K T v e (ltb→lt b K (sym test ∙ h)) in
          omega (arith, below, pow-suc 256 (length bs)),
      λ h.
          let h' : (b * P + be_value bs) * T < 256 * P =
            omega (arith, h, pow-suc 256 (length bs)) in
          test ∙ lt→ltb b K (step_rem_above b (be_value bs) P K T e h'),
    )
has_zero_bits_iff (b ∷ bs) (suc n) r bytes hr le =
    let rest = has_zero_bits_iff bs n r bytes.1 hr (omega arith) in
    let T = 256 ^ n * 2 ^ r in
    let T-pos : 1 ≤ T = mul-le-mul (pow256-pos n) (pow-pos r) in
    let step = step_byte b (be_value bs) (256 ^ length bs) T T-pos in
    let test = has_zero_bits-byte b bs n r in
    rw (test, pow-suc 256 n, pow-suc 256 (length bs))
      (
        λ h.
            let both : (b ≡ 0) × (has_zero_bits bs n r ≡ true) = ground arith in
            omega (arith, step.1 (both.0, rest.0 both.1)),
        λ h. let both = step.0 (omega (arith, h)) in ground (arith, both.0, rest.1 both.1),
      )

pow2_bytes : (n r : ℕ) → 2 ^ (8 * n + r) ≡ 256 ^ n * 2 ^ r
pow2_bytes zero r = let e : 8 * 0 + r ≡ r = omega arith in rw e (omega arith)
pow2_bytes (suc n) r =
    let e : 8 * suc n + r ≡ (8 * n + r) + 8 = omega arith in
    rw (e, pow-suc 256 n) (simp towards_suc (omega (arith, pow2_bytes n r)))

-- For a hash of any number of bytes and a difficulty of at most that many bits,
-- `meets_difficulty` accepts the hash exactly if the number that it writes, shifted left by the
-- difficulty, still fits its bytes: that is, if its first `difficulty` bits are zero.
pub meets_difficulty_iff :
    (hash : List ℕ) (difficulty : ℕ)
    → All IsByte hash
    → difficulty ≤ 8 * length hash
    → (meets_difficulty hash difficulty ≡ true)
      ↔ (be_value hash * 2 ^ difficulty < 256 ^ length hash)
unfolding meets_difficulty
meets_difficulty_iff hash difficulty bytes le =
    let n = difficulty / 8 in
    let r = difficulty % 8 in
    let whole : 8 * n + r ≡ difficulty = omega arith in
    let e : 2 ^ difficulty ≡ 256 ^ n * 2 ^ r = ap (λ (d : ℕ). 2 ^ d) (sym whole) ∙ pow2_bytes n r in
    let bits = has_zero_bits_iff hash n r bytes (omega arith) (omega arith) in
    rw e (elim (dec_lt 0 difficulty) [
      | yes p ↦ (λ h. bits.0 (ground arith), λ h. let b = bits.1 h in ground arith)
      | no p ↦ (
        λ h.
            let z : difficulty ≡ 0 = omega arith in
            let one : 2 ^ difficulty ≡ 1 = rw z in
            omega (arith, be_value-lt hash bytes, ap (λ (t : ℕ). be_value hash * t) (sym e ∙ one)),
        λ h. ground arith,
      )
    ])
