-- ===== src/Prelude/Bytes.antt =====
-- Fixed-width byte strings determine the numbers that they write, and parts of known length
-- can be read back from a concatenation.
use Prim.Native.Nat.{ℕ, zero, suc, ◌/◌, ◌%◌, ◌^◌, ◌<◌}
use mathlib.Core.Path.{◌≡◌, refl, ap}
use mathlib.Core.List.{List, [], ◌∷◌, ◌++◌}
use native.Mathlib.Omega.{arith}
use native.Mathlib.Nat.{pow-suc}
use cytah_speed.Prelude.Lists.{length, length-append}
use cytah_speed.Prelude.Words.{le_bytes, be_bytes}

pub cons-injective {ℓ} :
    {A : Type ℓ} {x y : A} {xs ys : List A} → x ∷ xs ≡ y ∷ ys → (x ≡ y) × (xs ≡ ys)
cons-injective h = (cc, cc)

pub append-cancel {ℓ} :
    {A : Type ℓ} (xs xs' : List A) {ys ys' : List A}
    → xs ++ ys ≡ xs' ++ ys'
    → length xs ≡ length xs'
    → (xs ≡ xs') × (ys ≡ ys')
append-cancel [] [] h e = (refl, h)
append-cancel [] (y ∷ ys) h e = absurd (omega arith)
append-cancel (x ∷ xs) [] h e = absurd (omega arith)
append-cancel (x ∷ xs) (y ∷ ys) h e =
    let (head, tail) = cons-injective h in
    let (front, back) = append-cancel xs ys tail (omega arith) in (cc, back)

-- The same, with the lengths of the second parts known.
pub append-cancel_right {ℓ} :
    {A : Type ℓ} (xs xs' : List A) {ys ys' : List A}
    → xs ++ ys ≡ xs' ++ ys'
    → length ys ≡ length ys'
    → (xs ≡ xs') × (ys ≡ ys')
append-cancel_right xs xs' {ys} {ys'} h e =
    append-cancel xs xs' h (omega (arith, length-append xs ys, length-append xs' ys', ap length h))

pub length-le_bytes : (n x : ℕ) → length (le_bytes n x) ≡ n
unfolding le_bytes
length-le_bytes zero x = refl
length-le_bytes (suc n) x = ap suc (length-le_bytes n (x / 256))

pub length-be_bytes : (n x : ℕ) → length (be_bytes n x) ≡ n
unfolding be_bytes
length-be_bytes zero x = refl
length-be_bytes (suc n) x =
    omega
      (arith, length-be_bytes n (x / 256), length-append (be_bytes n (x / 256)) ((x % 256) ∷ []))

div-lt-pow : (n x : ℕ) → x < 256 ^ suc n → x / 256 < 256 ^ n
div-lt-pow n x h = omega (arith, pow-suc 256 n)

pub le_bytes-injective :
    (n x y : ℕ) → x < 256 ^ n → y < 256 ^ n → le_bytes n x ≡ le_bytes n y → x ≡ y
unfolding le_bytes
le_bytes-injective zero x y hx hy e = omega arith
le_bytes-injective (suc n) x y hx hy e =
    let (low, high) = cons-injective e in
    omega (
      arith,
      low,
      le_bytes-injective n (x / 256) (y / 256) (div-lt-pow n x hx) (div-lt-pow n y hy) high,
    )

pub be_bytes-injective :
    (n x y : ℕ) → x < 256 ^ n → y < 256 ^ n → be_bytes n x ≡ be_bytes n y → x ≡ y
unfolding be_bytes
be_bytes-injective zero x y hx hy e = omega arith
be_bytes-injective (suc n) x y hx hy e =
    let (high, low) = append-cancel_right (be_bytes n (x / 256)) (be_bytes n (y / 256)) e refl in
    omega (
      arith,
      (cons-injective low).0,
      be_bytes-injective n (x / 256) (y / 256) (div-lt-pow n x hx) (div-lt-pow n y hy) high,
    )
