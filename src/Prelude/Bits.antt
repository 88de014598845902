-- ===== src/Prelude/Bits.antt =====
-- Single bits of `&` and `^` at variables, from the digit recursion of the native operations.
use Prim.Native.Nat.{
  ℕ, zero, suc, ◌+◌, ◌*◌, ◌/◌, ◌%◌, ◌^◌, ◌≤◌, ◌<◌, min, bit_and, bit_xor, digits, differ,
  bit_and-bitwise, bit_xor-bitwise, bit_or, bit_or-bitwise, max,
}
use mathlib.Core.Bool.{Bool}
use coracle.Prelude.Tests.{◌==◌}
use mathlib.Core.Path.{◌≡◌, refl, sym, ap, ◌∙◌}
use native.Mathlib.Nat.{le_refl, pow-succ', div-div-eq-div-mul}
use native.Mathlib.Omega.{arith}

-- Any two bounds on the number of digits give the same digits.
module _ (rest : ℕ → ℕ) (op : ℕ → ℕ → ℕ) where
  digits_zero : (c b : ℕ) → digits rest op c 0 b ≡ rest b
  digits_zero zero b = refl
  digits_zero (suc c) b = refl

  digits_any : (c d a b : ℕ) → a ≤ c → a ≤ d → digits rest op c a b ≡ digits rest op d a b
  digits_any c d zero b hc hd = rw (digits_zero c b, digits_zero d b)
  digits_any zero d (suc a) b hc hd = absurd (omega arith)
  digits_any (suc c) zero (suc a) b hc hd = absurd (omega arith)
  digits_any (suc c) (suc d) (suc a) b hc hd =
      rw (digits_any c d (suc a / 2) (b / 2) (omega arith) (omega arith))

-- The lowest digit apart from the others.
pub bit_and-half : (a b : ℕ) → bit_and a b ≡ bit_and (a / 2) (b / 2) * 2 + min (a % 2) (b % 2)
bit_and-half zero b = simp bit_and-bitwise (omega arith)
bit_and-half (suc a) b = simp bit_and-bitwise (
    omega (
      arith,
      digits_any (λ y. 0) min a (suc a / 2) (suc a / 2) (b / 2) (omega arith) (omega arith),
    ))

differ-add : (x y : ℕ) → x < 2 → y < 2 → differ x y ≡ (x + y) % 2
differ-add zero y hx hy = omega arith
differ-add (suc zero) zero hx hy = refl
differ-add (suc zero) (suc zero) hx hy = refl
differ-add (suc zero) (suc (suc y)) hx hy = absurd (omega arith)
differ-add (suc (suc x)) y hx hy = absurd (omega arith)

pub bit_and-zero : (x : ℕ) → bit_and x 0 ≡ 0
bit_and-zero x = simp bit_and-bitwise (none x x)
  where
    none : (c a : ℕ) → digits (λ y. 0) min c a 0 ≡ 0
    none zero a = refl
    none (suc c) zero = refl
    none (suc c) (suc a) = omega (arith, none c (suc a / 2))

bit_xor-half : (a b : ℕ) → bit_xor a b ≡ bit_xor (a / 2) (b / 2) * 2 + (a % 2 + b % 2) % 2
bit_xor-half zero b = simp bit_xor-bitwise (omega arith)
bit_xor-half (suc a) b = simp bit_xor-bitwise (
    omega (
      arith,
      differ-add (suc a % 2) (b % 2) (omega arith) (omega arith),
      digits_any (λ y. y) differ a (suc a / 2) (suc a / 2) (b / 2) (omega arith) (omega arith),
    ))

-- The `k`th bit.
abbrev pub bit : ℕ → ℕ → ℕ
bit x k = x / 2 ^ k % 2

bit-suc : (x k : ℕ) → bit x (suc k) ≡ bit (x / 2) k
bit-suc x k =
    ap (λ (t : ℕ). t % 2)
      (ap (λ (t : ℕ). x / t) (pow-succ' 2 k) ∙ sym (div-div-eq-div-mul x 2 (2 ^ k)))

pub bit-bit_and : (k a b : ℕ) → bit (bit_and a b) k ≡ min (bit a k) (bit b k)
bit-bit_and zero a b = omega (arith, bit_and-half a b)
bit-bit_and (suc k) a b =
    let half : bit_and a b / 2 ≡ bit_and (a / 2) (b / 2) = omega (arith, bit_and-half a b) in
    rw (bit-suc (bit_and a b) k, bit-suc a k, bit-suc b k, half) (bit-bit_and k (a / 2) (b / 2))

pub bit-bit_xor : (k a b : ℕ) → bit (bit_xor a b) k ≡ (bit a k + bit b k) % 2
bit-bit_xor zero a b = omega (arith, bit_xor-half a b)
bit-bit_xor (suc k) a b =
    let half : bit_xor a b / 2 ≡ bit_xor (a / 2) (b / 2) = omega (arith, bit_xor-half a b) in
    rw (bit-suc (bit_xor a b) k, bit-suc a k, bit-suc b k, half) (bit-bit_xor k (a / 2) (b / 2))

half_pow : (k : ℕ) → 2 ^ suc k / 2 ≡ 2 ^ k
half_pow k = omega (arith, pow-succ' 2 k)

-- `x & (1 << k)` keeps the `k`th bit alone.
pub bit_and-pow : (k x : ℕ) → bit_and x (2 ^ k) ≡ bit x k * 2 ^ k
bit_and-pow zero x = omega (arith, bit_and-half x 1, bit_and-zero (x / 2))
bit_and-pow (suc k) x = omega (
  arith,
  bit_and-half x (2 ^ suc k),
  pow-succ' 2 k,
  bit-suc x k,
  bit_and-pow k (x / 2),
  ap (λ (t : ℕ). bit_and (x / 2) t) (half_pow k),
  ap (λ (t : ℕ). t * 2 ^ k) (bit-suc x k),
  ap (λ (t : ℕ). bit x (suc k) * t) (pow-succ' 2 k),
)

bit_or-half : (a b : ℕ) → bit_or a b ≡ bit_or (a / 2) (b / 2) * 2 + max (a % 2) (b % 2)
bit_or-half zero b = simp bit_or-bitwise (omega arith)
bit_or-half (suc a) b = simp bit_or-bitwise (
    omega (
      arith,
      digits_any (λ y. y) max a (suc a / 2) (suc a / 2) (b / 2) (omega arith) (omega arith),
    ))

bit_or-zero : (c x : ℕ) → x ≤ c → bit_or x 0 ≡ x
bit_or-zero c zero h = refl
bit_or-zero zero (suc x) h = absurd (omega arith)
bit_or-zero (suc c) (suc x) h =
    omega (arith, bit_or-half (suc x) 0, bit_or-zero c (suc x / 2) (omega arith))

-- `q << k | r` is a sum where `r` has no more than `k` bits.
pub bit_or-shl : (k q r : ℕ) → r < 2 ^ k → bit_or (q * 2 ^ k) r ≡ q * 2 ^ k + r
bit_or-shl zero q r h = ground (arith, bit_or-zero q q (le_refl q))
bit_or-shl (suc k) q r h =
    let twice : q * 2 ^ suc k ≡ 2 * (q * 2 ^ k) =
      omega (arith, ap (λ (t : ℕ). q * t) (pow-succ' 2 k)) in
    let half : q * 2 ^ suc k / 2 ≡ q * 2 ^ k = omega arith in
    let step : bit_or (q * 2 ^ suc k / 2) (r / 2) ≡ bit_or (q * 2 ^ k) (r / 2) =
      ap (λ (t : ℕ). bit_or t (r / 2)) half in
    let small : r / 2 < 2 ^ k = omega (arith, pow-succ' 2 k) in
    omega (arith, bit_or-half (q * 2 ^ suc k) r, step, bit_or-shl k q (r / 2) small)

-- `x & (1 << k) != 0`.
abbrev pub is_set : ℕ → ℕ → Bool
is_set x k = bit x k == 1

-- A mask whose low `k` digits are clear reads the number above them.
pub bit_and-shl : (k x m : ℕ) → bit_and x (m * 2 ^ k) ≡ bit_and (x / 2 ^ k) m * 2 ^ k
bit_and-shl zero x m =
    let same : m * 1 ≡ m = omega arith in
    let whole : x / 1 ≡ x = omega arith in
    omega (arith, ap (λ (t : ℕ). bit_and x t) same, ap (λ (t : ℕ). bit_and t m) whole)
bit_and-shl (suc k) x m =
    let twice : m * 2 ^ suc k ≡ 2 * (m * 2 ^ k) =
      omega (arith, ap (λ (t : ℕ). m * t) (pow-succ' 2 k)) in
    let half : m * 2 ^ suc k / 2 ≡ m * 2 ^ k = omega arith in
    let moved : x / 2 / 2 ^ k ≡ x / 2 ^ suc k =
      div-div-eq-div-mul x 2 (2 ^ k) ∙ ap (λ (t : ℕ). x / t) (sym (pow-succ' 2 k)) in
    omega (
      arith,
      bit_and-half x (m * 2 ^ suc k),
      twice,
      ap (λ (t : ℕ). bit_and (x / 2) t) half,
      bit_and-shl k (x / 2) m,
      ap (λ (t : ℕ). bit_and t m * 2 ^ k) moved,
      ap (λ (t : ℕ). bit_and (x / 2 ^ suc k) m * t) (pow-succ' 2 k),
    )

pub bit-bit_or : (k a b : ℕ) → bit (bit_or a b) k ≡ max (bit a k) (bit b k)
bit-bit_or zero a b = omega (arith, bit_or-half a b)
bit-bit_or (suc k) a b =
    let half : bit_or a b / 2 ≡ bit_or (a / 2) (b / 2) = omega (arith, bit_or-half a b) in
    rw (bit-suc (bit_or a b) k, bit-suc a k, bit-suc b k, half) (bit-bit_or k (a / 2) (b / 2))

-- `x | (1 << k)` where the `k`th digit is clear.
pub bit_or-pow : (k x : ℕ) → bit x k ≡ 0 → bit_or x (2 ^ k) ≡ x + 2 ^ k
bit_or-pow zero x h = omega (arith, bit_or-half x 1, bit_or-zero (x / 2) (x / 2) (le_refl (x / 2)))
bit_or-pow (suc k) x h =
    let rest = bit_or-pow k (x / 2) (sym (bit-suc x k) ∙ h) in
    omega (
      arith,
      bit_or-half x (2 ^ suc k),
      pow-succ' 2 k,
      rest,
      ap (λ (t : ℕ). bit_or (x / 2) t) (half_pow k),
    )
