-- ===== src/Ulid/Bits.antt =====
-- Masks and shifts of the codec as arithmetic: tables over a byte, and `|` with a digit.
use Prim.Native.Nat.{bit_and, bit_or, digits, max, bit_or-bitwise}
use dk_agent_memory.Base.{
  ℕ, zero, suc, ◌+◌, ◌*◌, ◌/◌, ◌%◌, ◌^◌, ◌≤◌, ◌<◌, ◌≡◌, refl, Bool, true, ◌&&◌, arith, ◌==◌, ==_iff,
}

-- A test passes for every number below a bound.
unfoldable pub passes : (ℕ → Bool) → ℕ → Bool
passes test zero = true
passes test (suc bound) = passes test bound && test bound

pub passes-lt :
    (test : ℕ → Bool) (bound v : ℕ) → v < bound → passes test bound ≡ true → test v ≡ true
unfolding passes
passes-lt test zero v below table = absurd (omega (arith, below))
passes-lt test (suc bound) v below table = ground (arith, passes-lt test bound v)

-- A mask and a shift to the right take the bits from `s` on that lie below `2 ^ w`.
pub field_table :
    (m s w : ℕ)
    → passes (λ x. bit_and x m / 2 ^ s == x % 2 ^ w / 2 ^ s) 256 ≡ true
    → (x : ℕ) → x < 256
    → bit_and x m / 2 ^ s ≡ x % 2 ^ w / 2 ^ s
field_table m s w table x h = (==_iff _ _).0 (passes-lt _ 256 x h table)

-- `(x << s) | y` where `y` lies below the shift, for the small values that meet there.
pub join_table :
    (s n : ℕ)
    → passes (λ x. passes (λ y. bit_or (x * 2 ^ s) y == x * 2 ^ s + y) (2 ^ s)) n ≡ true
    → (x y : ℕ) → x < n
    → y < 2 ^ s
    → bit_or (x * 2 ^ s) y ≡ x * 2 ^ s + y
join_table s n table x y hx hy =
    (==_iff _ _).0 (passes-lt _ (2 ^ s) y hy (passes-lt _ n x hx table))

-- The definition behind `bit_or`, whose first argument bounds the digits that are read.
abbrev merged : (left right bound : ℕ) → ℕ
merged left right bound = digits (λ d. d) max bound left right

merged-bound :
    (left right k l : ℕ) → left ≤ k → left ≤ l → merged left right k ≡ merged left right l
merged-bound (suc u) v (suc k) (suc l) hk hl =
    let rest = merged-bound (suc u / 2) (v / 2) k l (omega (arith, hk)) (omega (arith, hl)) in
    omega (arith, rest)
merged-bound (suc u) v zero l hk hl = absurd (omega (arith, hk))
merged-bound (suc u) v (suc k) zero hk hl = absurd (omega (arith, hl))
merged-bound zero v (suc k) (suc l) hk hl = refl
merged-bound zero v (suc k) zero hk hl = refl
merged-bound zero v zero (suc l) hk hl = refl
merged-bound zero v zero zero hk hl = refl

bit_or_left : (v : ℕ) → bit_or 0 v ≡ v
bit_or_left v = bit_or-bitwise 0 v

bit_or_step : (u v : ℕ) → bit_or u v ≡ bit_or (u / 2) (v / 2) * 2 + max (u % 2) (v % 2)
bit_or_step (suc u) v =
    let rest = merged-bound (suc u / 2) (v / 2) u (suc u / 2) (omega arith) (omega arith) in
    omega (arith, rest, bit_or-bitwise (suc u / 2) (v / 2), bit_or-bitwise (suc u) v)
bit_or_step zero v = omega (arith, bit_or_left (v / 2), bit_or_left v)

bit_or-double : (a b : ℕ) → bit_or (a * 2) b ≡ bit_or a (b / 2) * 2 + b % 2
bit_or-double a b =
    let half : a * 2 / 2 ≡ a = omega arith in
    let low : a * 2 % 2 ≡ 0 = omega arith in
    rw (bit_or_step (a * 2) b) (rw (half, low) (omega arith))

bit_or-zero : (bound v : ℕ) → v ≤ bound → bit_or v 0 ≡ v
bit_or-zero (suc bound) (suc v) le =
    let half = bit_or-zero bound (suc v / 2) (omega (arith, le)) in
    omega (arith, half, bit_or_step (suc v) 0)
bit_or-zero zero (suc v) le = absurd (omega (arith, le))
bit_or-zero bound zero le = refl

-- `ms<<5 | d`, for every `ms`.
pub bit_or-shift : (m d : ℕ) → d < 32 → bit_or (m * 2 ^ 5) d ≡ m * 32 + d
bit_or-shift m d h =
    let spread : m * 32 ≡ m * 2 * 2 * 2 * 2 * 2 = omega arith in
    let gone : d / 2 / 2 / 2 / 2 / 2 ≡ 0 = omega arith in
    rw (spread, bit_or-double (m * 2 * 2 * 2 * 2) d)
      (rw (bit_or-double (m * 2 * 2 * 2) (d / 2)) (
        rw (bit_or-double (m * 2 * 2) (d / 2 / 2)) (
          rw (bit_or-double (m * 2) (d / 2 / 2 / 2)) (
            rw (bit_or-double m (d / 2 / 2 / 2 / 2))
              (rw (gone, bit_or-zero m m (omega arith)) (omega arith))))))
