-- ===== src/Prelude/Bytes.antt =====
-- Byte order: `to_be` and `from_be` of the unsigned integers, on either kind of machine.
use Prim.Native.Nat.{ℕ, zero, suc, ◌+◌, ◌*◌, ◌/◌, ◌%◌, ◌^◌, ◌<◌}
use mathlib.Core.Path.{◌≡◌, refl}
use native.Mathlib.Nat.{pow-suc}
use native.Mathlib.Omega.{arith}

pub data Endian : Type 0 where
  little big : Endian

-- The bytes of a word of n bytes, in the opposite order.
unfoldable pub swap_bytes : ℕ → ℕ → ℕ
swap_bytes zero x = 0
swap_bytes (suc n) x = (x % 256) * 256 ^ n + swap_bytes n (x / 256)

-- `x.to_be()` and `T::from_be(x)` for a word of n bytes.
unfoldable pub to_be : Endian → ℕ → ℕ → ℕ
to_be Endian.little n x = swap_bytes n x
to_be Endian.big n x = x

abbrev pub from_be : Endian → ℕ → ℕ → ℕ
from_be = to_be

swap_bytes-lt : (n x : ℕ) → swap_bytes n x < 256 ^ n
unfolding swap_bytes
swap_bytes-lt zero x = omega arith
swap_bytes-lt (suc n) x = rw pow-suc (grind (arith, swap_bytes-lt n (x / 256)))

swap_bytes-suc : (n x : ℕ) → swap_bytes (suc n) x ≡ (x % 256) * 256 ^ n + swap_bytes n (x / 256)
unfolding swap_bytes
swap_bytes-suc n x = refl

-- The lowest byte of a word above p multiples of 256.
low_byte : (p y d : ℕ) → (y + p * 256 * d) % 256 ≡ y % 256
low_byte p y d = omega arith

high_bytes : (p y d : ℕ) → (y + p * 256 * d) / 256 ≡ y / 256 + p * d
high_bytes p y d = omega arith

-- The highest byte goes to the bottom.
swap_bytes-top :
    (n y d : ℕ)
    → y < 256 ^ n
    → d < 256
    → swap_bytes (suc n) (y + 256 ^ n * d) ≡ 256 * swap_bytes n y + d
swap_bytes-top zero y d hy hd = unfold swap_bytes in omega arith
swap_bytes-top (suc n) y d hy hd =
    let small : y / 256 < 256 ^ n = omega (arith, pow-suc 256 n) in
    let ih = swap_bytes-top n (y / 256) d small hd in
    rw (swap_bytes-suc (suc n) (y + 256 ^ suc n * d), swap_bytes-suc n y)
      (rw (pow-suc 256 n) (rw (low_byte (256 ^ n) y d, high_bytes (256 ^ n) y d, ih) (omega arith)))

pub swap_bytes-swap_bytes : (n x : ℕ) → x < 256 ^ n → swap_bytes n (swap_bytes n x) ≡ x
swap_bytes-swap_bytes zero x h = unfold swap_bytes in omega arith
swap_bytes-swap_bytes (suc n) x h =
    let small : x / 256 < 256 ^ n = omega (arith, pow-suc 256 n) in
    let ih = swap_bytes-swap_bytes n (x / 256) small in
    let turned : swap_bytes (suc n) x ≡ swap_bytes n (x / 256) + 256 ^ n * (x % 256) =
      rw (swap_bytes-suc n x) (omega arith) in
    rw turned (
      rw
        (
          swap_bytes-top n (swap_bytes n (x / 256)) (x % 256) (swap_bytes-lt n (x / 256))
              (omega arith),
          ih,
        )
        (omega arith))

-- Network order and back is the identity.
pub from_be-to_be : (e : Endian) (n x : ℕ) → x < 256 ^ n → from_be e n (to_be e n x) ≡ x
unfolding to_be
from_be-to_be Endian.little n x h = swap_bytes-swap_bytes n x h
from_be-to_be Endian.big n x h = refl

pub to_be-lt : (e : Endian) (n x : ℕ) → x < 256 ^ n → to_be e n x < 256 ^ n
unfolding to_be
to_be-lt Endian.little n x h = swap_bytes-lt n x
to_be-lt Endian.big n x h = h
