-- ===== src/Prelude/Ints.antt =====
-- Go's `int` on a 64-bit machine: 64 bits in two's complement, as the number below 2 ^ 64 with the
-- same bits.
use external_dns_cloudflare.Prelude.{
  ℕ, ◌+◌, ◌-◌, ◌*◌, ◌<◌, ◌≡◌, arith, Bool, leb, ltb, if◌then◌else◌, Text, decimal, ◌∷◌,
}
use Prim.Native.Nat.{◌%◌}

-- 2 ^ 64
abbrev pub int_size : ℕ
int_size = 18446744073709551616

-- 2 ^ 63, below which an `int` is not negative
abbrev pub int_half : ℕ
int_half = 9223372036854775808

-- `a + 1`
unfoldable pub next_int : ℕ → ℕ
next_int a = (a + 1) % int_size

-- `a * b`
unfoldable pub mul_int : ℕ → ℕ → ℕ
mul_int a b = (a * b) % int_size

-- `a <= b`
unfoldable pub leb_int : ℕ → ℕ → Bool
leb_int a b = leb ((a + int_half) % int_size) ((b + int_half) % int_size)

-- `strconv.Itoa`
unfoldable pub itoa : ℕ → Text
itoa a = if ltb a int_half then decimal a else b'-' ∷ decimal (int_size - a)

pub next_int_small : (a : ℕ) → a + 1 < int_size → next_int a ≡ a + 1
unfolding next_int
next_int_small a h = omega arith

pub mul_int_small : (a b : ℕ) → a * b < int_size → mul_int a b ≡ a * b
unfolding mul_int
mul_int_small a b h = omega arith

pub leb_int_small : (a b : ℕ) → a < int_half → b < int_half → leb_int a b ≡ leb a b
unfolding leb_int
leb_int_small a b h k =
    let ea : (a + int_half) % int_size ≡ a + int_half = omega arith in
    let eb : (b + int_half) % int_size ≡ b + int_half = omega arith in rw (ea, eb) (ground arith)

pub itoa_small : (a : ℕ) → a < int_half → itoa a ≡ decimal a
unfolding itoa
itoa_small a h = ground arith
