-- ===== src/Index/Hash.antt =====
-- The hash function of p4/index.c, on 64-bit words.
use Prim.Native.Nat.{bit_or, bit_xor}
use operating_systems_cs.Common.{
  ℕ, ◌+◌, ◌-◌, ◌*◌, ◌/◌, ◌%◌, ◌^◌, ◌<◌, if◌then◌else◌, ltb, List, [], ◌∷◌, arith, length,
}

-- The four accumulators.
pub record Lanes : Type 0 where
  pub a : ℕ
  pub b : ℕ
  pub c : ℕ
  pub d : ℕ

abbrev add64 : ℕ → ℕ → ℕ
add64 x y = (x + y) % 2 ^ 64

-- `(x << n) | (x >> (64 - n))`.
pub rotate : ℕ → ℕ → ℕ
rotate x n = bit_or (x * 2 ^ n % 2 ^ 64) (x / 2 ^ (64 - n))

-- `(uint64_t)p[i]` for a signed `char`: the sign is extended.
pub extend : ℕ → ℕ
extend byte = if ltb byte 128 then byte else 2 ^ 64 - 256 + byte

-- `x ^= y; y = rotate(y); x += y`, where the result is the new pair of `x` and `y`.
pub mix : ℕ → ℕ → ℕ → ℕ × ℕ
mix x y n = let y' = rotate y n in (add64 (bit_xor x y) y', y')

-- One round of the loop.
pub round : ℕ → Lanes → Lanes
round byte s =
    let p = extend byte in
    let a0 = add64 s.a (p * 592821132889 % 2 ^ 64) in
    let b0 = add64 s.b (p * 963726515729 % 2 ^ 64) in
    let c0 = add64 s.c (p * 1765037224331 % 2 ^ 64) in
    let d0 = add64 s.d (p * 2428095424619 % 2 ^ 64) in
    let (d1, c1) = mix d0 c0 15 in
    let (a1, d2) = mix a0 d1 52 in
    let (b1, a2) = mix b0 a1 26 in
    let (c2, b2) = mix c1 b1 51 in
    let (d3, c3) = mix d2 c2 28 in
    let (a3, d4) = mix a2 d3 9 in
    let (b3, a4) = mix b2 a3 47 in
    let (c4, b4) = mix c3 b3 54 in
    let (d5, c5) = mix d4 c4 32 in
    let (a5, d6) = mix a4 d5 25 in
    let (b5, a6) = mix b4 a5 63 in record { a = a6; b = b5; c = c5; d = d6 }

pub rounds : List ℕ → Lanes → Lanes
rounds [] s = s
rounds (byte ∷ bytes) s = rounds bytes (round byte s)

unfoldable pub hash : List ℕ → ℕ
unfolding rotate extend mix round rounds
hash bytes =
    let seed = length bytes * 414507281407 % 2 ^ 64 in
    let s = rounds bytes (record { a = seed; b = seed; c = seed; d = seed }) in
    (s.a + s.b + s.c + s.d) % 2 ^ 64

pub hash-lt : (bytes : List ℕ) → hash bytes < 2 ^ 64
unfolding hash
hash-lt bytes = omega arith
