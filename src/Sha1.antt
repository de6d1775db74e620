-- ===== src/Sha1.antt =====
-- src/sha1.rs: SHA-1. A u32 is a number below 2 ^ 32, and its arithmetic wraps.
pub mod Padding
mod Tests
use meebis.Base.{
  ℕ, zero, suc, ◌+◌, ◌-◌, ◌*◌, ◌/◌, ◌%◌, ◌^◌, Bool, List, [], ◌∷◌, ◌++◌, ltb, ◌==◌, if◌then◌else◌,
  length, get_or, take, drop, bit_and, bit_or, bit_xor, map,
}
use meebis.Base.Bytes.{Bytes}
use meebis.Rdb.Words.{to_be}

abbrev pub wrapping_add : ℕ → ℕ → ℕ
wrapping_add a b = (a + b) % 2 ^ 32

abbrev pub rotate_left : ℕ → ℕ → ℕ
rotate_left x n = x * 2 ^ n % 2 ^ 32 + x / 2 ^ (32 - n)

-- `while msg.len() % 64 != 56 { msg.push(0) }`
pub push_zeros : ℕ → Bytes → Bytes
push_zeros zero msg = msg
push_zeros (suc fuel) msg =
    let rest = push_zeros fuel (msg ++ (0 ∷ [])) in if length msg % 64 == 56 then msg else rest

pub pad : Bytes → Bytes
unfolding push_zeros
pad input = push_zeros 64 (input ++ (128 ∷ [])) ++ to_be 8 (length input * 8 % 2 ^ 64)

-- `u32::from_to_be` of each four bytes of a block.
pub words : ℕ → Bytes → List ℕ
words zero block = []
words (suc n) block =
    (((get_or block 0 0 * 256 + get_or block 1 0) * 256 + get_or block 2 0) * 256
      + get_or block 3 0)
    ∷ words n (drop 4 block)

-- The words from 16 on.
pub extend : ℕ → List ℕ → List ℕ
extend zero w = w
extend (suc n) w =
    let i = length w in
    let x =
      bit_xor (bit_xor (bit_xor (get_or w (i - 3) 0) (get_or w (i - 8) 0)) (get_or w (i - 14) 0))
        (get_or w (i - 16) 0) in
    extend n (w ++ (rotate_left x 1 ∷ []))

pub record State : Type 0 where
  pub a : ℕ
  pub b : ℕ
  pub c : ℕ
  pub d : ℕ
  pub e : ℕ

abbrev pub complement : ℕ → ℕ
complement x = 2 ^ 32 - 1 - x

-- The function and the constant of a round.
pub mix : ℕ → State → ℕ × ℕ
mix i s =
    if ltb i 20
    then (bit_or (bit_and s.b s.c) (bit_and (complement s.b) s.d), 0x5A827999)
    else if ltb i 40
    then (bit_xor (bit_xor s.b s.c) s.d, 0x6ED9EBA1)
    else if ltb i 60
    then (bit_or (bit_or (bit_and s.b s.c) (bit_and s.b s.d)) (bit_and s.c s.d), 0x8F1BBCDC)
    else (bit_xor (bit_xor s.b s.c) s.d, 0xCA62C1D6)

pub round : ℕ → ℕ → State → State
unfolding mix
round i w s =
    let (f, k) = mix i s in
    record {
      a = wrapping_add (wrapping_add (wrapping_add (wrapping_add (rotate_left s.a 5) f) s.e) k) w;
      b = s.a;
      c = rotate_left s.b 30;
      d = s.c;
      e = s.d;
    }

pub rounds : ℕ → List ℕ → State → State
unfolding round
rounds i [] s = s
rounds i (w ∷ ws) s = rounds (suc i) ws (round i w s)

pub add_states : State → State → State
add_states h s = record {
  a = wrapping_add h.a s.a;
  b = wrapping_add h.b s.b;
  c = wrapping_add h.c s.c;
  d = wrapping_add h.d s.d;
  e = wrapping_add h.e s.e;
}

pub compress : Bytes → State → State
unfolding words extend rounds add_states
compress block h = add_states h (rounds 0 (extend 64 (words 16 block)) h)

-- `chunks_exact(64)`, the number of the blocks given.
pub blocks : ℕ → Bytes → State → State
unfolding compress
blocks zero msg h = h
blocks (suc n) msg h = blocks n (drop 64 msg) (compress (take 64 msg) h)

abbrev pub initial : State
initial = record { a = 0x67452301; b = 0xEFCDAB89; c = 0x98BADCFE; d = 0x10325476; e = 0xC3D2E1F0 }

pub digest_of : State → Bytes
digest_of h = to_be 4 h.a ++ (to_be 4 h.b ++ (to_be 4 h.c ++ (to_be 4 h.d ++ to_be 4 h.e)))

unfoldable pub sha1 : Bytes → Bytes
unfolding pad blocks digest_of
sha1 input = let msg = pad input in digest_of (blocks (length msg / 64) msg initial)

-- `char::from_digit(n, 16)`
pub hex_digit : ℕ → ℕ
hex_digit n = if ltb n 10 then 48 + n else 87 + n

pub hex : Bytes → Bytes
unfolding hex_digit
hex [] = []
hex (b ∷ s) = hex_digit (b / 16) ∷ hex_digit (b % 16) ∷ hex s

unfoldable pub sha1_hex : Bytes → Bytes
unfolding sha1 hex
sha1_hex input = hex (sha1 input)
