-- ===== src/Sha1/Padding.antt =====
-- src/sha1.rs: the padding loop ends, and the padded message is whole blocks.
use meebis.Base.{
  ℕ, zero, suc, ◌+◌, ◌-◌, ◌*◌, ◌%◌, ◌^◌, ◌≤◌, ◌≡◌, sym, append-nil, ◌∙◌, false, [], ◌∷◌, ◌++◌,
  append_assoc, ◌==◌, ==_iff, length, replicate, arith, length-append, length-replicate, Bool-cases,
  inl, inr,
}
use meebis.Base.Bytes.{Bytes}
use meebis.Rdb.Words.{to_be, length-to_be}
use meebis.Sha1.{push_zeros, pad}

-- How many zeros a length still needs.
abbrev pub missing : ℕ → ℕ
missing n = (120 - n % 64) % 64

done : (msg : Bytes) → missing (length msg) ≡ 0 → msg ≡ msg ++ replicate (missing (length msg)) 0
done msg h = rw h (sym (append-nil msg))

zeros_shift :
    (msg : Bytes) (n : ℕ) → (msg ++ (0 ∷ [])) ++ replicate n 0 ≡ msg ++ replicate (suc n) 0
zeros_shift msg n = append_assoc msg (0 ∷ []) (replicate n 0)

fewer : (n : ℕ) → (n % 64 == 56) ≡ false → missing n ≡ suc (missing (n + 1))
fewer n h = ground (arith, ==_iff (n % 64) 56)

length-one_more : (msg : Bytes) → length (msg ++ (0 ∷ [])) ≡ length msg + 1
length-one_more msg = length-append msg (0 ∷ [])

-- With enough fuel the loop ends by itself, and has added what was missing.
push_zeros_lem :
    (fuel : ℕ) (msg : Bytes)
    → missing (length msg) ≤ fuel
    → push_zeros fuel msg ≡ msg ++ replicate (missing (length msg)) 0
unfolding push_zeros
push_zeros_lem zero msg h = done msg (omega arith)
push_zeros_lem (suc fuel) msg h = elim (Bool-cases (length msg % 64 == 56)) [
  | inl y ↦ rw y (done msg (ground (arith, y, ==_iff (length msg % 64) 56)))
  | inr n ↦
      let less : missing (length msg) ≡ suc (missing (length msg + 1)) = fewer (length msg) n in
      let one : length (msg ++ (0 ∷ [])) ≡ length msg + 1 = length-one_more msg in
      rw n (
        push_zeros_lem fuel (msg ++ (0 ∷ [])) (rw one (omega (arith, less)))
        ∙ rw (one, less) (zeros_shift msg (missing (length msg + 1))))
]

padded_with :
    (fuel : ℕ) (input tail : Bytes)
    → missing (length input + 1) ≤ fuel
    → push_zeros fuel (input ++ (128 ∷ [])) ++ tail
      ≡ input ++ (128 ∷ (replicate (missing (length input + 1)) 0 ++ tail))
padded_with fuel input tail h =
    let one : length (input ++ (128 ∷ [])) ≡ length input + 1 = length-append input (128 ∷ []) in
    rw (push_zeros_lem fuel (input ++ (128 ∷ [])) (rw one h), one)
      (append_assoc (input ++ (128 ∷ [])) (replicate (missing (length input + 1)) 0) tail
        ∙ append_assoc input (128 ∷ []) (replicate (missing (length input + 1)) 0 ++ tail))

length-padded :
    (input tail : Bytes)
    → length tail ≡ 8
    → length (input ++ (128 ∷ (replicate (missing (length input + 1)) 0 ++ tail))) % 64 ≡ 0
length-padded input tail h =
    let z : Bytes = replicate (missing (length input + 1)) 0 in
    omega (
      arith,
      length-append input (128 ∷ (z ++ tail)),
      length-append z tail,
      length-replicate {A = ℕ} (missing (length input + 1)) 0,
    )

few_missing : (n : ℕ) → missing n ≤ 64
few_missing n = omega arith

-- The padding of SHA-1: a 0x80, just the zeros that bring the length to 56 modulo 64, and the length
-- in bits as eight bytes, the most significant first. The result is whole blocks of 64 bytes. The loop
-- that adds the zeros ends within the fuel that it is given.
pub pad_lem :
    (input : Bytes)
    → (pad input
        ≡ input
          ++ (128
              ∷ (replicate (missing (length input + 1)) 0 ++ to_be 8 (length input * 8 % 2 ^ 64))))
      × (length (pad input) % 64 ≡ 0)
unfolding pad
pad_lem input =
    let tail : Bytes = to_be 8 (length input * 8 % 2 ^ 64) in
    let same = padded_with 64 input tail (few_missing (length input + 1)) in
    (same, rw same (length-padded input tail (length-to_be 8 (length input * 8 % 2 ^ 64))))
