-- ===== src/Rdb/Lzf.antt =====
-- src/rdb/lzf.rs: LZF decompression.
use meebis.Base.{
  ℕ, zero, suc, ◌+◌, ◌-◌, ◌*◌, ◌/◌, ◌≡◌, refl, bit_and, [], ◌∷◌, ◌++◌, ltb, ◌==◌, if◌then◌else◌,
  Option, none, some, get_elem?, take, drop, length,
}
use meebis.Base.Bytes.{Bytes}

infixl 5 ◌>>=◌
abbrev ◌>>=◌ {ℓ κ} : {A : Type ℓ} {B : Type κ} → Option A → (A → Option B) → Option B
none >>= f = none
some a >>= f = f a

-- The byte-at-a-time copy; the source may reach what is being written.
copy : ℕ → ℕ → Bytes → Option Bytes
copy zero src out = some out
copy (suc n) src out = do b ← get_elem? out src; copy n (src + 1) (out ++ (b ∷ []))

literal_run : ℕ → Bytes → Bytes → Option (Bytes × Bytes)
literal_run run input out =
    if ltb (length input) run then none else some (drop run input, out ++ take run input)

-- The byte after the length byte is the low part of the distance.
copy_back : ℕ → ℕ → Bytes → Bytes → Option (Bytes × Bytes)
unfolding copy
copy_back ctrl len [] out = none
copy_back ctrl len (low ∷ input) out =
    let dist = bit_and ctrl 0x1f * 256 + low in
    if ltb (length out) (dist + 1)
    then none
    else do out' ← copy (len + 2) (length out - (dist + 1)) out; some (input, out')

back_reference : ℕ → Bytes → Bytes → Option (Bytes × Bytes)
unfolding copy_back
back_reference ctrl [] out = none
back_reference ctrl (b ∷ input) out =
    if ctrl / 32 == 7
    then copy_back ctrl (7 + b) input out
    else copy_back ctrl (ctrl / 32) (b ∷ input) out

-- One block; the list is `input[i..]` behind the control byte.
pub block : ℕ → Bytes → Bytes → Option (Bytes × Bytes)
unfolding literal_run back_reference
block ctrl input out =
    if ltb ctrl 32 then literal_run (ctrl + 1) input out else back_reference ctrl input out

-- A round takes a byte at least, so the length of the input is enough fuel.
pub expand : ℕ → Bytes → Bytes → Option Bytes
unfolding block
expand fuel [] out = some out
expand zero (ctrl ∷ input) out = none
expand (suc fuel) (ctrl ∷ input) out = do
  (input', out') ← block ctrl input out
  expand fuel input' out'

unfoldable pub decompress : Bytes → ℕ → Option Bytes
unfolding expand
decompress input expected_len = do
  out ← expand (length input) input []
  if length out == expected_len then some out else none

overlap :
    decompress (0 ∷ b'a' ∷ 96 ∷ 0 ∷ []) 6 ≡ some (b'a' ∷ b'a' ∷ b'a' ∷ b'a' ∷ b'a' ∷ b'a' ∷ [])
unfolding decompress
overlap = refl
