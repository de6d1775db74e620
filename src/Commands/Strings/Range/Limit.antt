-- ===== src/Commands/Strings/Range/Limit.antt =====
-- src/commands/string.rs: the panic of SETRANGE.
use meebis.Base.{
  ℕ, ◌+◌, ◌^◌, ◌<◌, ◌≡◌, refl, false, Option, some, leb, ◌==◌, length, arith, Bool-cases, inl, inr,
}
use meebis.Base.Bytes.{Bytes}
use meebis.Base.Int.{ℤ, pos, negsuc}
use meebis.Resp.Frame.{Frame}
use meebis.Db.{Db}
use meebis.Db.Typed.{Typed, typed, wrong_type, get_str}
use meebis.Commands.Args.{Checked, go, fail, ◌>>=◌}
use meebis.Commands.Strings.Range.{patch_key, patch_typed, patch_string, offset_of}

below_limit : (k : ℕ) → k < 2 ^ 63 → leb (2 ^ 63) k ≡ false
below_limit k h = ground arith

patch_string-answers :
    (db : Db) (key : Bytes) (offset : ℕ) (patch buf : Bytes)
    → offset + length patch < 2 ^ 63
    → (r : Db × Frame) × (patch_string db key offset patch buf ≡ some r)
unfolding patch_string
patch_string-answers db key offset patch buf h = elim (Bool-cases (length patch == 0)) [
  | inl y ↦ rw y (_, refl)
  | inr n ↦ rw (n, below_limit (offset + length patch) h) (_, refl)
]

patch_typed-answers :
    (db : Db) (key : Bytes) (offset : ℕ) (patch : Bytes) (t : Typed (Option Bytes))
    → offset + length patch < 2 ^ 63
    → (r : Db × Frame) × (patch_typed db key offset patch t ≡ some r)
unfolding patch_typed
patch_typed-answers db key offset patch wrong_type h = (_, refl)
patch_typed-answers db key offset patch (typed o) h = patch_string-answers db key offset patch _ h

pub patch_key-answers :
    (now : ℕ) (db : Db) (key patch : Bytes) (a : Checked ℤ)
    → ((offset : ℕ) → a ≡ go (pos offset) → offset + length patch < 2 ^ 63)
    → (r : Db × Frame) × (patch_key now db key patch (a >>= offset_of) ≡ some r)
unfolding patch_key offset_of
patch_key-answers now db key patch (fail f) h = (_, refl)
patch_key-answers now db key patch (go (negsuc n)) h = (_, refl)
patch_key-answers now db key patch (go (pos n)) h =
    patch_typed-answers (get_str now db key).0 key n patch (get_str now db key).1 (h n refl)
