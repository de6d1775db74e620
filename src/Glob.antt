-- ===== src/Glob.antt =====
-- src/db.rs: `glob_match`, the iterative matcher behind KEYS, SCAN and pattern subscriptions.
-- A byte slice that the code advances is the rest of the list.
mod Class
mod Tokens
pub mod Matches
mod Steps
mod Sound
mod Complete
pub mod Agree
mod Tests
use meebis.Base.{
  ℕ, zero, suc, ◌+◌, ◌*◌, Bool, true, false, not, ◌&&◌, ◌||◌, List, [], ◌∷◌, Option, none, some,
  leb, ◌==◌, if◌then◌else◌, length,
}
use meebis.Base.Bytes.{Bytes}

-- `ch == Some(c)`
is_char : Option ℕ → ℕ → Bool
is_char none c = false
is_char (some ch) c = ch == c

-- `lo..=hi`, in either order
in_range : Option ℕ → ℕ → ℕ → Bool
in_range none lo hi = false
in_range (some ch) lo hi = if leb lo hi then leb lo ch && leb ch hi else leb hi ch && leb ch lo

xor : Bool → Bool → Bool
xor true b = not b
xor false b = b

is_some : Option ℕ → Bool
is_some none = false
is_some (some c) = true

-- The loop of `match_class`; the list is `class[i..]`.
class_loop : Option ℕ → Bool → Bool → Bool → Bytes → Option (Bool × Bytes)
unfolding is_char in_range xor is_some
class_loop ch negate matched first [] = none
class_loop ch negate matched first (c ∷ []) =
    if c == b']' && not first then some (is_some ch && xor matched negate, []) else none
class_loop ch negate matched first (c ∷ d ∷ []) =
    let one = class_loop ch negate (is_char ch c || matched) false (d ∷ []) in
    if c == b']' && not first
    then some (is_some ch && xor matched negate, d ∷ [])
    else if c == b'\\'
    then none
    else one
class_loop ch negate matched first (c ∷ d ∷ e ∷ rest) =
    let escaped = class_loop ch negate (is_char ch d || matched) false (e ∷ rest) in
    let range = class_loop ch negate (in_range ch c e || matched) false rest in
    let one = class_loop ch negate (is_char ch c || matched) false (d ∷ e ∷ rest) in
    if c == b']' && not first
    then some (is_some ch && xor matched negate, d ∷ e ∷ rest)
    else if c == b'\\'
    then escaped
    else if d == b'-' && not (e == b']')
    then range
    else one

-- `none` is an unterminated class.
pub match_class : Bytes → Option ℕ → Option (Bool × Bytes)
unfolding class_loop
match_class [] ch = none
match_class (c ∷ rest) ch =
    let plain = class_loop ch false false true (c ∷ rest) in
    let negated = class_loop ch true false true rest in if c == b'^' then negated else plain

literal : ℕ → Bytes → Bytes → Option (Bytes × Bytes)
literal c prest [] = none
literal c prest (x ∷ s) = if x == c then some (prest, s) else none

head : Bytes → Option ℕ
head [] = none
head (x ∷ s) = some x

tail : Bytes → Bytes
tail [] = []
tail (x ∷ s) = s

any_one : Bytes → Bytes → Option (Bytes × Bytes)
any_one prest [] = none
any_one prest (x ∷ s) = some (prest, s)

escaped : Bytes → Bytes → Option (Bytes × Bytes)
unfolding literal
escaped [] s = literal b'\\' [] s
escaped (c ∷ prest) s = literal c prest s

bracket : Bytes → Bytes → Option (Bytes × Bytes)
unfolding match_class literal head tail
bracket prest s = elim (match_class prest (head s)) [
  | some (matched, prest2) ↦ if matched then some (prest2, tail s) else none
  | none ↦ literal b'[' prest s
]

-- The arms of the matcher other than `*`: the new pattern and text, or `none` on a mismatch.
pub one_char : ℕ → Bytes → Bytes → Option (Bytes × Bytes)
unfolding any_one escaped bracket
one_char pc prest s =
    if pc == b'?'
    then any_one prest s
    else if pc == b'['
    then bracket prest s
    else if pc == b'\\'
    then escaped prest s
    else literal pc prest s

-- Back to the last `*`, one byte further on; `go` is the loop.
pub backtrack :
    (Bytes → Bytes → Option Bytes → Bytes → Option Bool) → Option Bytes → Bytes → Option Bool
backtrack go none star_s = some false
backtrack go (some sp) [] = some false
backtrack go (some sp) (y ∷ star_s) = go sp star_s (some sp) star_s

-- One round of the loop is one unit of fuel; `none` means that the fuel ran out.
pub glob_inner : ℕ → Bytes → Bytes → Option Bytes → Bytes → Option Bool
unfolding backtrack
glob_inner zero p s star_p star_s = none
glob_inner (suc f) [] [] star_p star_s = some true
glob_inner (suc f) [] (x ∷ s) star_p star_s = backtrack (glob_inner f) star_p star_s
glob_inner (suc f) (pc ∷ prest) s star_p star_s =
    let star = glob_inner f prest s (some prest) s in
    let other : Option Bool = elim (one_char pc prest s) [
      | some (p', s') ↦ glob_inner f p' s' star_p star_s
      | none ↦ backtrack (glob_inner f) star_p star_s
    ] in
    if pc == b'*' then star else other

-- Every byte of the text is passed by a backtrack at most once, and between two of those the
-- pattern only gets shorter.
abbrev fuel_for : Bytes → Bytes → ℕ
fuel_for pattern s = suc (length s * (length pattern + 1) + length pattern)

pub glob_match : Bytes → Bytes → Bool
unfolding glob_inner one_char
glob_match pattern s = elim (glob_inner (fuel_for pattern s) pattern s none []) [
  | some b ↦ b
  | none ↦ false
]
