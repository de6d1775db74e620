-- ===== src/Glob/Matches.antt =====
-- When a pattern matches a text, as a relation, and its inversions.
use meebis.Base.{ℕ, ◌≡◌, ◌≢◌, ◌⊎◌, [], ◌∷◌, Option, none, some, inl, inr}
use mathlib.Core.Path.{subst}
use meebis.Base.Bytes.{Bytes}
use meebis.Glob.{one_char}
use meebis.Glob.Tokens.{Takes, Takes-one_char, Takes_rest}

-- A pattern matches a text.
pub data Matches : Bytes → Bytes → Type 0 where
  done : Matches [] []
  star_end : {pc : ℕ} {p s : Bytes} → pc ≡ b'*' → Matches p s → Matches (pc ∷ p) s
  star_more : {pc c : ℕ} {p s : Bytes} → pc ≡ b'*' → Matches (pc ∷ p) s → Matches (pc ∷ p) (c ∷ s)
  take :
      {pc c : ℕ} {p p' s : Bytes}
      → pc ≢ b'*'
      → Takes c pc p p'
      → Matches p' s
      → Matches (pc ∷ p) (c ∷ s)

-- The pattern matches one of the texts that are left after at least one byte.
abbrev pub Later : Bytes → Bytes → Type 0
Later p [] = ⊥
Later p (y ∷ t) = Matches p t ⊎ Later p t

abbrev pub Return : Option Bytes → Bytes → Type 0
Return none t = ⊥
Return (some p) t = Later p t

pub Later-star : {pc : ℕ} {p : Bytes} (s : Bytes) → pc ≡ b'*' → Later p s → Matches (pc ∷ p) s
Later-star [] e l = absurd l
Later-star (y ∷ t) e (inl m) = star_more e (star_end e m)
Later-star (y ∷ t) e (inr l) = star_more e (Later-star t e l)

pub Later_whole :
    {pc : ℕ} {p : Bytes} (s : Bytes) → pc ≡ b'*' → Later (pc ∷ p) s → Matches (pc ∷ p) s
Later_whole [] e l = absurd l
Later_whole (y ∷ t) e (inl m) = star_more e m
Later_whole (y ∷ t) e (inr l) = star_more e (Later_whole t e l)

-- Where an element and what follows it match, what follows matches at least one byte later.
pub take_inv :
    {c pc : ℕ} {p p' s : Bytes} → pc ≢ b'*' → Takes c pc p p' → Matches (pc ∷ p) s → Later p' s
take_inv n t (star_end e m) = absurd (n e)
take_inv n t (star_more e m) = absurd (n e)
take_inv n t (take {s = s} k u m) = inl (subst (λ q. Matches q s) (Takes_rest u t) m)

pub Later-step :
    {c pc : ℕ} {p p' : Bytes} (s : Bytes)
    → pc ≢ b'*'
    → Takes c pc p p'
    → Later (pc ∷ p) s
    → Later p' s
Later-step [] n t l = l
Later-step (y ∷ s) n t (inl m) = inr (take_inv n t m)
Later-step (y ∷ s) n t (inr l) = inr (Later-step s n t l)

-- Inversions of `Matches`.
pub star_inv : {pc : ℕ} {p s : Bytes} → pc ≡ b'*' → Matches (pc ∷ p) s → Matches p s ⊎ Later p s
star_inv e (star_end _ m) = inl m
star_inv e (star_more _ m) = inr (star_inv e m)
star_inv e (take n t m) = absurd (n e)

pub char_inv :
    {c pc : ℕ} {p p' s : Bytes}
    → pc ≢ b'*'
    → Takes c pc p p'
    → Matches (pc ∷ p) (c ∷ s)
    → Matches p' s
char_inv n t (star_end e m) = absurd (n e)
char_inv n t (star_more e m) = absurd (n e)
char_inv n t (take {s = s} k u m) = subst (λ q. Matches q s) (Takes_rest u t) m

pub miss_inv : {pc : ℕ} {p s : Bytes} → pc ≢ b'*' → one_char pc p s ≡ none → ¬ Matches (pc ∷ p) s
miss_inv n e (star_end k m) = n k
miss_inv n e (star_more k m) = n k
miss_inv n e (take {s = s} k t m) = cc (Takes-one_char s t, e)
