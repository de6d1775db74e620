-- ===== src/Glob/Tokens.antt =====
-- One pattern element against one byte: what `one_char` accepts, and that the pattern which is left
-- does not depend on the byte.
use meebis.Base.{
  ℕ, ◌≤◌, ◌≡◌, refl, sym, ◌∙◌, ◌≢◌, true, [], ◌∷◌, Option, none, some, arith, ◌==◌, if◌then◌else◌,
  length, Option-cases, inl, inr,
}
use mathlib.Core.Path.{subst}
use native.Mathlib.Decide.{ℕ_discrete}
use meebis.Base.Bytes.{Bytes}
use meebis.Glob.{match_class, one_char}
use meebis.Glob.Class.{rest_of, match_class_rest, match_class-length, match_class-unmatched}

-- What one element of a pattern, with head `pc` and the rest `p`, may be, the byte `c` that it
-- accepts, and the pattern after it.
pub data Takes (c pc : ℕ) : Bytes → Bytes → Type 0 where
  any_byte : (p : Bytes) → pc ≡ b'?' → Takes c pc p p
  class : (p p' : Bytes) → pc ≡ b'[' → match_class p (some c) ≡ some (true, p') → Takes c pc p p'
  unclosed : (p : Bytes) → pc ≡ b'[' → match_class p (some c) ≡ none → c ≡ b'[' → Takes c pc p p
  quoted : (d : ℕ) (p : Bytes) → pc ≡ b'\\' → c ≡ d → Takes c pc (d ∷ p) p
  lone : pc ≡ b'\\' → c ≡ b'\\' → Takes c pc [] []
  plain : (p : Bytes) → pc ≢ b'?' → pc ≢ b'[' → pc ≢ b'\\' → c ≡ pc → Takes c pc p p

-- On an empty text every element but `*` fails.
pub one_char-nil : (pc : ℕ) (p : Bytes) → one_char pc p [] ≡ none
unfolding one_char
one_char-nil pc [] = ground (arith, match_class-unmatched [])
one_char-nil pc (d ∷ p) = ground (arith, match_class-unmatched (d ∷ p))

pub Takes-one_char :
    {c pc : ℕ} {p p' : Bytes} (s : Bytes) → Takes c pc p p' → one_char pc p (c ∷ s) ≡ some (p', s)
unfolding one_char
Takes-one_char s (any_byte p e) = ground arith
Takes-one_char s (class p p' e m) = ground arith
Takes-one_char s (unclosed p e m k) = ground arith
Takes-one_char s (quoted d p e k) = ground arith
Takes-one_char s (lone e k) = ground arith
Takes-one_char s (plain p e f g k) = ground arith

Takes_to : {c pc : ℕ} {p q q' : Bytes} → q ≡ q' → Takes c pc p q → Takes c pc p q'
Takes_to {c} {pc} {p} e t = subst (λ r. Takes c pc p r) e t

literal-Takes :
    (c pc : ℕ) (p p' s s' : Bytes)
    → pc ≢ b'?'
    → pc ≢ b'['
    → pc ≢ b'\\'
    → one_char pc p (c ∷ s) ≡ some (p', s')
    → Takes c pc p p'
unfolding one_char
literal-Takes c pc p p' s s' a b d h =
    let e : (c ≡ pc) × (p ≡ p') = (ground arith, ground arith) in Takes_to e.1 (plain p a b d e.0)

escaped-Takes :
    (c : ℕ) (p p' s s' : Bytes) → one_char b'\\' p (c ∷ s) ≡ some (p', s') → Takes c b'\\' p p'
unfolding one_char
escaped-Takes c [] p' s s' h =
    let e : (c ≡ b'\\') × ([] ≡ p') = (ground arith, ground arith) in Takes_to e.1 (lone refl e.0)
escaped-Takes c (d ∷ p) p' s s' h =
    let e : (c ≡ d) × (p ≡ p') = (ground arith, ground arith) in Takes_to e.1 (quoted d p refl e.0)

bracket-Takes :
    (c : ℕ) (p p' s s' : Bytes) → one_char b'[' p (c ∷ s) ≡ some (p', s') → Takes c b'[' p p'
unfolding one_char
bracket-Takes c p p' s s' h = elim (Option-cases (match_class p (some c))) [
  | inl m ↦
      let e : (c ≡ b'[') × (p ≡ p') = (ground arith, ground arith) in
      Takes_to e.1 (unclosed p refl m e.0)
  | inr ((b, rest), m) ↦
      let e : (b ≡ true) × (rest ≡ p') = (ground arith, ground arith) in
      class p p' refl (cc (m, e.0, e.1))
]

-- What `one_char` accepts is an element of the pattern, and it takes one byte of the text.
pub one_char-Takes :
    (c pc : ℕ) (p p' s s' : Bytes)
    → one_char pc p (c ∷ s) ≡ some (p', s')
    → (s' ≡ s) × Takes c pc p p'
one_char-Takes c pc p p' s s' h = (
  unfold one_char in ground arith,
  elim (ℕ_discrete pc b'[') [
    | yes e ↦ rw e (bracket-Takes c p p' s s' (rw e at h))
    | no b ↦ elim (ℕ_discrete pc b'\\') [
      | yes e ↦ rw e (escaped-Takes c p p' s s' (rw e at h))
      | no d ↦ elim (ℕ_discrete pc b'?') [
        | yes e ↦ Takes_to {q = p} (unfold one_char in ground arith) (any_byte p e)
        | no a ↦ literal-Takes c pc p p' s s' a b d h
      ]
    ]
  ],
)

abbrev rest_or : Bytes → Option Bytes → Bytes
rest_or p none = p
rest_or p (some r) = r

abbrev behind : Bytes → Bytes
behind [] = []
behind (d ∷ p) = p

-- The pattern after the element, with no byte in sight.
abbrev after : ℕ → Bytes → Bytes
after pc p =
    if pc == b'['
    then rest_or p (rest_of (match_class p none))
    else if pc == b'\\'
    then behind p
    else p

Takes-after : {c pc : ℕ} {p q : Bytes} → Takes c pc p q → q ≡ after pc p
Takes-after (any_byte p e) = ground arith
Takes-after {c} (class p p' e m) = ground (arith, match_class_rest p none (some c))
Takes-after {c} (unclosed p e m k) = ground (arith, match_class_rest p none (some c))
Takes-after (quoted d p e k) = ground arith
Takes-after (lone e k) = ground arith
Takes-after (plain p e f g k) = ground arith

-- What is left of the pattern does not depend on the byte.
pub Takes_rest : {c d pc : ℕ} {p q r : Bytes} → Takes c pc p q → Takes d pc p r → q ≡ r
Takes_rest t u = Takes-after t ∙ sym (Takes-after u)

pub Takes-length : {c pc : ℕ} {p p' : Bytes} → Takes c pc p p' → length p' ≤ length p
Takes-length (any_byte p e) = omega arith
Takes-length (class p p' e m) = match_class-length p _ _ p' m
Takes-length (unclosed p e m k) = omega arith
Takes-length (quoted d p e k) = omega arith
Takes-length (lone e k) = omega arith
Takes-length (plain p e f g k) = omega arith
