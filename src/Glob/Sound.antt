-- ===== src/Glob/Sound.antt =====
-- What the loop accepts is a match.
use meebis.Base.{
  ℕ, zero, suc, ◌≡◌, sym, ◌∙◌, ◌≢◌, ◌⊎◌, Bool, true, [], ◌∷◌, Option, none, some, Option-cases, inl,
  inr,
}
use mathlib.Core.Path.{subst}
use native.Mathlib.Decide.{ℕ_discrete}
use meebis.Base.Bytes.{Bytes}
use meebis.Glob.{one_char, glob_inner, backtrack}
use meebis.Glob.Tokens.{one_char-nil, one_char-Takes}
use meebis.Glob.Matches.{Matches, done, star_end, take, Return, Later-star}
use meebis.Glob.Steps.{step_star, step_take, step_miss}

-- A match of the loop is a match from here or from a later return to the last `*`.
abbrev pub Sound : (Bytes → Bytes → Option Bytes → Bytes → Option Bool) → Type 0
Sound go =
    (p s : Bytes) (sp : Option Bytes) (ss : Bytes)
    → go p s sp ss ≡ some true
    → Matches p s ⊎ Return sp ss

backtrack-Sound :
    (go : Bytes → Bytes → Option Bytes → Bytes → Option Bool) (sp : Option Bytes) (ss : Bytes)
    → Sound go
    → backtrack go sp ss ≡ some true
    → Return sp ss
unfolding backtrack
backtrack-Sound go none ss ih h = cc
backtrack-Sound go (some p) [] ih h = cc
backtrack-Sound go (some p) (y ∷ t) ih h = ih p t (some p) t h

take_sound :
    (pc : ℕ) (p s p' s' : Bytes)
    → pc ≢ b'*'
    → one_char pc p s ≡ some (p', s')
    → Matches p' s'
    → Matches (pc ∷ p) s
take_sound pc p [] p' s' n e m = cc (one_char-nil pc p)
take_sound pc p (c ∷ s) p' s' n e m =
    let (q, t) = one_char-Takes c pc p p' s s' e in take n t (subst (λ r. Matches p' r) q m)

char-Sound :
    (go : Bytes → Bytes → Option Bytes → Bytes → Option Bool) (pc : ℕ) (p s : Bytes)
    (sp : Option Bytes) (ss : Bytes)
    → Sound go
    → pc ≢ b'*'
    → (p' s' : Bytes) → one_char pc p s ≡ some (p', s')
    → go p' s' sp ss ≡ some true
    → Matches (pc ∷ p) s ⊎ Return sp ss
char-Sound go pc p s sp ss ih n p' s' e h = elim (ih p' s' sp ss h) [
  | inl m ↦ inl (take_sound pc p s p' s' n e m)
  | inr r ↦ inr r
]

pub glob_inner-Sound : (f : ℕ) → Sound (glob_inner f)
glob_inner-Sound zero p s sp ss h = unfold glob_inner in cc
glob_inner-Sound (suc f) [] [] sp ss h = inl done
glob_inner-Sound (suc f) [] (x ∷ s) sp ss h =
    inr (backtrack-Sound (glob_inner f) sp ss (glob_inner-Sound f) (unfold glob_inner in h))
glob_inner-Sound (suc f) (pc ∷ p) s sp ss h = elim (ℕ_discrete pc b'*') [
  | yes e ↦ inl (elim (glob_inner-Sound f p s (some p) s (sym (step_star f pc p s sp ss e) ∙ h)) [
    | inl m ↦ star_end e m
    | inr l ↦ Later-star s e l
  ])
  | no n ↦ elim (Option-cases (one_char pc p s)) [
    | inl e ↦ inr (
        backtrack-Sound (glob_inner f) sp ss (glob_inner-Sound f)
          (sym (step_miss f pc p s sp ss n e) ∙ h))
    | inr ((p', s'), e) ↦
        char-Sound (glob_inner f) pc p s sp ss (glob_inner-Sound f) n p' s' e
          (sym (step_take f pc p s sp ss n e) ∙ h)
  ]
]
