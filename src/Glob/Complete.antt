-- ===== src/Glob/Complete.antt =====
-- What the loop rejects is no match: keeping only the last `*` as a point of return loses nothing.
use meebis.Base.{
  ℕ, zero, suc, ◌≡◌, sym, ◌∙◌, ◌≢◌, Bool, false, [], ◌∷◌, Option, none, some, Option-cases, inl,
  inr,
}
use native.Mathlib.Decide.{ℕ_discrete}
use meebis.Base.Bytes.{Bytes}
use meebis.Glob.{one_char, glob_inner, backtrack}
use meebis.Glob.Tokens.{Takes, one_char-nil, one_char-Takes}
use meebis.Glob.Matches.{
  Matches, Later, Return, Later_whole, take_inv, Later-step, star_inv, char_inv, miss_inv,
}
use meebis.Glob.Steps.{step_star, step_take, step_miss}

-- A failure of the loop excludes both, as long as what the last `*` could still match is among what
-- the rest of the pattern could match later.
abbrev pub Complete : (Bytes → Bytes → Option Bytes → Bytes → Option Bool) → Type 0
Complete go =
    (p s : Bytes) (sp : Option Bytes) (ss : Bytes)
    → (Return sp ss → Later p s)
    → go p s sp ss ≡ some false
    → ¬ Matches p s × ¬ Return sp ss

backtrack-Complete :
    (go : Bytes → Bytes → Option Bytes → Bytes → Option Bool) (sp : Option Bytes) (ss : Bytes)
    → Complete go
    → backtrack go sp ss ≡ some false
    → ¬ Return sp ss
unfolding backtrack
backtrack-Complete go none ss ih h r = r
backtrack-Complete go (some p) [] ih h r = r
backtrack-Complete go (some p) (y ∷ t) ih h (inl m) = (ih p t (some p) t (λ l. l) h).0 m
backtrack-Complete go (some p) (y ∷ t) ih h (inr l) = (ih p t (some p) t (λ k. k) h).1 l

char-Complete :
    (go : Bytes → Bytes → Option Bytes → Bytes → Option Bool) (pc : ℕ) (p s : Bytes)
    (sp : Option Bytes) (ss : Bytes)
    → Complete go
    → pc ≢ b'*'
    → (Return sp ss → Later (pc ∷ p) s)
    → (p' s' : Bytes) → one_char pc p s ≡ some (p', s')
    → go p' s' sp ss ≡ some false
    → ¬ Matches (pc ∷ p) s × ¬ Return sp ss
char-Complete go pc p [] sp ss ih n inv p' s' e h = cc (one_char-nil pc p)
char-Complete go pc p (c ∷ s) sp ss ih n inv p' s' e h =
    let (q, t) = one_char-Takes c pc p p' s s' e in
    let h' : go p' s sp ss ≡ some false = rw (← q) h in
    let later : Return sp ss → Later p' s = λ r. later_of (inv r) t in
    let (no_match, no_return) = ih p' s sp ss later h' in
    (λ m. no_match (char_inv n t m), no_return)
  where
    later_of : Later (pc ∷ p) (c ∷ s) → Takes c pc p p' → Later p' s
    later_of (inl m) t = take_inv n t m
    later_of (inr l) t = Later-step s n t l

pub glob_inner-Complete : (f : ℕ) → Complete (glob_inner f)
glob_inner-Complete zero p s sp ss inv h = unfold glob_inner in cc
glob_inner-Complete (suc f) [] [] sp ss inv h = unfold glob_inner in cc
glob_inner-Complete (suc f) [] (x ∷ s) sp ss inv h = (
  λ m. elim m [ ],
  backtrack-Complete (glob_inner f) sp ss (glob_inner-Complete f) (unfold glob_inner in h),
)
glob_inner-Complete (suc f) (pc ∷ p) s sp ss inv h = elim (ℕ_discrete pc b'*') [
  | yes e ↦
      let (no_match, no_later) =
        glob_inner-Complete f p s (some p) s (λ l. l) (sym (step_star f pc p s sp ss e) ∙ h) in
      let none_here : ¬ Matches (pc ∷ p) s =
        λ m. elim (star_inv e m) [ inl k ↦ no_match k | inr l ↦ no_later l ] in
      (none_here, λ r. none_here (Later_whole s e (inv r)))
  | no n ↦ elim (Option-cases (one_char pc p s)) [
    | inl e ↦ (
      miss_inv n e,
      backtrack-Complete (glob_inner f) sp ss (glob_inner-Complete f)
          (sym (step_miss f pc p s sp ss n e) ∙ h),
    )
    | inr ((p', s'), e) ↦
        char-Complete (glob_inner f) pc p s sp ss (glob_inner-Complete f) n inv p' s' e
          (sym (step_take f pc p s sp ss n e) ∙ h)
  ]
]
