-- ===== src/Glob/Steps.antt =====
-- One round of the loop of `glob_inner`.
use meebis.Base.{
  ℕ, suc, ◌≡◌, refl, ◌≢◌, [], ◌∷◌, Option, none, some, ◌==◌, Bool-cases, inl, inr, ==_iff,
}
use meebis.Base.Bytes.{Bytes}
use meebis.Glob.{one_char, glob_inner, backtrack}

pub step_left :
    (f x : ℕ) (s : Bytes) (sp : Option Bytes) (ss : Bytes)
    → glob_inner (suc f) [] (x ∷ s) sp ss ≡ backtrack (glob_inner f) sp ss
unfolding glob_inner
step_left f x s sp ss = refl

module _ (f pc : ℕ) (p s : Bytes) (sp : Option Bytes) (ss : Bytes) where
  pub step_star : pc ≡ b'*' → glob_inner (suc f) (pc ∷ p) s sp ss ≡ glob_inner f p s (some p) s
  unfolding glob_inner
  step_star e = rw ((==_iff pc b'*').1 e)

  module _ (n : pc ≢ b'*') where
    pub step_take :
        {p' s' : Bytes}
        → one_char pc p s ≡ some (p', s')
        → glob_inner (suc f) (pc ∷ p) s sp ss ≡ glob_inner f p' s' sp ss
    unfolding glob_inner
    step_take e = elim (Bool-cases (pc == b'*')) [
      | inl y ↦ absurd (n ((==_iff pc b'*').0 y))
      | inr y ↦ rw (y, e)
    ]

    pub step_miss :
        one_char pc p s ≡ none
        → glob_inner (suc f) (pc ∷ p) s sp ss ≡ backtrack (glob_inner f) sp ss
    unfolding glob_inner
    step_miss e = elim (Bool-cases (pc == b'*')) [
      | inl y ↦ absurd (n ((==_iff pc b'*').0 y))
      | inr y ↦ rw (y, e)
    ]
