-- ===== src/Glob/Agree.antt =====
-- The iterative matcher of src/db.rs ends and decides the relation `Matches`.
use meebis.Base.{
  ℕ, zero, suc, ◌+◌, ◌*◌, ◌≤◌, ◌<◌, ◌≡◌, refl, ◌≢◌, ◌↔◌, Bool, true, false, [], ◌∷◌, Option, none,
  some, arith, length, Option-cases, Bool-cases, inl, inr,
}
use native.Mathlib.Decide.{ℕ_discrete}
use meebis.Base.Bytes.{Bytes}
use meebis.Glob.{one_char, glob_inner, backtrack, fuel_for, glob_match}
use meebis.Glob.Tokens.{one_char-nil, one_char-Takes, Takes-length}
use meebis.Glob.Matches.{Matches}
use meebis.Glob.Steps.{step_left, step_star, step_take, step_miss}
use meebis.Glob.Sound.{glob_inner-Sound}
use meebis.Glob.Complete.{glob_inner-Complete}

-- What the fuel has to cover: every byte that a return can still pass, each with a whole pattern.
abbrev Fits : ℕ → ℕ → Bytes → Bytes → Option Bytes → Bytes → Type 0
Fits f n p s none ss = (length s * (n + 1) + length p < f) × (length p ≤ n)
Fits f n p s (some q) ss =
    (length ss * (n + 1) + length p < f) × (length p ≤ n) × (length q ≤ n) × (length s ≤ length ss)

abbrev Ends : ℕ → Type 0
Ends f =
    (n : ℕ) (p s : Bytes) (sp : Option Bytes) (ss : Bytes)
    → Fits f n p s sp ss
    → glob_inner f p s sp ss ≢ none

backtrack-Ends :
    (f n : ℕ) (p s : Bytes) (sp : Option Bytes) (ss : Bytes)
    → Ends f
    → Fits (suc f) n p s sp ss
    → backtrack (glob_inner f) sp ss ≢ none
unfolding backtrack
backtrack-Ends f n p s none ss ih h = λ e. cc
backtrack-Ends f n p s (some q) [] ih h = λ e. cc
backtrack-Ends f n p s (some q) (y ∷ t) ih h = ih n q t (some q) t (grind arith)

star_Fits :
    (f n pc : ℕ) (p s : Bytes) (sp : Option Bytes) (ss : Bytes)
    → Fits (suc f) n (pc ∷ p) s sp ss
    → Fits f n p s (some p) s
star_Fits f n pc p s none ss h = omega arith
star_Fits f n pc p s (some q) ss h = grind arith

take_Fits :
    (f n pc c : ℕ) (p p' s : Bytes) (sp : Option Bytes) (ss : Bytes)
    → length p' ≤ length p
    → Fits (suc f) n (pc ∷ p) (c ∷ s) sp ss
    → Fits f n p' s sp ss
take_Fits f n pc c p p' s none ss l h = grind arith
take_Fits f n pc c p p' s (some q) ss l h = omega arith

take-Ends :
    (f n pc : ℕ) (p s : Bytes) (sp : Option Bytes) (ss : Bytes)
    → Ends f
    → (p' s' : Bytes) → one_char pc p s ≡ some (p', s')
    → Fits (suc f) n (pc ∷ p) s sp ss
    → glob_inner f p' s' sp ss ≢ none
take-Ends f n pc p [] sp ss ih p' s' e h = cc (one_char-nil pc p)
take-Ends f n pc p (c ∷ s) sp ss ih p' s' e h =
    let (q, t) = one_char-Takes c pc p p' s s' e in
    rw q (ih n p' s sp ss (take_Fits f n pc c p p' s sp ss (Takes-length t) h))

glob_inner-Ends : (f : ℕ) → Ends f
glob_inner-Ends zero n p s none ss h = absurd (omega arith)
glob_inner-Ends zero n p s (some q) ss h = absurd (omega arith)
glob_inner-Ends (suc f) n [] [] sp ss h = unfold glob_inner in λ e. cc
glob_inner-Ends (suc f) n [] (x ∷ s) sp ss h =
    rw (step_left f x s sp ss) (backtrack-Ends f n [] (x ∷ s) sp ss (glob_inner-Ends f) h)
glob_inner-Ends (suc f) n (pc ∷ p) s sp ss h = elim (ℕ_discrete pc b'*') [
  | yes e ↦
      rw (step_star f pc p s sp ss e)
        (glob_inner-Ends f n p s (some p) s (star_Fits f n pc p s sp ss h))
  | no k ↦ elim (Option-cases (one_char pc p s)) [
    | inl e ↦
        rw (step_miss f pc p s sp ss k e)
          (backtrack-Ends f n (pc ∷ p) s sp ss (glob_inner-Ends f) h)
    | inr ((p', s'), e) ↦
        rw (step_take f pc p s sp ss k e) (take-Ends f n pc p s sp ss (glob_inner-Ends f) p' s' e h)
  ]
]

-- The loop ends on every pattern and text within its fuel.
pub glob_inner-ne-none :
    (pattern s : Bytes) → glob_inner (fuel_for pattern s) pattern s none [] ≢ none
glob_inner-ne-none pattern s =
    glob_inner-Ends (fuel_for pattern s) (length pattern) pattern s none [] (omega arith)

true_result :
    (o : Option Bool) → o ≢ none → elim o [ some b ↦ b | none ↦ false ] ≡ true → o ≡ some true
true_result none h e = absurd (h refl)
true_result (some true) h e = refl
true_result (some false) h e = cc

false_result :
    (o : Option Bool) → o ≢ none → elim o [ some b ↦ b | none ↦ false ] ≡ false → o ≡ some false
false_result none h e = absurd (h refl)
false_result (some true) h e = cc
false_result (some false) h e = refl

-- `glob_match` answers true exactly on the texts that the pattern matches.
pub glob_match_iff : (pattern s : Bytes) → (glob_match pattern s ≡ true) ↔ Matches pattern s
unfolding glob_match
glob_match_iff pattern s = (accepts, rejects)
  where
    accepts : glob_match pattern s ≡ true → Matches pattern s
    accepts h =
        elim (glob_inner-Sound (fuel_for pattern s) pattern s none []
          (true_result _ (glob_inner-ne-none pattern s) h)) [ inl m ↦ m | inr r ↦ absurd r ]

    rejects : Matches pattern s → glob_match pattern s ≡ true
    rejects m = elim (Bool-cases (glob_match pattern s)) [
      | inl h ↦ h
      | inr h ↦ absurd (
          (glob_inner-Complete (fuel_for pattern s) pattern s none [] (λ r. absurd r)
              (false_result _ (glob_inner-ne-none pattern s) h)).0
            m)
    ]
