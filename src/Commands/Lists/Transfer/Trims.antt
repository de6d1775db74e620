-- ===== src/Commands/Lists/Transfer/Trims.antt =====
-- LTRIM leaves what LRANGE returns.
use meebis.Base.{
  ℕ, ◌-◌, ◌≡◌, refl, ◌∙◌, false, List, [], ◌∷◌, Option, none, some, arith, if◌then◌else◌, length,
  ltb,
}
use meebis.Base.Bytes.{Bytes, bytes_eq}
use meebis.Base.Int.{ℤ, pos, negsuc, pos_part}
use meebis.Resp.Frame.{Frame, ok}
use meebis.Db.{Db, list, value_of}
use meebis.Db.Typed.{typed, get_list}
use meebis.Db.View.{view}
use meebis.Db.Purged.{get_list_result, view-get_list, get_list-IsPurged}
use meebis.Db.Writes.{rewritten, view-remove_if_empty}
use meebis.Commands.Args.{go, parse_int, norm_index}
use meebis.Commands.Lists.{clamp, clamp_to, between, list_range}
use meebis.Commands.Lists.Ranges.{cut-between}
use meebis.Commands.Lists.Transfer.{cut, trimmed, trim_to, ltrim}

none-between : (l : List Bytes) → cut l none ≡ between l none
unfolding cut between
none-between l = refl

some-between :
    (l : List Bytes) (start stop : ℕ)
    → ltb stop start ≡ false
    → cut l (some (start, stop)) ≡ between l (some (start, stop))
unfolding cut
some-between l start stop h = cut-between l start stop (ground arith)

cut-clamp_to :
    (l : List Bytes) (start : ℕ) (b : ℤ)
    → cut l (clamp_to start (length l) b) ≡ between l (clamp_to start (length l) b)
unfolding clamp_to
cut-clamp_to l start (negsuc s) = none-between l
cut-clamp_to l start (pos s) =
    ground (arith, none-between l, some-between l start (length l - 1), some-between l start s)

trimmed-list_range : (a b : ℤ) (l : List Bytes) → trimmed a b l ≡ list_range a b l
unfolding trimmed list_range clamp
trimmed-list_range a b l =
    cut-clamp_to l (pos_part (norm_index a (length l))) (norm_index b (length l))

-- LTRIM on a visible list replies OK. The list then holds just the elements that LRANGE returns for the
-- same indices, with its expiry kept, or is gone where there are none; every other key is as before.
pub ltrim_lem :
    (now : ℕ) (db : Db) (command key a b : Bytes) (start stop : ℤ) (l : List Bytes) (t : Option ℕ)
    → view now db key ≡ some (record { value = list l; expire_at = t })
    → parse_int a ≡ go start
    → parse_int b ≡ go stop
    → let run : Db × Frame = ltrim now db (command ∷ key ∷ a ∷ b ∷ []) in
      (run.1 ≡ ok)
      × ((j : Bytes)
          → view now run.0 j ≡ (
              if bytes_eq key j
              then rewritten (list (list_range start stop l)) (view now db key)
              else view now db j))
unfolding ltrim trim_to
ltrim_lem now db command key a b start stop l t p q r =
    let found : (get_list now db key).1 ≡ typed (some l) =
      get_list_result now db key ∙ rw p (unfold value_of in refl) in
    let db1 : Db = (get_list now db key).0 in
    rw (q, r, found, ← trimmed-list_range start stop l)
      (
        refl,
        λ j.
            view-remove_if_empty now db1 key (list (trimmed start stop l)) j
              (get_list-IsPurged now db key)
            ∙ rw (view-get_list now db key key, view-get_list now db key j),
      )
