-- ===== src/Session/Dispatch/Answers.antt =====
-- src/commands/mod.rs: the handlers of the command table, and whether they reply or panic.
use meebis.Base.{
  ℕ, ◌+◌, ◌^◌, ◌<◌, ◌≡◌, refl, Bool, true, false, List, [], ◌∷◌, Option, none, some, if◌then◌else◌,
  length,
}
use meebis.Base.Bytes.{Bytes}
use meebis.Base.Int.{pos}
use meebis.Resp.Frame.{Frame}
use meebis.Db.{Db}
use meebis.Commands.Args.{go, parse_int, is_word}
use meebis.Commands.Strings.Range.{setrange}
use meebis.Commands.Strings.Range.Limit.{patch_key-answers}
use meebis.Session.Dispatch.{
  Handler, TotalHandler, total, Table, route, handler_of, strings, bitmaps, generic, hashes, lists,
  sets, db_handler,
}

-- The handler replies, on any database.
unfoldable pub Answers : ℕ → List Bytes → Handler → Type 0
Answers now args h = (db : Db) → (r : Db × Frame) × (h now db args ≡ some r)

unfoldable pub MayAnswer : ℕ → List Bytes → Option Handler → Type 0
MayAnswer now args none = Unit
MayAnswer now args (some h) = Answers now args h

-- A SETRANGE does not reach past what a buffer can hold.
abbrev pub InReach : List Bytes → Type 0
InReach (name ∷ key ∷ a ∷ patch ∷ []) =
    (offset : ℕ)
    → is_word name "SETRANGE" ≡ true
    → parse_int a ≡ go (pos offset)
    → offset + length patch < 2 ^ 63
InReach _ = Unit

setrange-Answers :
    (now : ℕ) (name : Bytes) (args : List Bytes)
    → is_word name "SETRANGE" ≡ true
    → InReach (name ∷ args)
    → Answers now (name ∷ args) setrange
unfolding Answers setrange
setrange-Answers now name (key ∷ a ∷ patch ∷ []) w h db =
    patch_key-answers now db key patch (parse_int a) (λ n e. h n w e)
setrange-Answers now name _ w h db = (_, refl)

module _ (now : ℕ) (args : List Bytes) where
  total-Answers : (h : TotalHandler) → Answers now args (total h)
  unfolding Answers
  total-Answers h db = (h now db args, refl)

  if-MayAnswer :
      (b : Bool) (x y : Option Handler)
      → (b ≡ true → MayAnswer now args x)
      → MayAnswer now args y
      → MayAnswer now args (if b then x else y)
  if-MayAnswer true x y h k = h refl
  if-MayAnswer false x y h k = k

  total-MayAnswer :
      (b : Bool) (h : TotalHandler) (after : Option Handler)
      → MayAnswer now args after
      → MayAnswer now args (if b then some (total h) else after)
  unfolding MayAnswer
  total-MayAnswer b h after k = if-MayAnswer b (some (total h)) after (λ e. total-Answers h) k

  route-MayAnswer :
      (table : Table) (name : Bytes) (after : Option Handler)
      → MayAnswer now args after
      → MayAnswer now args (route table name after)
  unfolding route
  route-MayAnswer [] name after k = k
  route-MayAnswer ((w, h) ∷ table) name after k =
      total-MayAnswer (is_word name w) h (route table name after)
        (route-MayAnswer table name after k)

pub db_handler-MayAnswer :
    (now : ℕ) (name : Bytes) (args : List Bytes)
    → InReach (name ∷ args)
    → MayAnswer now (name ∷ args) (db_handler name)
unfolding db_handler handler_of MayAnswer
db_handler-MayAnswer now name args h =
    let every : List Bytes = name ∷ args in
    let last : MayAnswer now every (if is_word name "SETRANGE" then some setrange else none) =
      if-MayAnswer now every (is_word name "SETRANGE") (some setrange) none
        (λ e. setrange-Answers now name args e h) tt in
    let routed = route-MayAnswer now every strings name _ (
      route-MayAnswer now every bitmaps name _ (
        route-MayAnswer now every generic name _ (
          route-MayAnswer now every hashes name _ (
            route-MayAnswer now every lists name _
              (route-MayAnswer now every sets name _ last))))) in
    total-MayAnswer now every (is_word name "DBSIZE") _ _ (
      total-MayAnswer now every (is_word name "FLUSHDB") _ _ (
        total-MayAnswer now every (is_word name "PING") _ _ (
          total-MayAnswer now every (is_word name "ECHO") _ _
            (total-MayAnswer now every (is_word name "WAIT") _ _ routed))))
