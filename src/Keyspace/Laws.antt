-- ===== src/Keyspace/Laws.antt =====
-- Pairs and swaps of the numbered databases, through their indices.
use meebis.Base.{
  ℕ, zero, suc, ◌<◌, ◌≤◌, ◌≡◌, ◌≢◌, refl, ◌∙◌, true, [], ◌∷◌, Option, none, some, arith, ◌==◌,
  if◌then◌else◌, length, get_elem?, length-set, get_elem?-set_self, get_elem?-set_ne, take, drop,
  Bool-cases, inl, inr, ==_iff,
}
use meebis.Base.Bytes.{Bytes}
use meebis.Db.{Db, Entry}
use meebis.Db.View.{view}
use meebis.Keyspace
use meebis.Keyspace.{Keyspace, put_db, both, halves, pair, swap, swapped}

get_elem?-take : (n i : ℕ) (ks : Keyspace) → i < n → get_elem? (take n ks) i ≡ get_elem? ks i
get_elem?-take zero i ks h = absurd (omega arith)
get_elem?-take (suc n) i [] h = refl
get_elem?-take (suc n) zero (d ∷ ks) h = refl
get_elem?-take (suc n) (suc i) (d ∷ ks) h = get_elem?-take n i ks (omega arith)

get_elem?-drop : (n : ℕ) (ks : Keyspace) → get_elem? (drop n ks) 0 ≡ get_elem? ks n
get_elem?-drop zero ks = refl
get_elem?-drop (suc n) [] = refl
get_elem?-drop (suc n) (d ∷ ks) = get_elem?-drop n ks

pub get_elem?-end : (ks : Keyspace) (n : ℕ) → length ks ≤ n → get_elem? ks n ≡ none
get_elem?-end [] n h = refl
get_elem?-end (d ∷ ks) zero h = absurd (omega arith)
get_elem?-end (d ∷ ks) (suc n) h = get_elem?-end ks n (omega arith)

both-none : (o : Option Db) → both o none ≡ none
unfolding both
both-none none = refl
both-none (some d) = refl

-- The halves at the greater index give what stands at both.
pub pair_lem :
    (ks : Keyspace) (a b : ℕ) → a ≢ b → pair ks a b ≡ both (Keyspace.db ks a) (Keyspace.db ks b)
unfolding pair Keyspace.db halves both
pair_lem ks a b n = ground (
  arith,
  ==_iff a b,
  get_elem?-take b a ks,
  get_elem?-take a b ks,
  get_elem?-drop a ks,
  get_elem?-drop b ks,
  get_elem?-end ks a,
  get_elem?-end ks b,
  both-none (get_elem? ks a),
)

pub present : (ks : Keyspace) (i : ℕ) → i < length ks → (d : Db) × (Keyspace.db ks i ≡ some d)
unfolding Keyspace.db
present [] i h = absurd (omega arith)
present (d ∷ ks) zero h = (d, refl)
present (d ∷ ks) (suc i) h = present ks i (omega arith)

pub pair-some :
    (ks : Keyspace) (a b : ℕ) (x y : Db)
    → a ≢ b
    → Keyspace.db ks a ≡ some x
    → Keyspace.db ks b ≡ some y
    → pair ks a b ≡ some (x, y)
pair-some ks a b x y n p q = pair_lem ks a b n ∙ rw (p, q) (unfold both in refl)

pub length-put_db : (ks : Keyspace) (i : ℕ) (d : Db) → length (put_db ks i d) ≡ length ks
length-put_db ks i d = length-set ks i d

-- A write at an index of the keyspace, read at each index.
pub db-put_db :
    (ks : Keyspace) (i j : ℕ) (d : Db)
    → i < length ks
    → Keyspace.db (put_db ks i d) j ≡ (if i == j then some d else Keyspace.db ks j)
unfolding Keyspace.db
db-put_db ks i j d h = elim (Bool-cases (i == j)) [
  | inl y ↦ let same : i ≡ j = (==_iff i j).0 y in rw (y, ← same) (get_elem?-set_self ks i d h)
  | inr n ↦ rw n (get_elem?-set_ne ks d (λ e. cc (n, (==_iff i j).1 e)))
]

swap-some :
    (ks : Keyspace) (a b : ℕ) (x y : Db)
    → Keyspace.db ks a ≡ some x
    → Keyspace.db ks b ≡ some y
    → swap ks a b ≡ some (put_db (put_db ks a y) b x)
unfolding swap swapped Keyspace.db
swap-some ks a b x y p q = rw (p, q)

-- Both indices name databases: each is then seen at the other index, and the rest as before.
pub swap_lem :
    (ks : Keyspace) (a b : ℕ)
    → a < length ks
    → b < length ks
    → (ks' : Keyspace) × (swap ks a b ≡ some ks')
      × (length ks' ≡ length ks)
      × ((j : ℕ)
          → Keyspace.db ks' j ≡ (
              if b == j
              then Keyspace.db ks a
              else if a == j
              then Keyspace.db ks b
              else Keyspace.db ks j))
swap_lem ks a b h k =
    let (x, p) = present ks a h in
    let (y, q) = present ks b k in
    let ks1 : Keyspace = put_db ks a y in
    let in_range : b < length ks1 = omega (arith, length-put_db ks a y) in
    (
      put_db ks1 b x,
      swap-some ks a b x y p q,
      length-put_db ks1 b x ∙ length-put_db ks a y,
      λ j. rw (db-put_db ks1 b j x in_range, db-put_db ks a j y h, p, q),
    )

abbrev pub view_in : ℕ → Option Db → Bytes → Option Entry
view_in now none k = none
view_in now (some d) k = view now d k

-- What a client sees in each database, at each key.
abbrev pub seen : ℕ → Keyspace → ℕ → Bytes → Option Entry
seen now ks i k = view_in now (Keyspace.db ks i) k

pub seen-put_db :
    (now : ℕ) (ks : Keyspace) (i j : ℕ) (k : Bytes) (d : Db)
    → i < length ks
    → seen now (put_db ks i d) j k ≡ (if i == j then view now d k else seen now ks j k)
seen-put_db now ks i j k d h = rw (db-put_db ks i j d h) (ground arith)

pub seen-some :
    (now : ℕ) (ks : Keyspace) (i n : ℕ) (k : Bytes) (x : Db)
    → Keyspace.db ks i ≡ some x
    → (i == n) ≡ true
    → seen now ks n k ≡ view now x k
seen-some now ks i n k x p e = let same : i ≡ n = (==_iff i n).0 e in rw (← same, p)

module _ (now : ℕ) (ks : Keyspace) (i : ℕ) (x : Db) where
  -- A database whose view is what it was can be put back.
  pub put_back :
      (d : Db) (n : ℕ) (k : Bytes)
      → i < length ks
      → Keyspace.db ks i ≡ some x
      → view now d k ≡ view now x k
      → seen now (put_db ks i d) n k ≡ seen now ks n k
  put_back d n k h p e = elim (Bool-cases (i == n)) [
    | inl y ↦ seen-put_db now ks i n k d h ∙ rw (y, e, seen-some now ks i n k x p y)
    | inr f ↦ seen-put_db now ks i n k d h ∙ rw f
  ]
