-- ===== src/Commands/Bits/Outcome.antt =====
-- src/commands/bitops.rs: SETBIT and what GETBIT replies after it.
use meebis.Base.{ℕ, ◌<◌, ◌≡◌, refl, ◌∙◌, ap, [], ◌∷◌, Option, some, lt→ltb, if◌then◌else◌, ◌==◌}
use meebis.Base.Bytes.{Bytes, bytes_eq, bytes_eq_refl}
use meebis.Base.Int.{pos}
use meebis.Resp.Frame.{Frame, count}
use meebis.Db.{Db, Entry, string, value_of, expiry_of}
use meebis.Db.Typed.{typed, get_str, as_str}
use meebis.Db.View.{view}
use meebis.Db.Purged.{view-set_keep_ttl, get_str_result, view-get_str, get_str-IsPurged}
use meebis.Commands.Args.{go, parse_int}
use meebis.Commands.Strings.{bytes_or_empty}
use meebis.Commands.Bits.{
  get_bit, set_bit, offset_arg, bit_arg, write_bit, setbit, getbit, bit_reply, max_bit_offset,
}
use meebis.Commands.Bits.Bytewise.{AllBytes, get_bit-set_bit, old_bit_lem}

offset_arg_lem :
    (n : ℕ) (a : Bytes)
    → parse_int a ≡ go (pos n)
    → n < max_bit_offset
    → offset_arg (parse_int a) ≡ go n
unfolding offset_arg
offset_arg_lem n a p h = rw (p, lt→ltb n max_bit_offset h) refl

bit_arg_lem :
    (e : Frame) (v : ℕ) (b : Bytes)
    → parse_int b ≡ go (pos v)
    → v < 2
    → bit_arg e (parse_int b) ≡ go v
unfolding bit_arg
bit_arg_lem e v b p h = rw (p, lt→ltb v 2 h) refl

-- The entry that SETBIT leaves.
abbrev pub bit_entry : Bytes → ℕ → ℕ → Option Entry → Option Entry
bit_entry s n v old = some (record { value = string (set_bit s n v); expire_at = expiry_of old })

write_bit_lem :
    (now : ℕ) (db : Db) (key : Bytes) (n v : ℕ) (o : Option Bytes)
    → as_str (value_of (view now db key)) ≡ typed o
    → AllBytes (bytes_or_empty o)
    → ((write_bit now db key n v).1 ≡ count (get_bit (bytes_or_empty o) n))
      × ((j : Bytes)
          → view now (write_bit now db key n v).0 j ≡ (
              if bytes_eq key j
              then bit_entry (bytes_or_empty o) n v (view now db key)
              else view now db j))
unfolding write_bit
write_bit_lem now db key n v o h a = (
  rw (get_str_result now db key, h) (ap count (old_bit_lem (bytes_or_empty o) n a)),
  λ j.
      rw (get_str_result now db key, h)
        (view-set_keep_ttl now (get_str now db key).0 key _ j (get_str-IsPurged now db key)
          ∙ rw (view-get_str now db key key, view-get_str now db key j) refl),
)

getbit_lem :
    (now : ℕ) (db : Db) (command key a : Bytes) (m : ℕ) (s : Bytes)
    → parse_int a ≡ go (pos m)
    → m < max_bit_offset
    → as_str (value_of (view now db key)) ≡ typed (some s)
    → (getbit now db (command ∷ key ∷ a ∷ [])).1 ≡ count (get_bit s m)
unfolding getbit bit_reply
getbit_lem now db command key a m s p l h =
    rw (offset_arg_lem m a p l, get_str_result now db key, h) refl

-- SETBIT of a bit within the limit, on a string or a missing key: the reply is the old bit, the string
-- has the new one and keeps its expiry, and no other key changes. After it GETBIT, of any bit within
-- the limit, replies with the new bit at its place and with the old one elsewhere.
pub setbit_lem :
    (now : ℕ) (db : Db) (command key a b a' : Bytes) (n v m : ℕ) (o : Option Bytes)
    → parse_int a ≡ go (pos n)
    → n < max_bit_offset
    → parse_int b ≡ go (pos v)
    → v < 2
    → parse_int a' ≡ go (pos m)
    → m < max_bit_offset
    → as_str (value_of (view now db key)) ≡ typed o
    → AllBytes (bytes_or_empty o)
    → let (db', reply) = setbit now db (command ∷ key ∷ a ∷ b ∷ []) in
      (reply ≡ count (get_bit (bytes_or_empty o) n))
      × ((j : Bytes)
          → view now db' j ≡ (
              if bytes_eq key j
              then bit_entry (bytes_or_empty o) n v (view now db key)
              else view now db j))
      × ((getbit now db' (command ∷ key ∷ a' ∷ [])).1
          ≡ count (if n == m then v else get_bit (bytes_or_empty o) m))
unfolding setbit
setbit_lem now db command key a b a' n v m o p l q u p' l' h all =
    let (reply, sees) = write_bit_lem now db key n v o h all in
    rw (offset_arg_lem n a p l, bit_arg_lem _ v b q u)
      (
        reply,
        sees,
        getbit_lem now (write_bit now db key n v).0 command key a' m
              (set_bit (bytes_or_empty o) n v) p' l'
              (rw (sees key, bytes_eq_refl key) (unfold value_of in refl))
            ∙ ap count (get_bit-set_bit (bytes_or_empty o) n m v all u),
      )
