-- ===== src/Resp/Encode.antt =====
-- src/resp.rs: `Frame::encode`. A function returns the bytes that it appends. `format_double` turns
-- the bit pattern of a double into its decimal form; the code's own goes by arithmetic on doubles
-- and is an argument here.
use meebis.Base.{ℕ, suc, ◌*◌, Bool, true, false, [], ◌∷◌, ◌++◌, length, if◌then◌else◌}
use meebis.Base.Bytes.{Bytes, codes}
use meebis.Base.Utf8.{as_bytes}
use meebis.Base.Decimal.{to_string, nat_to_string}
use meebis.Resp.Frame.{
  Frame, Frames, FramePairs, simple, error, integer, bulk, null, null_array, array, map, set,
  double, pairs, push, x_read_reply, nil, cons, no_pairs, pair,
}

abbrev pub crlf : Bytes
crlf = 13 ∷ 10 ∷ []

unfoldable pub encode_header : ℕ → ℕ → Bytes
encode_header marker len = marker ∷ (nat_to_string len ++ crlf)

unfoldable pub encode_bulk : Bytes → Bytes
encode_bulk bytes = b'$' ∷ (nat_to_string (length bytes) ++ (crlf ++ (bytes ++ crlf)))

-- `Vec::len`
abbrev pub count_items : Frames → ℕ
count_items nil = 0
count_items (cons x xs) = suc (count_items xs)

abbrev pub count_pairs : FramePairs → ℕ
count_pairs no_pairs = 0
count_pairs (pair k v ps) = suc (count_pairs ps)

unfoldable pub encode_double : (ℕ → Bytes) → Bool → ℕ → Bytes
encode_double format_double resp3 d =
    if resp3 then b',' ∷ (format_double d ++ crlf) else encode_bulk (format_double d)

-- `encode_flat` writes the pairs one after the other, `encode_nested` each as an array of two.
unfoldable mutual
  unfolding encode_header encode_bulk encode_double

  pub encode : (ℕ → Bytes) → Bool → Frame → Bytes
  encode fd resp3 (simple s) = b'+' ∷ (as_bytes s ++ crlf)
  encode fd resp3 (error s) = b'-' ∷ (as_bytes s ++ crlf)
  encode fd resp3 (integer n) = b':' ∷ (to_string n ++ crlf)
  encode fd resp3 (bulk bytes) = encode_bulk bytes
  encode fd true null = codes "_\r\n"
  encode fd false null = codes "$-1\r\n"
  encode fd true null_array = codes "_\r\n"
  encode fd false null_array = codes "*-1\r\n"
  encode fd resp3 (array items) =
      encode_header b'*' (count_items items) ++ encode_items fd resp3 items
  encode fd resp3 (set items) =
      encode_header (if resp3 then b'~' else b'*') (count_items items)
      ++ encode_items fd resp3 items
  encode fd resp3 (push items) =
      encode_header (if resp3 then b'>' else b'*') (count_items items)
      ++ encode_items fd resp3 items
  encode fd true (map ps) = encode_header b'%' (count_pairs ps) ++ encode_flat fd true ps
  encode fd false (map ps) = encode_header b'*' (count_pairs ps * 2) ++ encode_flat fd false ps
  encode fd resp3 (double d) = encode_double fd resp3 d
  encode fd true (x_read_reply ps) = encode_header b'%' (count_pairs ps) ++ encode_flat fd true ps
  encode fd false (x_read_reply ps) =
      encode_header b'*' (count_pairs ps) ++ encode_nested fd false ps
  encode fd true (pairs ps) = encode_header b'*' (count_pairs ps) ++ encode_nested fd true ps
  encode fd false (pairs ps) = encode_header b'*' (count_pairs ps * 2) ++ encode_flat fd false ps

  pub encode_items : (ℕ → Bytes) → Bool → Frames → Bytes
  encode_items fd resp3 nil = []
  encode_items fd resp3 (cons x xs) = encode fd resp3 x ++ encode_items fd resp3 xs

  pub encode_flat : (ℕ → Bytes) → Bool → FramePairs → Bytes
  encode_flat fd resp3 no_pairs = []
  encode_flat fd resp3 (pair k v ps) =
      encode fd resp3 k ++ (encode fd resp3 v ++ encode_flat fd resp3 ps)

  pub encode_nested : (ℕ → Bytes) → Bool → FramePairs → Bytes
  encode_nested fd resp3 no_pairs = []
  encode_nested fd resp3 (pair k v ps) =
      codes "*2\r\n" ++ (encode fd resp3 k ++ (encode fd resp3 v ++ encode_nested fd resp3 ps))
