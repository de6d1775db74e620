-- ===== src/Resp/Tests.antt =====
-- Instances of the theorems about the protocol, and the unit tests of src/resp.rs.
use meebis.Base.{◌^◌, ◌≡◌, ◌≢◌, refl, ◌++◌, [], ◌∷◌, List, true, arith, ℕ}
use meebis.Base.Bytes.{Bytes, codes}
use meebis.Base.Int.{pos}
use meebis.Base.Decimal.{nat_to_string, parse_i64, to_string}
use meebis.Resp.Frame.{array, bulks, map, bulk, integer, pair, no_pairs}
use meebis.Resp.Encode.{encode, crlf}
use meebis.Resp.Parse.{
  parse_command, command, bad, capacity_overflow, need_more, split_line, trim_cr, parse_int,
  parse_bulk, parse_bulks, parse_array, parse_inline,
}
use meebis.Resp.Parse.RoundTrip.{parse_command-encode, parse_command_huge}
use meebis.Resp.Parse.Stable.{with_more, parse_command-append}

abbrev no_doubles : ℕ → Bytes
no_doubles d = []

abbrev words : List Bytes
words = codes "GET" ∷ codes "foo" ∷ []

waits : (parse_command 32 (codes "*2\r\n$3\r\nGET\r\n$3\r\nfo")).1 ≡ need_more
unfolding parse_command parse_array split_line trim_cr parse_int parse_bulk parse_bulks parse_i64
waits = refl

quoted :
    (parse_command 32 (codes "SET x \"a b\"\r\n")).1
    ≡ command (codes "SET" ∷ codes "x" ∷ codes "a b" ∷ [])
unfolding parse_command parse_inline split_line trim_cr
quoted = refl

map_header :
    encode no_doubles true (map (pair (bulk (codes "a")) (integer (pos 1)) no_pairs))
    ≡ codes "%1\r\n$1\r\na\r\n:1\r\n"
unfolding encode nat_to_string to_string
map_header = refl

parse_command-encode_example :
    parse_command 32 (encode no_doubles true (array (bulks words)) ++ codes "*1\r\n")
    ≡ (codes "*1\r\n", command words)
parse_command-encode_example =
    parse_command-encode 32 no_doubles true words (codes "*1\r\n") (omega arith) (omega arith)
      (omega arith)

abbrev ping : Bytes
ping = codes "PING\r\n"

settled : (parse_command 32 ping).1 ≢ need_more
unfolding parse_command parse_inline split_line trim_cr
settled e = cc e

parse_command-append_example :
    parse_command 32 (ping ++ codes "GET") ≡ with_more (codes "GET") (parse_command 32 ping)
parse_command-append_example = parse_command-append 32 ping (codes "GET") settled

abbrev huge : ℕ
huge = 2 ^ 62

parse_command_huge_example :
    parse_command 32 (b'*' ∷ ((nat_to_string huge ++ crlf) ++ []))
    ≡ (b'*' ∷ ((nat_to_string huge ++ crlf) ++ []), bad capacity_overflow)
parse_command_huge_example = parse_command_huge 32 huge [] (omega arith) (omega arith) (omega arith)
