-- ===== src/Rdb/Tests.antt =====
-- Instances of the theorems about the snapshot format.
use meebis.Base.Bytes.{codes}
use meebis.Base.{arith}
use meebis.Rdb.Cursor.{plain, read_length, string}
use meebis.Rdb.Cursor.Walk.{Reads}
use meebis.Rdb.Write.{put_length, put_raw_string}
use meebis.Rdb.Write.Lengths.{read_length-put_length, string-put_raw_string}

read_length-put_length_example : Reads read_length (put_length 70000) (plain 70000)
read_length-put_length_example = read_length-put_length 70000 (omega arith)

string-put_raw_string_example : Reads string (put_raw_string (codes "abc")) (codes "abc")
string-put_raw_string_example = string-put_raw_string (codes "abc") (omega arith)
