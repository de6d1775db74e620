-- ===== src/Rdb/Write.antt =====
-- src/rdb/write.rs: the flat encodings that a snapshot is written in. A function returns the bytes
-- that it appends.
pub mod Lengths
use meebis.Base.{
  ℕ, zero, suc, ◌+◌, ◌*◌, ◌/◌, ◌%◌, ◌^◌, [], ◌∷◌, List, ◌++◌, String, ltb, leb, ◌==◌, if◌then◌else◌,
  Option, none, some, length, bit_or,
}
use meebis.Base.Bytes.{Bytes, codes}
use meebis.Base.HashMap.{HashMap}
use meebis.Db.{Db, Value, string, list, set_of, hash, zset, stream, len, expires_count, iter_live}
use meebis.SortedSet.{iter_asc}
use meebis.StreamLog.{Stream}
use meebis.Rdb.Words.{to_le, to_be}
use meebis.Rdb.Crc64.{checksum}

-- The RDB length encoding, narrowest form first.
unfoldable pub put_length : ℕ → Bytes
put_length n =
    if ltb n 64
    then n ∷ []
    else if ltb n 16384
    then bit_or 0x40 (n / 256 % 256) ∷ (n % 256) ∷ []
    else if ltb n (2 ^ 32)
    then 0x80 ∷ to_be 4 n
    else 0x81 ∷ to_be 8 n

unfoldable pub put_raw_string : Bytes → Bytes
put_raw_string s = put_length (length s) ++ s

put_strings : List Bytes → Bytes
put_strings [] = []
put_strings (s ∷ rest) = put_raw_string s ++ put_strings rest

put_fields : HashMap Bytes → Bytes
put_fields [] = []
put_fields ((field, v) ∷ rest) = put_raw_string field ++ (put_raw_string v ++ put_fields rest)

put_scores : List (Bytes × ℕ) → Bytes
put_scores [] = []
put_scores ((member, score) ∷ rest) = put_raw_string member ++ (to_le 8 score ++ put_scores rest)

unfoldable pub put_aux : Bytes → Bytes → Bytes
put_aux key value = 0xfa ∷ (put_raw_string key ++ put_raw_string value)

-- The codec of streams, and the version of the package, which the build fills in.
module _ (write_stream : Stream → Bytes) (stream_type : ℕ) (package_version : Bytes) where
  unfoldable pub put_value : Bytes → Value → Bytes
  unfolding put_strings put_fields put_scores
  put_value key (string s) = 0 ∷ (put_raw_string key ++ put_raw_string s)
  put_value key (list items) =
      1 ∷ (put_raw_string key ++ (put_length (length items) ++ put_strings items))
  put_value key (set_of members) =
      2 ∷ (put_raw_string key ++ (put_length (length members) ++ put_strings members))
  put_value key (hash fields) =
      4 ∷ (put_raw_string key ++ (put_length (length fields) ++ put_fields fields))
  put_value key (zset z) =
      5 ∷ (put_raw_string key ++ (put_length (length z.scores) ++ put_scores (iter_asc z)))
  put_value key (stream s) = stream_type ∷ (put_raw_string key ++ write_stream s)

  put_expiry : Option ℕ → Bytes
  put_expiry none = []
  put_expiry (some t) = 0xfc ∷ to_le 8 t

  put_entries : List (Bytes × Value × Option ℕ) → Bytes
  put_entries [] = []
  put_entries ((key, value, t) ∷ rest) = put_expiry t ++ (put_value key value ++ put_entries rest)

  -- An empty database has no section.
  put_db : ℕ → ℕ → Db → Bytes
  put_db now index db =
      if len now db == 0
      then []
      else 0xfe
        ∷ (put_length index
            ++ (0xfb
                ∷ (put_length (len now db)
                    ++ (put_length (expires_count now db) ++ put_entries (iter_live now db)))))

  put_dbs : ℕ → ℕ → List Db → Bytes
  put_dbs now index [] = []
  put_dbs now index (db ∷ rest) = put_db now index db ++ put_dbs now (index + 1) rest

  -- Everything before the checksum.
  body : ℕ → List Db → Bytes
  unfolding put_dbs put_db put_entries put_expiry
  body now dbs =
      codes "REDIS0011"
      ++ (put_aux (codes "redis-ver") (codes "7.4.0")
          ++ (put_aux (codes "redis-bits") (codes "64")
              ++ (put_aux (codes "meebis-ver") package_version
                  ++ (put_dbs now 0 dbs ++ (0xff ∷ [])))))

  unfoldable pub to_bytes : ℕ → List Db → Bytes
  unfolding body
  to_bytes now dbs = let out = body now dbs in out ++ to_le 8 (checksum out)
