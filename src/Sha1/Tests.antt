-- ===== src/Sha1/Tests.antt =====
-- The vectors of the tests in src/sha1.rs.
use meebis.Base.{◌≡◌, refl, ◌∷◌, ◌++◌, ◌+◌, ◌*◌, ◌%◌, ◌^◌, replicate, length}
use meebis.Base.Bytes.{codes}
use meebis.Sha1.Padding.{missing, pad_lem}
use meebis.Rdb.Words.{to_be}
use meebis.Sha1.{
  sha1_hex, sha1, hex, hex_digit, digest_of, blocks, compress, add_states, rounds, round, mix,
  extend, words, pad, push_zeros,
}

abc_run : sha1_hex (codes "abc") ≡ codes "a9993e364706816aba3e25717850c26c9cd0d89d"
unfolding sha1_hex sha1 hex hex_digit digest_of blocks compress add_states rounds round mix extend
    words pad to_be push_zeros
abc_run = refl

pad_lem_example :
    (pad (codes "abc")
      ≡ codes "abc" ++ (128 ∷ (replicate (missing (3 + 1)) 0 ++ to_be 8 (3 * 8 % 2 ^ 64))))
    × (length (pad (codes "abc")) % 64 ≡ 0)
pad_lem_example = pad_lem (codes "abc")
