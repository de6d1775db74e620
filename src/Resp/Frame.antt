-- ===== src/Resp/Frame.antt =====
-- src/resp.rs: `Frame`, the values that replies are built from. A double is its bit pattern.
use Prim.Native.String.{◌++◌}
use meebis.Base.{ℕ, List, [], ◌∷◌, String, Option, none, some}
use meebis.Base.Bytes.{Bytes}
use meebis.Base.Int.{ℤ, pos}

mutual
  pub data Frame : Type 0 where
    simple : String → Frame
    error : String → Frame
    integer : ℤ → Frame
    bulk : Bytes → Frame
    null : Frame
    null_array : Frame
    array : Frames → Frame
    map : FramePairs → Frame
    set : Frames → Frame
    double : ℕ → Frame
    pairs : FramePairs → Frame
    push : Frames → Frame
    x_read_reply : FramePairs → Frame

  -- `Vec<Frame>`
  pub data Frames : Type 0 where
    nil : Frames
    cons : Frame → Frames → Frames

  -- `Vec<(Frame, Frame)>`
  pub data FramePairs : Type 0 where
    no_pairs : FramePairs
    pair : Frame → Frame → FramePairs → FramePairs

unfoldable pub ok : Frame
ok = simple "OK"

unfoldable pub err : String → Frame
err msg = error ("ERR " ++ msg)

unfoldable pub wrongtype : Frame
wrongtype = error "WRONGTYPE Operation against a key holding the wrong kind of value"

-- `xs.into_iter().map(Frame::Bulk).collect()`
abbrev pub bulks : List Bytes → Frames
bulks [] = nil
bulks (x ∷ xs) = cons (bulk x) (bulks xs)

-- `.map(Frame::Bulk).unwrap_or(Frame::Null)`
abbrev pub bulk_or_null : Option Bytes → Frame
bulk_or_null none = null
bulk_or_null (some b) = bulk b

-- A count as `Frame::Integer(n as i64)`.
abbrev pub count : ℕ → Frame
count n = integer (pos n)
