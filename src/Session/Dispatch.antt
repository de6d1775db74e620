-- ===== src/Session/Dispatch.antt =====
-- src/commands/mod.rs, src/commands/clientcmd.rs: `execute_locked`, which runs one command. The
-- commands that have no model here, and the reply to an unknown name, are the argument `other`.
pub mod Answers
pub mod Sound
pub mod Quiet
use meebis.Base.{
  ℕ, Bool, true, false, String, List, [], ◌∷◌, Option, none, some, ◌||◌, if◌then◌else◌,
}
use meebis.Base.Bytes.{Bytes}
use meebis.Base.Int.{ℤ, pos, negsuc, pos_part}
use meebis.Resp.Frame.{Frame, simple, bulk, ok, err, count}
use meebis.Db
use meebis.Db.{Db, is_some}
use meebis.Keyspace
use meebis.Keyspace.{Keyspace, put_db}
use meebis.Commands.Args.{Checked, go, fail, wrong_args, parse_int, is_word}
use meebis.Commands.Strings
use meebis.Commands.Strings.Set as StringsSet
use meebis.Commands.Strings.Range as StringsRange
use meebis.Commands.Keys
use meebis.Commands.Keys.Moving
use meebis.Commands.Bits
use meebis.Commands.Hashes
use meebis.Commands.Lists
use meebis.Commands.Lists.Search
use meebis.Commands.Lists.Transfer
use meebis.Commands.Sets
use meebis.Commands.Sets.{union, inter, diff}
use meebis.Commands.Sets.Sampling as SetsSampling
use meebis.Session.{Conn, World, Replied}
use meebis.Session.Subscribe.{publish, pubsub_cmd}

abbrev pub Handler : Type 0
Handler = ℕ → Db → List Bytes → Option (Db × Frame)

-- A handler that cannot panic.
abbrev pub TotalHandler : Type 0
TotalHandler = ℕ → Db → List Bytes → Db × Frame

abbrev pub total : TotalHandler → Handler
total h now db args = some (h now db args)

-- The commands that cannot panic. SETRANGE, which can, has its own row in `handler_of`.
abbrev pub Table : Type 0
Table = List (String × TotalHandler)

pub strings : Table
strings =
    ("GET", Strings.get)
    ∷ ("SET", StringsSet.set)
    ∷ ("SETNX", Strings.setnx)
    ∷ ("SETEX", λ now db args. StringsSet.setex now db args false)
    ∷ ("PSETEX", λ now db args. StringsSet.setex now db args true)
    ∷ ("GETSET", Strings.getset)
    ∷ ("GETDEL", Strings.getdel)
    ∷ ("GETEX", StringsSet.getex)
    ∷ ("APPEND", Strings.append)
    ∷ ("STRLEN", Strings.strlen)
    ∷ ("INCR", λ now db args. Strings.incr now db args (pos 1))
    ∷ ("DECR", λ now db args. Strings.incr now db args (negsuc 0))
    ∷ ("INCRBY", λ now db args. Strings.incrby now db args false)
    ∷ ("DECRBY", λ now db args. Strings.incrby now db args true)
    ∷ ("MGET", Strings.mget)
    ∷ ("MSET", Strings.mset)
    ∷ ("MSETNX", Strings.msetnx)
    ∷ ("GETRANGE", StringsRange.getrange)
    ∷ ("SUBSTR", StringsRange.getrange)
    ∷ []

pub bitmaps : Table
bitmaps =
    ("SETBIT", Bits.setbit)
    ∷ ("GETBIT", Bits.getbit)
    ∷ ("BITCOUNT", Bits.bitcount)
    ∷ ("BITPOS", Bits.bitpos)
    ∷ ("BITOP", Bits.bitop)
    ∷ []

pub generic : Table
generic =
    ("DEL", Keys.del)
    ∷ ("UNLINK", Keys.del)
    ∷ ("EXISTS", Keys.exists)
    ∷ ("EXPIRE", λ now db args. Keys.expire now db args (pos 1000) true)
    ∷ ("PEXPIRE", λ now db args. Keys.expire now db args (pos 1) true)
    ∷ ("EXPIREAT", λ now db args. Keys.expire now db args (pos 1000) false)
    ∷ ("PEXPIREAT", λ now db args. Keys.expire now db args (pos 1) false)
    ∷ ("TTL", λ now db args. Keys.ttl now db args true)
    ∷ ("PTTL", λ now db args. Keys.ttl now db args false)
    ∷ ("EXPIRETIME", λ now db args. Keys.expiretime now db args true)
    ∷ ("PEXPIRETIME", λ now db args. Keys.expiretime now db args false)
    ∷ ("PERSIST", Keys.persist)
    ∷ ("KEYS", Keys.keys)
    ∷ ("SCAN", Keys.scan)
    ∷ ("TYPE", Keys.type_cmd)
    ∷ ("RENAME", λ now db args. Moving.rename now db args false)
    ∷ ("RENAMENX", λ now db args. Moving.rename now db args true)
    ∷ ("TOUCH", Keys.exists)
    ∷ []

pub hashes : Table
hashes =
    ("HSET", λ now db args. Hashes.hset now db args false)
    ∷ ("HMSET", λ now db args. Hashes.hset now db args true)
    ∷ ("HSETNX", Hashes.hsetnx)
    ∷ ("HGET", Hashes.hget)
    ∷ ("HMGET", Hashes.hmget)
    ∷ ("HDEL", Hashes.hdel)
    ∷ ("HGETALL", Hashes.hgetall)
    ∷ ("HKEYS", Hashes.hkeys)
    ∷ ("HVALS", Hashes.hvals)
    ∷ ("HLEN", Hashes.hlen)
    ∷ ("HEXISTS", Hashes.hexists)
    ∷ ("HSTRLEN", Hashes.hstrlen)
    ∷ ("HINCRBY", Hashes.hincrby)
    ∷ ("HSCAN", Hashes.hscan)
    ∷ []

pub lists : Table
lists =
    ("LPUSH", λ now db args. Lists.push now db args true false)
    ∷ ("RPUSH", λ now db args. Lists.push now db args false false)
    ∷ ("LPUSHX", λ now db args. Lists.push now db args true true)
    ∷ ("RPUSHX", λ now db args. Lists.push now db args false true)
    ∷ ("LPOP", λ now db args. Lists.pop now db args true)
    ∷ ("RPOP", λ now db args. Lists.pop now db args false)
    ∷ ("LLEN", Lists.llen)
    ∷ ("LRANGE", Lists.lrange)
    ∷ ("LINDEX", Lists.lindex)
    ∷ ("LSET", Lists.lset)
    ∷ ("LREM", Search.lrem)
    ∷ ("LTRIM", Transfer.ltrim)
    ∷ ("LINSERT", Search.linsert)
    ∷ ("LPOS", Search.lpos)
    ∷ ("RPOPLPUSH", Transfer.rpoplpush)
    ∷ ("LMOVE", Transfer.lmove)
    ∷ []

pub sets : Table
sets =
    ("SADD", Sets.sadd)
    ∷ ("SREM", Sets.srem)
    ∷ ("SMEMBERS", Sets.smembers)
    ∷ ("SISMEMBER", Sets.sismember)
    ∷ ("SMISMEMBER", Sets.smismember)
    ∷ ("SCARD", Sets.scard)
    ∷ ("SMOVE", Sets.smove)
    ∷ ("SUNION", λ now db args. Sets.setop now db args union false)
    ∷ ("SINTER", λ now db args. Sets.setop now db args inter false)
    ∷ ("SDIFF", λ now db args. Sets.setop now db args diff false)
    ∷ ("SUNIONSTORE", λ now db args. Sets.setop now db args union true)
    ∷ ("SINTERSTORE", λ now db args. Sets.setop now db args inter true)
    ∷ ("SDIFFSTORE", λ now db args. Sets.setop now db args diff true)
    ∷ ("SINTERCARD", SetsSampling.sintercard)
    ∷ ("SSCAN", SetsSampling.sscan)
    ∷ []

-- The first handler of that name.
pub route : Table → Bytes → Option Handler → Option Handler
route [] name after = after
route ((w, h) ∷ table) name after =
    let rest = route table name after in if is_word name w then some (total h) else rest

pub handler_of : Bytes → Option Handler
unfolding route strings bitmaps generic hashes lists sets
handler_of name = route strings name (
    route bitmaps name (
      route generic name (
        route hashes name (
          route lists name (
            route sets name
              (if is_word name "SETRANGE" then some StringsRange.setrange else none))))))

selected : Conn → Keyspace → ℤ → Conn × Frame
selected c ks n =
    if Keyspace.is_valid ks n
    then (record c { db_index = pos_part n }, ok)
    else (c, err "DB index is out of range")

select_arg : Conn → Keyspace → Checked ℤ → Conn × Frame
unfolding selected
select_arg c ks (go n) = selected c ks n
select_arg c ks (fail f) = (c, err "value is not an integer or out of range")

pub select : Keyspace → Conn → List Bytes → Conn × Frame
unfolding select_arg
select ks c (_ ∷ a ∷ []) = select_arg c ks (parse_int a)
select ks c _ = (c, wrong_args "select")

pub ping : List Bytes → Frame
ping (_ ∷ []) = simple "PONG"
ping (_ ∷ a ∷ []) = bulk a
ping _ = wrong_args "ping"

pub echo : List Bytes → Frame
echo (_ ∷ a ∷ []) = bulk a
echo _ = wrong_args "echo"

pub on_keyspace : World → Conn → Option (Keyspace × Frame) → Option Replied
on_keyspace w c none = none
on_keyspace w c (some (ks, f)) = some (record w { keyspace = ks }, c, f)

-- `none` is a panic of the handler.
pub written : World → Conn → Option (Db × Frame) → Option Replied
written w c none = none
written w c (some (db, f)) = some (record w { keyspace = put_db w.keyspace c.db_index db }, c, f)

-- `let db = ks.db(conn.db_index)`, then the handler.
pub on_db : ℕ → World → Conn → List Bytes → Handler → Option Db → Option Replied
unfolding written
on_db now w c args h none = none
on_db now w c args h (some db) = written w c (h now db args)

-- A command after the selection that does not look at the database.
pub with_db : World → Conn → Option Replied → Option Replied
with_db w c r = if is_some (Keyspace.db w.keyspace c.db_index) then r else none

replying : (List Bytes → Frame) → TotalHandler
replying reply now db args = (db, reply args)

dbsize : TotalHandler
dbsize now db args = (db, count (Db.len now db))

flushdb : TotalHandler
flushdb now db args = (Db.clear db, ok)

-- The commands on the selected database.
pub db_handler : Bytes → Option Handler
unfolding handler_of dbsize flushdb replying ping echo
db_handler name =
    if is_word name "DBSIZE"
    then some (total dbsize)
    else if is_word name "FLUSHDB"
    then some (total flushdb)
    else if is_word name "PING"
    then some (total (replying ping))
    else if is_word name "ECHO"
    then some (total (replying echo))
    else if is_word name "WAIT"
    then some (total (replying λ args. count 0))
    else handler_of name

pub on_selected :
    (ℕ → World → Conn → List Bytes → Option Replied)
    → ℕ
    → World
    → Conn
    → List Bytes
    → Option Handler
    → Option Replied
unfolding on_db
on_selected other now w c args none = other now w c args
on_selected other now w c args (some h) = on_db now w c args h (Keyspace.db w.keyspace c.db_index)

abbrev pub replied : World → Conn → Frame → Option Replied
replied w c f = some (w, c, f)

abbrev pub selecting : World → Conn × Frame → Option Replied
selecting w (c, f) = some (w, c, f)

abbrev pub publishing : Conn → World × Frame → Option Replied
publishing c (w, f) = some (w, c, f)

pub execute_named :
    (Bytes → String)
    → (ℕ → Bool)
    → (ℕ → World → Conn → List Bytes → Option Replied)
    → ℕ
    → World
    → Conn
    → List Bytes
    → Bytes
    → Option Replied
unfolding select on_keyspace db_handler on_selected with_db
execute_named lower_text is_open other now w c args name =
    if is_word name "SELECT"
    then selecting w (select w.keyspace c args)
    else if is_word name "SWAPDB"
    then on_keyspace w c (Moving.swapdb w.keyspace args)
    else if is_word name "MOVE"
    then on_keyspace w c (Moving.move_key now w.keyspace c.db_index args)
    else if is_word name "COPY"
    then on_keyspace w c (Moving.copy now w.keyspace c.db_index args)
    else if is_word name "FLUSHALL"
    then replied (record w { keyspace = Keyspace.clear_all w.keyspace }) c ok
    else if is_word name "BGREWRITEAOF"
    then replied w c (simple "Background append only file rewriting started")
    else if is_word name "PUBLISH" || is_word name "SPUBLISH"
    then with_db w c (publishing c (publish is_open w args))
    else if is_word name "PUBSUB"
    then with_db w c (replied w c (pubsub_cmd lower_text w args))
    else on_selected other now w c args (db_handler name)

-- The name of a command is its first argument.
pub execute_locked :
    (Bytes → String)
    → (ℕ → Bool)
    → (ℕ → World → Conn → List Bytes → Option Replied)
    → ℕ
    → World
    → Conn
    → List Bytes
    → Option Replied
unfolding execute_named
execute_locked lower_text is_open other now w c [] = other now w c []
execute_locked lower_text is_open other now w c (name ∷ args) =
    execute_named lower_text is_open other now w c (name ∷ args) name
