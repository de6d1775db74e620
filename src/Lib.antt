-- ===== src/Lib.antt =====
-- meebis, an in-memory server that speaks the Redis protocol: a model of its core.
--
-- How the program is built. A connection reads bytes, src/resp.rs parses one request out of them and
-- encodes the reply, and src/commands/mod.rs dispatches the request to a handler. A handler gets the
-- selected database of src/db.rs, which maps keys to values with an optional expiry, and purges a key
-- that has expired when it is touched. src/rdb reads and writes the keyspace as a snapshot file.
--
-- Which file models which part:
--   Base          numbers, lists, byte strings, and what the code uses of the standard library
--                 (HashMap, HashSet, decimal numerals)
--   Glob          src/db.rs, glob_match and match_class
--   Db            src/db.rs, Value, Entry and Db; Db/Typed has the typed accessors
--   SortedSet     src/db.rs, ZSet
--   StreamLog     src/db.rs, StreamId and Stream
--   Resp          src/resp.rs: Frame and its encoding, and the parser of requests
--   Keyspace      src/db.rs, Keyspace
--   PubSub        src/pubsub.rs
--   Session       src/server.rs, ConnState, and src/commands/mod.rs: Session itself has the transactions,
--                 Subscribe the subscriptions, Dispatch is execute_locked with its table of commands,
--                 Handle is handle, and System is the connections of src/main.rs, as a function of
--                 their ids, with their requests, regular ends and failures in the order in which
--                 they happen; a connection that failed leaves its entries in the registry
--   Commands      src/commands, the argument helpers of mod.rs and the handlers: Strings is string.rs,
--                 Keys is generic.rs, Lists is list.rs, Sets is
--                 set.rs, Hashes is hash.rs, and Bits is bitops.rs
--   Sha1          src/sha1.rs
--   Rdb           src/rdb
--
-- How the code is read. A byte is a number below 256 and a byte string is a list of them; a slice that
-- the code advances is the rest of the list. A method that writes to its receiver returns the new
-- value beside its result. `now_ms()` is an argument, one time for each command: the code reads the
-- clock more than once in a command, and the model takes those readings to be the same. A HashMap is
-- an association list, a HashSet is a list, and their iteration order is one of the possible ones. A
-- double is its bit pattern. Arithmetic on u64 wraps, as in a release build; allocation succeeds
-- unless a definition says otherwise. Replies are built as Frames.
--
-- Fuel. The glob matcher runs on fuel (length of the text times one more than the length of the
-- pattern, and once the pattern more), which always suffices; LZF takes at least one byte in a round,
-- so the length of its input suffices. The padding of SHA-1 adds fewer than 64 zeros.
--
-- Not modelled: sockets, processes and logging (src/server.rs, src/main.rs, src/runner.rs,
-- src/unixsocket.rs, src/log.rs), the Lua bindings of src/commands/scripting, which are glue to a
-- third-party interpreter, and arithmetic on doubles. The loader of snapshots and the
-- handlers of sorted sets and streams have no model here: in Session the commands of those handlers,
-- like the ones that block and those that draw random numbers, are arguments. The hasher behind WATCH
-- is one too. A panic is the result none there; the tasks of the server take turns at the lock of the
-- keyspace, so a request is one step.
pub mod Base
pub mod Glob
pub mod Resp
pub mod SortedSet
pub mod StreamLog
pub mod Db
pub mod Keyspace
pub mod Sha1
pub mod PubSub
pub mod Session
pub mod Commands
pub mod Rdb
