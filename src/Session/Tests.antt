-- ===== src/Session/Tests.antt =====
-- Runs of a small server and the theorems on concrete inputs.
use meebis.Base.{
  ℕ, ◌≡◌, refl, Bool, true, false, String, List, [], ◌∷◌, ◌++◌, Option, some, arith, length,
  Bool-cases, inl, inr, if◌then◌else◌,
}
use meebis.Base.Bytes.{Bytes, codes, bytes_eq, to_ascii_uppercase}
use meebis.Resp.Frame.{err, null_array}
use meebis.Db
use meebis.Keyspace.{Keyspace}
use meebis.Base.Decimal.{parse_i64}
use meebis.Commands.Args.{is_word, parse_int}
use meebis.Session.{subscription_count, is_any, Conn, World, Services, Replied, Handled, one}
use meebis.Session.Subscribe.{publish}
use meebis.Session.Watching.{SameSight, AllIn, unchanged, taken}
use meebis.Session.Running.{one_by_one, in_array}
use meebis.Session.Dispatch.{execute_locked}
use meebis.Session.Dispatch.Sound.{IsPlaced, IsFair, AreFair, execute_locked-IsFair}
use meebis.Session.Dispatch.Answers.{InReach}
use meebis.Session.Dispatch.Quiet.{execute_locked-IsQuiet}
use meebis.Session.Handle.Moves.{IsQuiet, AreQuiet}
use meebis.Session.Handle.Sound.{AreSound}
use meebis.Session.Handle.Transactions.{
  serve, finished, transaction_lem, IsFree, AreQueued, IsQueued,
}
use meebis.Session.System.{System, Event, request, disconnect, fail, start, run, connected}
use meebis.Session.System.Agreement.{Agrees}
use meebis.Session.System.Totals.{AllPlaced, run_lem}
use meebis.Session.System.Delivery.{IsDelivered, publish_lem}

abbrev unknown : ℕ → World → Conn → List Bytes → Option Replied
unknown now w c args = some (w, c, err "unknown command")

unknown-AreFair : AreFair unknown
unfolding IsFair IsPlaced
unknown-AreFair n now w c args p = (p, refl, refl, refl, refl)

unknown-IsQuiet :
    (now : ℕ) (w : World) (c : Conn) (args : List Bytes) → IsQuiet w c (unknown now w c args)
unfolding IsQuiet
unknown-IsQuiet now w c args = (refl, refl, refl, refl)

abbrev everyone : ℕ → Bool
everyone i = true

abbrev handled : ℕ → World → Conn → List Bytes → Option Handled
handled now w c args = some (w, c, one null_array)

abbrev is_setrange : List Bytes → Bool
is_setrange [] = false
is_setrange (name ∷ args) = is_word name "SETRANGE"

-- A request that is no SETRANGE is within reach.
elsewhere-InReach : (args : List Bytes) → is_setrange args ≡ false → InReach args
elsewhere-InReach (name ∷ key ∷ a ∷ patch ∷ []) h = λ n w e. ground arith
elsewhere-InReach _ h = tt

abbrev no_text : Bytes → String
no_text b = ""

-- The commands but for SETRANGE, which may panic.
abbrev commands_of : ℕ → World → Conn → List Bytes → Option Replied
commands_of now w c args =
    if is_setrange args
    then unknown now w c args
    else execute_locked no_text everyone unknown now w c args

abbrev server : Services
server = record {
  execute = commands_of;
  bzpop = λ now w c args min. handled now w c args;
  xread = handled;
  digest = λ v. 7;
  requires_password = false;
  text = no_text;
  lower_text = no_text;
}

handled-AreFair : AreFair handled
unfolding IsFair IsPlaced
handled-AreFair n now w c args p = (p, refl, refl, refl, refl)

handled-IsQuiet :
    (now : ℕ) (w : World) (c : Conn) (args : List Bytes) → IsQuiet w c (handled now w c args)
unfolding IsQuiet
handled-IsQuiet now w c args = (refl, refl, refl, refl)

commands_of-AreFair : AreFair commands_of
commands_of-AreFair n now w c args p = elim (Bool-cases (is_setrange args)) [
  | inl y ↦ rw y (unknown-AreFair n now w c args p)
  | inr b ↦ rw b (
      execute_locked-IsFair no_text everyone unknown unknown-AreFair n now w c args p
        (elsewhere-InReach args b))
]

commands_of-IsQuiet :
    (now : ℕ) (w : World) (c : Conn) (args : List Bytes) → IsQuiet w c (commands_of now w c args)
commands_of-IsQuiet now w c args = elim (Bool-cases (is_setrange args)) [
  | inl y ↦ rw y (unknown-IsQuiet now w c args)
  | inr b ↦ rw b (execute_locked-IsQuiet no_text everyone unknown unknown-IsQuiet now w c args)
]

server-AreSound : AreSound server
server-AreSound = record {
  fair_execute = commands_of-AreFair;
  fair_bzpop = λ min. handled-AreFair;
  fair_xread = handled-AreFair;
}

server-AreQuiet : AreQuiet server
server-AreQuiet = record {
  quiet_execute = commands_of-IsQuiet;
  quiet_bzpop = λ now w c args min. handled-IsQuiet now w c args;
  quiet_xread = handled-IsQuiet;
}

abbrev databases : Keyspace
databases = Db.new ∷ Db.new ∷ []

-- Two clients subscribe, one of them twice, one goes away again, and one breaks.
abbrev events : List Event
events =
    request 1 0 (codes "SUBSCRIBE" ∷ codes "news" ∷ codes "news" ∷ [])
    ∷ request 2 0 (codes "PSUBSCRIBE" ∷ codes "n*" ∷ [])
    ∷ request 3 0 (codes "SELECT" ∷ codes "1" ∷ [])
    ∷ request 3 0 (codes "SET" ∷ codes "k" ∷ codes "v" ∷ [])
    ∷ request 4 0 (codes "SUBSCRIBE" ∷ codes "news" ∷ [])
    ∷ disconnect 4
    ∷ request 5 0 (codes "SUBSCRIBE" ∷ codes "news" ∷ [])
    ∷ fail 5
    ∷ request 5 0 (codes "UNSUBSCRIBE" ∷ [])
    ∷ []

run_lem_example :
    (sys : System) × (run server events (start databases) ≡ some sys)
    × AllPlaced (length databases) sys
    × Agrees sys
run_lem_example = run_lem server databases events server-AreSound server-AreQuiet (omega arith)

abbrev subscribed : System
subscribed = (run_lem server databases events server-AreSound server-AreQuiet (omega arith)).0

subscribed-Agrees : Agrees subscribed
subscribed-Agrees =
    (run_lem server databases events server-AreSound server-AreQuiet (omega arith)).3

publish_lem_example :
    let (w, reply) =
      publish everyone subscribed.world (codes "PUBLISH" ∷ codes "news" ∷ codes "hi" ∷ []) in
    IsDelivered subscribed everyone (codes "news") (codes "hi") 1 w reply
publish_lem_example =
    publish_lem subscribed everyone (codes "PUBLISH") (codes "news") (codes "hi") 1
      subscribed-Agrees

connected-IsPlaced : IsPlaced 2 (start databases).world (connected 1)
unfolding start connected IsPlaced AllIn
connected-IsPlaced = (refl, omega arith, tt)

setrange-InReach : InReach (codes "SETRANGE" ∷ codes "k" ∷ codes "5" ∷ codes "hello" ∷ [])
unfolding parse_int parse_i64
setrange-InReach n w e = ground arith

execute_locked-IsFair_example : IsFair 2 (start databases).world (connected 1) (
    execute_locked no_text everyone unknown 0
      (start databases).world
      (connected 1)
      (codes "SETRANGE" ∷ codes "k" ∷ codes "5" ∷ codes "hello" ∷ []))
execute_locked-IsFair_example =
    execute_locked-IsFair no_text everyone unknown unknown-AreFair 2 0 (start databases).world
      (connected 1) (codes "SETRANGE" ∷ codes "k" ∷ codes "5" ∷ codes "hello" ∷ [])
      connected-IsPlaced setrange-InReach

abbrev commands : List (List Bytes)
commands =
    (codes "SET" ∷ codes "k" ∷ codes "v" ∷ [])
    ∷ (codes "APPEND" ∷ codes "k" ∷ codes "w" ∷ [])
    ∷ (codes "SELECT" ∷ codes "1" ∷ [])
    ∷ []

connected-IsFree : IsFree server (connected 1)
unfolding connected subscription_count
connected-IsFree = record { is_known = refl; is_listening = refl }

commands-AreQueued : AreQueued commands
unfolding AreQueued IsQueued is_any is_word bytes_eq to_ascii_uppercase
commands-AreQueued = ((refl, refl), ((refl, refl), ((refl, refl), tt)))

transaction_lem_example :
    (ks' : Keyspace) × SameSight 0 databases ks'
    × (serve server 0
          ((codes "MULTI" ∷ []) ∷ (commands ++ ((codes "EXEC" ∷ []) ∷ [])))
          (start databases).world
          (connected 1)
        ≡ finished commands (
            if unchanged server 0 (connected 1).watched databases
            then in_array (
                one_by_one
                  (server.execute 0)
                  (record ((start databases).world) { keyspace = ks' })
                  (taken (connected 1))
                  []
                  commands)
            else some (
              record ((start databases).world) { keyspace = ks' },
              taken (connected 1),
              null_array,
            )))
unfolding start connected AllIn
transaction_lem_example =
    transaction_lem server 0 (start databases).world (connected 1) commands refl connected-IsFree
      commands-AreQueued tt
