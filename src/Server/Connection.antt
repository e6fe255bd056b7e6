-- ===== src/Server/Connection.antt =====
-- `handleStream`, `readPump` and `writePump` of internal/server/server.go: a client of the event stream
-- from its registration to its end. What its goroutines meet, and what others publish meanwhile, is a
-- sequence of moments.
pub mod Ends
pub mod Joined
use fin_guard.Prelude.{
  ℕ, String, Option, none, some, List, [], ◌∷◌, Bool, true, false, ◌&&◌, ◌==◌, if◌then◌else◌,
}
use fin_guard.Stream.{Payload, Hub, register, unregister, publish, subscribe, receive}

pub data Moment : Type 0 where
  -- `Read` returns a message: its action and topics, `none` where json refuses it
  reads : Option (String × List String) → Moment
  -- `Read` fails, and the read pump returns
  read_fails : Moment
  -- the write pump takes what there is in the channel, and whether `Write` succeeds
  writes : Bool → Moment
  context_done : Moment
  -- another goroutine publishes
  meanwhile : String → Option Payload → Moment

-- What the handler has come to, with the payloads that were written and the hub: the write pump waits in
-- its `select`, with whether the read pump still runs; or the handler has returned; or a send panicked.
pub data Pumped : Type 0 where
  waiting : Bool → List Payload → Hub → Pumped
  returned : List Payload → Hub → Pumped
  panicked : List Payload → Hub → Pumped

abbrev pub hub_of : Pumped → Hub
hub_of (waiting reading written h) = h
hub_of (returned written h) = h
hub_of (panicked written h) = h

-- A message, while the read pump runs.
abbrev pub read_message : ℕ → Bool → Option (String × List String) → Hub → Hub
read_message c reading none h = h
read_message c reading (some (action, topics)) h =
    if reading && action == "subscribe" then subscribe c topics h else h

abbrev pub with_written : Payload → Pumped → Pumped
with_written m (waiting reading rest h) = waiting reading (m ∷ rest) h
with_written m (returned rest h) = returned (m ∷ rest) h
with_written m (panicked rest h) = panicked (m ∷ rest) h

-- The pumps of the client. The write pump returns at the end of the context, where a write fails, and
-- where the channel is closed and empty; it waits on a channel that is open and empty, and when it has
-- met every moment there was.
unfoldable pub pumps : ℕ → Bool → List Moment → Hub → Pumped
pumps c reading [] h = waiting reading [] h
pumps c reading (reads m ∷ rest) h = pumps c reading rest (read_message c reading m h)
pumps c reading (read_fails ∷ rest) h = pumps c false rest h
pumps c reading (context_done ∷ rest) h = returned [] h
pumps c reading (meanwhile topic p ∷ rest) h = elim (publish topic p h) [
  | none ↦ panicked [] h
  | some h' ↦ pumps c reading rest h'
]
pumps c reading (writes fine ∷ rest) h = elim (receive c h).0 [
  | none ↦ elim (h.cell c).closed [ true ↦ returned [] h | false ↦ pumps c reading rest h ]
  | some m ↦ elim fine [
    | true ↦ with_written m (pumps c reading rest (receive c h).1)
    | false ↦ returned [] (receive c h).1
  ]
]

-- The deferred `Unregister` runs when the handler returns.
abbrev pub left : ℕ → Pumped → Pumped
left c (waiting reading written h) = waiting reading written h
left c (returned written h) = returned written (unregister c h)
left c (panicked written h) = panicked written h

-- The welcome, where json renders it, is written before the pumps start.
abbrev pub greeted : Option Payload → Pumped → Pumped
greeted none pumped = pumped
greeted (some welcome) pumped = with_written welcome pumped

-- The flag tells whether the websocket is accepted.
unfoldable pub handle_stream : Bool → Option Payload → List Moment → Hub → Pumped
handle_stream false welcome moments h = returned [] h
handle_stream true welcome moments h =
    left h.fresh (greeted welcome (pumps h.fresh true moments (register h)))
