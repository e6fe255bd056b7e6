-- ===== src/Stream.antt =====
-- internal/stream/hub.go: the clients of the event stream. A `*Client` is a number, the cell of a
-- heap; the hub's map is the list of the registered ones, in the order in which the loop over the map
-- meets them. A send on a closed channel panics: `none`. What a method does under the lock is one step;
-- `Unregister` closes the channel after it, so that it is two.
pub mod Delivery
pub mod Safety
use fin_guard.Prelude.{
  ℕ, ◌+◌, String, Option, none, some, List, [], ◌∷◌, ◌++◌, Bool, true, false, not, ◌&&◌, ◌||◌, ◌==◌,
  if◌then◌else◌, ltb, nat_eq, length, any, delete,
}

-- An event as json.Marshal renders it.
abbrev pub Payload : Type 0
Payload = String

abbrev pub send_capacity : ℕ
send_capacity = 256

pub record Client : Type 0 where
  -- the keys of the map; none means all topics
  pub topics : List String
  -- the buffered channel, first in first out, and whether it is closed
  pub send : List Payload
  pub closed : Bool
  -- whether the client's context is cancelled
  pub cancelled : Bool

pub record Hub : Type 0 where
  pub clients : List ℕ
  pub cell : ℕ → Client
  -- those that `Unregister` took from the map and has not closed yet
  pub leaving : List ℕ
  -- the next pointer that is not in use
  pub fresh : ℕ

abbrev pub new_client : Client
new_client = record { topics = []; send = []; closed = false; cancelled = false }

abbrev pub new_hub : Hub
new_hub = record { clients = []; cell = λ _. new_client; leaving = []; fresh = 0 }

abbrev pub put : (ℕ → Client) → ℕ → Client → ℕ → Client
put cell c v d = if nat_eq d c then v else cell d

abbrev pub is_client : ℕ → Hub → Bool
is_client c h = any (λ d. nat_eq d c) h.clients

unfoldable pub register : Hub → Hub
register h = record h {
  clients = h.clients ++ h.fresh ∷ [];
  cell = put h.cell h.fresh new_client;
  fresh = h.fresh + 1;
}

-- `Unregister` up to its return, or up to the call of `cancel`.
unfoldable pub remove : ℕ → Hub → Hub
remove c h =
    if is_client c h
    then record h { clients = delete (λ d. nat_eq d c) h.clients; leaving = c ∷ h.leaving }
    else h

-- The rest of it. `sync.Once` lets a channel be closed twice.
unfoldable pub close_send : ℕ → Hub → Hub
close_send c h =
    if any (λ d. nat_eq d c) h.leaving
    then record h {
      cell = put h.cell c (record (h.cell c) { closed = true; cancelled = true });
      leaving = delete (λ d. nat_eq d c) h.leaving;
    }
    else h

unfoldable pub unregister : ℕ → Hub → Hub
unregister c h = if is_client c h then close_send c (remove c h) else h

unfoldable pub len : Hub → ℕ
len h = length h.clients

-- `subscribedTo`
unfoldable pub subscribed_to : String → Client → Bool
subscribed_to topic c = nat_eq (length c.topics) 0 || any (λ t. t == topic) c.topics

-- The `select` with a `default`: a full buffer drops the event.
unfoldable pub offer : Payload → Client → Option Client
offer payload c =
    if c.closed
    then none
    else if ltb (length c.send) send_capacity
    then some (record c { send = c.send ++ payload ∷ [] })
    else some c

-- The loop of `Publish` and of `Broadcast`, which sends to the clients that `wanted` tells.
unfoldable pub send_all : (Client → Bool) → Payload → List ℕ → (ℕ → Client) → Option (ℕ → Client)
send_all wanted payload [] cell = some cell
send_all wanted payload (c ∷ cs) cell =
    elim (if wanted (cell c) then offer payload (cell c) else some (cell c)) [
      | some v ↦ send_all wanted payload cs (put cell c v)
      | none ↦ none
    ]

abbrev pub with_cells : Hub → Option (ℕ → Client) → Option Hub
with_cells h none = none
with_cells h (some cell) = some (record h { cell = cell })

-- A payload that is `none` is one that json.Marshal refused.
unfoldable pub publish : String → Option Payload → Hub → Option Hub
publish topic none h = some h
publish topic (some payload) h =
    with_cells h (send_all (subscribed_to topic) payload h.clients h.cell)

unfoldable pub broadcast : Option Payload → Hub → Option Hub
broadcast none h = some h
broadcast (some payload) h = with_cells h (send_all (λ _. true) payload h.clients h.cell)

-- The assignment to a map key.
add_topic : String → List String → List String
add_topic t ts = if any (λ u. u == t) ts then ts else ts ++ t ∷ []

add_topics : List String → List String → List String
unfolding add_topic
add_topics [] ts = ts
add_topics (t ∷ more) ts = add_topics more (add_topic t ts)

unfoldable pub subscribe : ℕ → List String → Hub → Hub
unfolding add_topics
subscribe c topics h = record h {
  cell = put h.cell c (record (h.cell c) { topics = add_topics topics (h.cell c).topics });
}

-- What `<-c.Send()` of a write pump takes: the first payload of the buffer, `none` where it is empty.
unfoldable pub pop : ℕ → Hub → List Payload → Option Payload × Hub
pop c h [] = (none, h)
pop c h (p ∷ rest) = (some p, record h { cell = put h.cell c (record (h.cell c) { send = rest }) })

unfoldable pub receive : ℕ → Hub → Option Payload × Hub
unfolding pop
receive c h = pop c h (h.cell c).send
