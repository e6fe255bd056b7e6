-- ===== src/Stream/Safety.antt =====
-- The runs of the hub's methods, interleaved as the lock lets them, and the invariant of a run.
mod Members
pub use Members.{
  Step, registers, removes, closes, subscribes, receives, publishes, broadcasts, Reachable, starts,
  steps, IsSafe,
}
use fin_guard.Stream.Safety.Members.{
  new_hub-IsSafe, register-IsSafe, remove-IsSafe, close_send-IsSafe,
}
use fin_guard.Prelude.{
  ℕ, length-append, All-mono, ◌≤◌, String, Option, none, some, List, [], ◌∷◌, ◌≡◌, refl, sym, ◌∙◌,
  Bool, true, if◌then◌else◌, length, any, not, arith, subst,
}
use mathlib.Core.Option.{some-injective}
use fin_guard.Stream.{
  Payload, Client, Hub, put, is_client, subscribe, receive, pop, publish, broadcast, send_capacity,
  subscribed_to, with_cells, send_all,
}
use fin_guard.Stream.Delivery.{IsOpen, send_all_delivers, delivered}

-- A change of one cell that leaves its channel open or closed.
kept-IsSafe :
    (h : Hub) (c : ℕ) (v : Client)
    → v.closed ≡ (h.cell c).closed
    → length v.send ≤ send_capacity
    → IsSafe h
    → IsSafe (record h { cell = put h.cell c v })
kept-IsSafe h c v e b s = record {
  unique = s.unique;
  known = s.known;
  opened =
      All-mono (IsOpen h.cell) (IsOpen (put h.cell c v)) (λ d o. ground (arith, e)) h.clients
        s.opened;
  left = s.left;
  left_known = s.left_known;
  bounded = λ d. ground (arith, b, s.bounded d);
}

subscribe-IsSafe :
    (h : Hub) (c : ℕ) (topics : List String) → IsSafe h → IsSafe (subscribe c topics h)
unfolding subscribe
subscribe-IsSafe h c topics s = kept-IsSafe h c _ refl (s.bounded c) s

pop-IsSafe :
    (h : Hub) (c : ℕ) (ps : List Payload)
    → length ps ≤ send_capacity
    → IsSafe h
    → IsSafe (pop c h ps).1
unfolding pop
pop-IsSafe h c [] b s = s
pop-IsSafe h c (p ∷ rest) b s = kept-IsSafe h c _ refl (omega (arith, b)) s

receive-IsSafe : (h : Hub) (c : ℕ) → IsSafe h → IsSafe (receive c h).1
unfolding receive
receive-IsSafe h c s = pop-IsSafe h c (h.cell c).send (s.bounded c) s

delivered_keeps :
    (wanted : Client → Bool) (payload : Payload) (v : Client)
    → ((delivered wanted payload v).closed ≡ v.closed)
      × (length v.send ≤ send_capacity → length (delivered wanted payload v).send ≤ send_capacity)
delivered_keeps wanted payload v =
    (ground arith, λ b. ground (arith, length-append v.send (payload ∷ [])))

sent-IsSafe :
    (wanted : Client → Bool) (payload : Payload) (h : Hub) (cell' : ℕ → Client)
    → ((d : ℕ)
        → cell' d ≡ (if is_client d h then delivered wanted payload (h.cell d) else h.cell d))
    → IsSafe h
    → IsSafe (record h { cell = cell' })
sent-IsSafe wanted payload h cell' each s =
    let keeps = λ (d : ℕ). delivered_keeps wanted payload (h.cell d) in
    record {
      unique = s.unique;
      known = s.known;
      opened =
          All-mono (IsOpen h.cell) (IsOpen cell') (λ d o. ground (arith, each d, (keeps d).0))
            h.clients s.opened;
      left = s.left;
      left_known = s.left_known;
      bounded = λ d. ground (arith, each d, (keeps d).1 (s.bounded d), s.bounded d);
    }

-- A send to the clients of a safe hub does not panic, and leaves it safe.
send_all-IsSafe :
    (wanted : Client → Bool) (payload : Payload) (h : Hub)
    → IsSafe h
    → (h' : Hub) × (with_cells h (send_all wanted payload h.clients h.cell) ≡ some h') × IsSafe h'
send_all-IsSafe wanted payload h s =
    let (cell', sent, each) = send_all_delivers wanted payload h.clients h.cell s.unique s.opened in
    (record h { cell = cell' }, rw sent refl, sent-IsSafe wanted payload h cell' each s)

publish-IsSafe :
    (topic : String) (p : Option Payload) (h : Hub)
    → IsSafe h
    → (h' : Hub) × (publish topic p h ≡ some h') × IsSafe h'
unfolding publish
publish-IsSafe topic none h s = (h, refl, s)
publish-IsSafe topic (some payload) h s = send_all-IsSafe (subscribed_to topic) payload h s

broadcast-IsSafe :
    (p : Option Payload) (h : Hub) → IsSafe h → (h' : Hub) × (broadcast p h ≡ some h') × IsSafe h'
unfolding broadcast
broadcast-IsSafe none h s = (h, refl, s)
broadcast-IsSafe (some payload) h s = send_all-IsSafe (λ _. true) payload h s

-- The hub that a send returns is the safe one.
returned-IsSafe :
    (sent : Option Hub) (h' : Hub)
    → sent ≡ some h'
    → (safe : Hub) × (sent ≡ some safe) × IsSafe safe
    → IsSafe h'
returned-IsSafe sent h' e (safe, f, s) = subst IsSafe (some-injective safe h' (sym f ∙ e)) s

Step-IsSafe : (h h' : Hub) → Step h h' → IsSafe h → IsSafe h'
Step-IsSafe _ _ (registers h) s = register-IsSafe h s
Step-IsSafe _ _ (removes h c) s = remove-IsSafe h c s
Step-IsSafe _ _ (closes h c) s = close_send-IsSafe h c s
Step-IsSafe _ _ (subscribes h c topics l) s = subscribe-IsSafe h c topics s
Step-IsSafe _ _ (receives h c) s = receive-IsSafe h c s
Step-IsSafe _ _ (publishes h h' topic p e) s =
    returned-IsSafe (publish topic p h) h' e (publish-IsSafe topic p h s)
Step-IsSafe _ _ (broadcasts h h' p e) s =
    returned-IsSafe (broadcast p h) h' e (broadcast-IsSafe p h s)

-- Whatever steps of the hub's methods have run, each registered client has an open channel, whoever is
-- about to be closed is no longer registered, and no buffer holds more than 256 payloads.
pub Reachable-IsSafe : (h : Hub) → Reachable h → IsSafe h
Reachable-IsSafe _ starts = new_hub-IsSafe
Reachable-IsSafe _ (steps h h' r s) = Step-IsSafe h h' s (Reachable-IsSafe h r)

-- On a hub that any steps have reached, with other calls of `Unregister` still under way, neither
-- `Publish` nor `Broadcast` sends on a closed channel: both return, whatever they publish.
pub Reachable-publish :
    (h : Hub) (topic : String) (p : Option Payload)
    → Reachable h
    → ((h' : Hub) × (publish topic p h ≡ some h')) × ((h' : Hub) × (broadcast p h ≡ some h'))
Reachable-publish h topic p r =
    let s = Reachable-IsSafe h r in
    let (h1, e1, _) = publish-IsSafe topic p h s in
    let (h2, e2, _) = broadcast-IsSafe p h s in ((h1, e1), (h2, e2))
