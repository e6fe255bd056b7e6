-- ===== src/Server/Connection/Ends.antt =====
-- How a connection of internal/server/server.go leaves the hub.
use fin_guard.Prelude.{
  ℕ, Option, none, some, List, [], ◌∷◌, ◌++◌, ◌≡◌, refl, ap, ◌∙◌, Bool, true, false, Bool-cases,
  Option-cases, inl, inr, not, nat_eq, arith, ◌⊎◌, length, if◌then◌else◌,
}
use fin_guard.Server.Connection.Joined.{
  Joined, Joined-publish, Joined-read_message, Joined-receive, unregister-Joined, registered-Joined,
}
use fin_guard.Stream.{Payload, Hub, register, unregister, receive, pop}
use fin_guard.Stream.Safety.{Reachable, Reachable-IsSafe}
use fin_guard.Server.Connection.{
  Moment, reads, read_fails, writes, context_done, meanwhile, Pumped, waiting, returned, panicked,
  with_written, pumps, left, greeted, handle_stream,
}

abbrev pub is_returned : Pumped → Bool
is_returned (waiting reading written h) = false
is_returned (returned written h) = true
is_returned (panicked written h) = false

-- Whether the moment ends a client whose write pump waits: its context is done, or a payload is taken
-- and cannot be written, or the channel is found closed and empty.
abbrev pub ends : ℕ → Hub → Moment → Bool
ends c h (reads m) = false
ends c h read_fails = false
ends c h (meanwhile topic p) = false
ends c h context_done = true
ends c h (writes fine) = if nat_eq (length (h.cell c).send) 0 then (h.cell c).closed else not fine

-- The pumps have returned, or they wait, and the moment that `again` meets besides makes them return
-- exactly where it ends the client; either way the client is joined.
abbrev Outcome : ℕ → List ℕ → Moment → Pumped → Pumped → Type 0
Outcome c cs m pumped again =
    ((written : List Payload) × (h : Hub) × (pumped ≡ returned written h) × Joined c cs h)
    ⊎ ((reading : Bool) × (written : List Payload) × (h : Hub) × (pumped
          ≡ waiting reading written h)
        × Joined c cs h
        × (is_returned again ≡ ends c h m))

is_returned-with_written :
    (x : Payload) (pumped : Pumped) → is_returned (with_written x pumped) ≡ is_returned pumped
is_returned-with_written x (waiting reading written h) = refl
is_returned-with_written x (returned written h) = refl
is_returned-with_written x (panicked written h) = refl

is_returned-left : (c : ℕ) (pumped : Pumped) → is_returned (left c pumped) ≡ is_returned pumped
is_returned-left c (waiting reading written h) = refl
is_returned-left c (returned written h) = refl
is_returned-left c (panicked written h) = refl

receive_nothing :
    (c : ℕ) (h : Hub) (xs : List Payload) → (pop c h xs).0 ≡ none → nat_eq (length xs) 0 ≡ true
unfolding pop
receive_nothing c h [] e = refl
receive_nothing c h (x ∷ xs) e = absurd (ground (arith, e))

receive_some :
    (c : ℕ) (h : Hub) (xs : List Payload) (m : Payload)
    → (pop c h xs).0 ≡ some m
    → nat_eq (length xs) 0 ≡ false
unfolding pop
receive_some c h [] m e = absurd (ground (arith, e))
receive_some c h (x ∷ xs) m e = ground arith

module _ (c : ℕ) (cs : List ℕ) (m : Moment) where
  with_written-Outcome :
      (x : Payload) (pumped again : Pumped)
      → Outcome c cs m pumped again
      → Outcome c cs m (with_written x pumped) (with_written x again)
  with_written-Outcome x pumped again (inl (written, h, e, j)) =
      inl (x ∷ written, h, ap (with_written x) e, j)
  with_written-Outcome x pumped again (inr (reading, written, h, e, j, last)) =
      inr
        (reading, x ∷ written, h, ap (with_written x) e, j, is_returned-with_written x again ∙ last)

  greeted-Outcome :
      (welcome : Option Payload) (pumped again : Pumped)
      → Outcome c cs m pumped again
      → Outcome c cs m (greeted welcome pumped) (greeted welcome again)
  greeted-Outcome none pumped again o = o
  greeted-Outcome (some welcome) pumped again o = with_written-Outcome welcome pumped again o

module _ (c : ℕ) (cs : List ℕ) where
  -- What one moment does to pumps that wait.
  is_returned-pumps :
      (reading : Bool) (m : Moment) (h : Hub)
      → Joined c cs h
      → is_returned (pumps c reading (m ∷ []) h) ≡ ends c h m
  unfolding pumps receive
  is_returned-pumps reading (reads m) h j = refl
  is_returned-pumps reading read_fails h j = refl
  is_returned-pumps reading context_done h j = refl
  is_returned-pumps reading (meanwhile topic p) h j =
      let (h', e, j') = Joined-publish c cs topic p h j in rw (e, pumps) refl
  is_returned-pumps reading (writes fine) h j = elim (Option-cases (receive c h).0) [
    | inl nothing ↦ elim (Bool-cases (h.cell c).closed) [
      | inl e ↦ rw (nothing, e, pumps, receive_nothing c h (h.cell c).send nothing) refl
      | inr e ↦ rw (nothing, e, pumps, receive_nothing c h (h.cell c).send nothing) refl
    ]
    | inr (m, taken) ↦ elim (Bool-cases fine) [
      | inl e ↦ rw (taken, e, pumps, receive_some c h (h.cell c).send m taken) refl
      | inr e ↦ rw (taken, e, pumps, receive_some c h (h.cell c).send m taken) refl
    ]
  ]

  pumps-Outcome :
      (reading : Bool) (moments : List Moment) (m : Moment) (h : Hub)
      → Joined c cs h
      → Outcome c cs m (pumps c reading moments h) (pumps c reading (moments ++ m ∷ []) h)
  unfolding pumps
  pumps-Outcome reading [] m h j = inr (reading, [], h, refl, j, is_returned-pumps reading m h j)
  pumps-Outcome reading (reads x ∷ rest) m h j =
      pumps-Outcome reading rest m _ (Joined-read_message c cs reading x h j)
  pumps-Outcome reading (read_fails ∷ rest) m h j = pumps-Outcome false rest m h j
  pumps-Outcome reading (context_done ∷ rest) m h j = inl ([], h, refl, j)
  pumps-Outcome reading (meanwhile topic p ∷ rest) m h j =
      let (h', e, j') = Joined-publish c cs topic p h j in
      rw (e, pumps) (pumps-Outcome reading rest m h' j')
  pumps-Outcome reading (writes fine ∷ rest) m h j =
      let after = (receive c h).1 in
      let j' : Joined c cs after = Joined-receive c cs h j in
      elim (Option-cases (receive c h).0) [
        | inl nothing ↦ elim (Bool-cases (h.cell c).closed) [
          | inl e ↦ rw (nothing, e, pumps) (inl ([], h, refl, j))
          | inr e ↦ rw (nothing, e, pumps) (pumps-Outcome reading rest m h j)
        ]
        | inr (x, taken) ↦ elim (Bool-cases fine) [
          | inl e ↦
              rw (taken, e, pumps)
                (with_written-Outcome c cs m x _ _ (pumps-Outcome reading rest m after j'))
          | inr e ↦ rw (taken, e, pumps) (inl ([], after, refl, j'))
        ]
      ]

-- A websocket that is accepted on a hub that any steps of its methods have reached, where each call of
-- the hub is one step, that of `Subscribe` included: whatever its client sends and whatever is published
-- meanwhile, nothing panics. Either the handler has returned, with exactly the clients registered that
-- were so before, and the channel of its own closed; or the write pump waits, its client is registered
-- behind those, and whatever happens next, the handler returns then exactly where the context is done, a
-- payload is taken and cannot be written, or the channel is found closed and empty.
pub handle_stream-returns :
    (welcome : Option Payload) (moments : List Moment) (next : Moment) (h : Hub)
    → Reachable h
    → ((written : List Payload) × (h' : Hub) × (handle_stream true welcome moments h
          ≡ returned written h')
        × Reachable h'
        × (h'.clients ≡ h.clients)
        × ((h'.cell h.fresh).closed ≡ true))
      ⊎ ((reading : Bool) × (written : List Payload) × (h' : Hub) × (handle_stream true welcome
              moments h
            ≡ waiting reading written h')
          × Reachable h'
          × (h'.clients ≡ h.clients ++ h.fresh ∷ [])
          × (is_returned (handle_stream true welcome (moments ++ next ∷ []) h)
              ≡ ends h.fresh h' next))
unfolding handle_stream
handle_stream-returns welcome moments next h r =
    elim (greeted-Outcome h.fresh h.clients next welcome _ _
      (pumps-Outcome h.fresh h.clients true moments next (register h) (registered-Joined h r))) [
        | inl (written, after, e, j) ↦
            let (reached, members, over) =
              unregister-Joined h.fresh h.clients after (Reachable-IsSafe h r).known j in
            inl (written, unregister h.fresh after, ap (left h.fresh) e, reached, members, over)
        | inr (reading, written, after, e, (reached, members, known), last) ↦ inr (
          reading,
          written,
          after,
          ap (left h.fresh) e,
          reached,
          members,
          is_returned-left h.fresh _ ∙ last,
        )
      ]
