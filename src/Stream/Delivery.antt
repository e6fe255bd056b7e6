-- ===== src/Stream/Delivery.antt =====
-- Who gets an event that internal/stream/hub.go publishes.
use fin_guard.Prelude.{
  ℕ, String, some, List, [], ◌∷◌, ◌++◌, ◌≡◌, refl, subst, Bool, false, ◌&&◌, arith, if◌then◌else◌,
  ltb, nat_eq, length, any, All, Unique, Bool-cases, inl, inr,
}
use fin_guard.Stream.{
  Payload, send_capacity, Client, Hub, put, is_client, subscribed_to, offer, send_all, publish,
}

-- What a delivery makes of a client that is not closed.
abbrev pub delivered : (Client → Bool) → Payload → Client → Client
delivered wanted payload c =
    if wanted c && ltb (length c.send) send_capacity
    then record c { send = c.send ++ payload ∷ [] }
    else c

-- A client to which a send does not panic.
abbrev pub IsOpen : (ℕ → Client) → ℕ → Type 0
IsOpen cell c = (cell c).closed ≡ false

abbrev pub same : ℕ → ℕ → Bool
same c d = nat_eq d c

pub All-IsOpen :
    (c : ℕ) (v : Client) (cell : ℕ → Client) (cs : List ℕ)
    → any (same c) cs ≡ false
    → All (IsOpen cell) cs
    → All (IsOpen (put cell c v)) cs
unfolding any
All-IsOpen c v cell [] n h = tt
All-IsOpen c v cell (d ∷ cs) n (o, h) = (ground arith, All-IsOpen c v cell cs (ground arith) h)

module _ (wanted : Client → Bool) (payload : Payload) where
  offer-delivered :
      (c : Client)
      → c.closed ≡ false
      → (if wanted c then offer payload c else some c) ≡ some (delivered wanted payload c)
  unfolding offer
  offer-delivered c h = ground arith

  -- What becomes of the cell `d`, where `c` is served before the clients `cs`.
  served_first :
      (c d : ℕ) (cs : List ℕ) (cell cell' : ℕ → Client)
      → any (same c) cs ≡ false
      → cell' d ≡ (
          if any (λ x. nat_eq x d) cs
          then delivered wanted payload (put cell c (delivered wanted payload (cell c)) d)
          else put cell c (delivered wanted payload (cell c)) d)
      → cell' d
        ≡ (if any (λ x. nat_eq x d) (c ∷ cs) then delivered wanted payload (cell d) else cell d)
  unfolding any
  served_first c d cs cell cell' n each = elim (Bool-cases (nat_eq c d)) [
    | inl same_cell ↦
        let c≡d : c ≡ d = ground arith in
        let none_left = subst (λ x. any (same x) cs ≡ false) c≡d n in ground arith
    | inr other ↦ ground arith
  ]

  pub send_all_delivers :
      (cs : List ℕ) (cell : ℕ → Client)
      → Unique same cs
      → All (IsOpen cell) cs
      → (cell' : ℕ → Client) × (send_all wanted payload cs cell ≡ some cell')
        × ((d : ℕ)
            → cell' d
              ≡ (if any (λ c. nat_eq c d) cs then delivered wanted payload (cell d) else cell d))
  unfolding send_all any
  send_all_delivers [] cell u h = (cell, refl, λ d. refl)
  send_all_delivers (c ∷ cs) cell (n, u) (o, h) =
      let v = delivered wanted payload (cell c) in
      let (cell', sent, each) =
        send_all_delivers cs (put cell c v) u (All-IsOpen c v cell cs n h) in
      (
        cell',
        rw (offer-delivered (cell c) o, send_all) sent,
        λ d. served_first c d cs cell cell' n (each d),
      )

-- `Publish` does not panic where the registered clients are distinct and their channels open. Each of
-- them that subscribes to the topic and has room gets the payload once, at the end of its buffer; no
-- other cell changes, and nobody is registered or removed.
pub publish_delivers :
    (topic : String) (payload : Payload) (h : Hub) (d : ℕ)
    → Unique same h.clients
    → All (IsOpen h.cell) h.clients
    → (h' : Hub) × (publish topic (some payload) h ≡ some h')
      × (h'.clients ≡ h.clients)
      × (h'.cell d ≡ (
          if is_client d h then delivered (subscribed_to topic) payload (h.cell d) else h.cell d))
unfolding publish
publish_delivers topic payload h d u o =
    let (cell', sent, each) =
      send_all_delivers (subscribed_to topic) payload h.clients h.cell u o in
    (record h { cell = cell' }, rw sent refl, refl, each d)
