-- ===== src/Plugins/Manager/Bridges.antt =====
-- What a plugin emits reaches the subscribers of internal/stream/hub.go.
use fin_guard.Prelude.{
  ℕ, String, Option, none, some, List, [], ◌∷◌, ◌++◌, ◌≡◌, ◌≤◌, refl, sym, ap, ◌∙◌, subst, Bool,
  true, false, Bool-cases, inl, inr, if◌then◌else◌, nat_eq, length, take, any, arith, append-nil,
}
use fin_guard.Stream.{Payload, Client, Hub, send_capacity, is_client, subscribed_to, publish}
use fin_guard.Stream.Delivery.{delivered, publish_delivers}
use fin_guard.Stream.Safety.{Reachable, steps, publishes, IsSafe, Reachable-IsSafe}
use fin_guard.Plugins.{PluginEvent}
use fin_guard.Plugins.Channel.{offered, take_short, take-offered}
use fin_guard.Plugins.Manager.{Happening, done, closed, emitted, channel, bridge, bridge_events}

-- What the bridge takes from the channel.
abbrev pub emitted_events : List Happening → List PluginEvent
emitted_events [] = []
emitted_events (done ∷ rest) = []
emitted_events (closed ∷ rest) = []
emitted_events (emitted e ∷ rest) = e ∷ emitted_events rest

abbrev rendered_first : Bool → Option Payload → List Payload → List Payload
rendered_first true (some payload) rest = payload ∷ rest
rendered_first true none rest = rest
rendered_first false payload rest = rest

delivered-send :
    (wanted : Client → Bool) (payload : Payload) (c : Client)
    → (delivered wanted payload c).send
      ≡ (if wanted c then offered send_capacity payload c.send else c.send)
delivered-send wanted payload c = ground arith

delivered-topics :
    (wanted : Client → Bool) (payload : Payload) (c : Client)
    → (delivered wanted payload c).topics ≡ c.topics
delivered-topics wanted payload c = ground arith

take-delivered :
    (wanted : Client → Bool) (payload : Payload) (c : Client) (rest : List Payload)
    → length c.send ≤ send_capacity
    → take send_capacity ((delivered wanted payload c).send ++ rest)
      ≡ take send_capacity (c.send ++ rendered_first (wanted c) (some payload) rest)
take-delivered wanted payload c rest n =
    ap (λ xs. take send_capacity (xs ++ rest)) (delivered-send wanted payload c)
    ∙ elim (Bool-cases (wanted c)) [
      | inl e ↦ rw e (take-offered send_capacity payload c.send rest n)
      | inr e ↦ rw e refl
    ]

rendered_first-none : (b : Bool) (rest : List Payload) → rendered_first b none rest ≡ rest
rendered_first-none true rest = refl
rendered_first-none false rest = refl

-- A publication, as one client sees it.
published :
    (topic : String) (p : Option Payload) (h : Hub) (c : ℕ) (rest : List Payload)
    → IsSafe h
    → is_client c h ≡ true
    → (h' : Hub) × (publish topic p h ≡ some h')
      × (h'.clients ≡ h.clients)
      × ((h'.cell c).topics ≡ (h.cell c).topics)
      × (take send_capacity ((h'.cell c).send ++ rest)
          ≡ take send_capacity
              ((h.cell c).send ++ rendered_first (subscribed_to topic (h.cell c)) p rest))
unfolding publish
published topic none h c rest s in_map = (
  h,
  refl,
  refl,
  refl,
  ap (λ xs. take send_capacity ((h.cell c).send ++ xs))
      (sym (rendered_first-none (subscribed_to topic (h.cell c)) rest)),
)
published topic (some payload) h c rest s in_map =
    let (h', sent, members, cell) = publish_delivers topic payload h c s.unique s.opened in
    let served : h'.cell c ≡ delivered (subscribed_to topic) payload (h.cell c) =
      subst
        (λ b.
          h'.cell c ≡ (if b then delivered (subscribed_to topic) payload (h.cell c) else h.cell c))
        in_map cell in
    (
      h',
      sent,
      members,
      ap (λ x. x.topics) served ∙ delivered-topics (subscribed_to topic) payload (h.cell c),
      ap (λ x. take send_capacity (x.send ++ rest)) served
          ∙ take-delivered (subscribed_to topic) payload (h.cell c) rest (s.bounded c),
    )

module _ (render : PluginEvent → Option Payload) where
  -- The payloads of the events that a client with these topics gets, in order.
  unfoldable pub addressed : Client → List PluginEvent → List Payload
  addressed c [] = []
  addressed c (e ∷ es) = rendered_first (subscribed_to e.topic c) (render e) (addressed c es)

  -- It depends on the topics alone.
  addressed-topics :
      (c d : Client) (es : List PluginEvent) → c.topics ≡ d.topics → addressed c es ≡ addressed d es
  unfolding addressed subscribed_to
  addressed-topics c d [] h = refl
  addressed-topics c d (e ∷ es) h = rw (h, addressed-topics c d es h) refl

  -- The buffer of the client after the bridge, on the hub that it leaves.
  abbrev Fills : ℕ → Hub → List PluginEvent → Option Hub → Type 0
  Fills c h es after =
      (h' : Hub) × (after ≡ some h')
      × (h'.clients ≡ h.clients)
      × ((h'.cell c).send ≡ take send_capacity ((h.cell c).send ++ addressed (h.cell c) es))

  idle-Fills : (c : ℕ) (h : Hub) → IsSafe h → Fills c h [] (some h)
  unfolding addressed
  idle-Fills c h s = (
    h,
    refl,
    refl,
    sym (
        ap (take send_capacity) (append-nil (h.cell c).send)
        ∙ take_short send_capacity (h.cell c).send (s.bounded c)),
  )

  bridge-Fills :
      (happenings : List Happening) (c : ℕ) (h : Hub)
      → Reachable h
      → is_client c h ≡ true
      → Fills c h (emitted_events happenings) (bridge render happenings h)
  unfolding bridge addressed
  bridge-Fills [] c h r m = idle-Fills c h (Reachable-IsSafe h r)
  bridge-Fills (done ∷ rest) c h r m = idle-Fills c h (Reachable-IsSafe h r)
  bridge-Fills (closed ∷ rest) c h r m = idle-Fills c h (Reachable-IsSafe h r)
  bridge-Fills (emitted e ∷ rest) c h r m =
      let es = emitted_events rest in
      let (h1, sent, members, topics, buffer) =
        published e.topic (render e) h c (addressed (h.cell c) es) (Reachable-IsSafe h r) m in
      let m1 : is_client c h1 ≡ true = ap (λ cs. any (λ d. nat_eq d c) cs) members ∙ m in
      let (h2, bridged, members2, buffer2) =
        bridge-Fills rest c h1 (steps h h1 r (publishes h h1 e.topic (render e) sent)) m1 in
      (
        h2,
        rw (sent, bridge) bridged,
        members2 ∙ members,
        buffer2
            ∙ ap (λ xs. take send_capacity ((h1.cell c).send ++ xs))
                (addressed-topics (h1.cell c) (h.cell c) es topics)
            ∙ buffer,
      )

  -- On a hub that any steps of its methods have reached, a bridge publishes what its plugin emits until
  -- the context is cancelled or the channel is closed, and never panics. Whatever the plugin emits, each
  -- registered client then has in its buffer what it had, followed by the payloads of the events whose
  -- topic it subscribes to and which json renders, in the order in which they were emitted, up to 256 in
  -- all.
  pub bridge_delivers :
      (happenings : List Happening) (c : ℕ) (h : Hub)
      → Reachable h
      → is_client c h ≡ true
      → (h' : Hub) × (bridge_events render channel happenings h ≡ some h')
        × (h'.clients ≡ h.clients)
        × ((h'.cell c).send
            ≡ take send_capacity
                ((h.cell c).send ++ addressed (h.cell c) (emitted_events happenings)))
  bridge_delivers = bridge-Fills
