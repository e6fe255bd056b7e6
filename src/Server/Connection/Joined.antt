-- ===== src/Server/Connection/Joined.antt =====
-- A client of internal/server/server.go among those of the hub.
use mathlib.Core.Option.{some-injective}
use fin_guard.Prelude.{
  ℕ, ◌<◌, String, Option, none, some, List, [], ◌∷◌, ◌++◌, ◌≡◌, refl, sym, ap, ◌∙◌, subst, Bool,
  true, Bool-cases, inl, inr, ◌&&◌, ◌==◌, nat_eq, any, delete, All, arith,
}
use fin_guard.Stream.{
  Payload, Client, Hub, register, unregister, remove, close_send, publish, subscribe, receive, pop,
  with_cells, is_client,
}
use fin_guard.Stream.Safety.{
  Reachable, steps, registers, removes, closes, subscribes, receives, publishes, Reachable-publish,
}
use fin_guard.Server.Connection.{read_message}

-- The client `c` is registered behind the clients `cs`, on a hub that steps of its methods reach.
abbrev pub Joined : ℕ → List ℕ → Hub → Type 0
Joined c cs h = Reachable h × (h.clients ≡ cs ++ c ∷ []) × (c < h.fresh)

with_cells-fields :
    (h h' : Hub) (o : Option (ℕ → Client))
    → with_cells h o ≡ some h'
    → (h.clients ≡ h'.clients) × (h.fresh ≡ h'.fresh)
with_cells-fields h h' none e = absurd (ground arith)
with_cells-fields h h' (some cell) e =
    let same_hub = some-injective (record h { cell = cell }) h' e in
    (ap (λ x. x.clients) same_hub, ap (λ x. x.fresh) same_hub)

publish-fields :
    (topic : String) (p : Option Payload) (h h' : Hub)
    → publish topic p h ≡ some h'
    → (h.clients ≡ h'.clients) × (h.fresh ≡ h'.fresh)
unfolding publish
publish-fields topic none h h' e =
    let same_hub = some-injective h h' e in
    (ap (λ x. x.clients) same_hub, ap (λ x. x.fresh) same_hub)
publish-fields topic (some payload) h h' e = with_cells-fields h h' _ e

pub Joined-publish :
    (c : ℕ) (cs : List ℕ) (topic : String) (p : Option Payload) (h : Hub)
    → Joined c cs h
    → (h' : Hub) × (publish topic p h ≡ some h') × Joined c cs h'
Joined-publish c cs topic p h (r, m, l) =
    let ((h', e), other) = Reachable-publish h topic p r in
    let (members, fresh) = publish-fields topic p h h' e in
    (h', e, (steps h h' r (publishes h h' topic p e), sym members ∙ m, subst (λ n. c < n) fresh l))

Joined-subscribe :
    (c : ℕ) (cs : List ℕ) (topics : List String) (h : Hub)
    → Joined c cs h
    → Joined c cs (subscribe c topics h)
unfolding subscribe
Joined-subscribe c cs topics h (r, m, l) = (steps h _ r (subscribes h c topics l), m, l)

pub Joined-read_message :
    (c : ℕ) (cs : List ℕ) (reading : Bool) (m : Option (String × List String)) (h : Hub)
    → Joined c cs h
    → Joined c cs (read_message c reading m h)
Joined-read_message c cs reading none h j = j
Joined-read_message c cs reading (some (action, topics)) h j =
    elim (Bool-cases (reading && action == "subscribe")) [
      | inl e ↦ rw e (Joined-subscribe c cs topics h j)
      | inr e ↦ rw e j
    ]

pop-fields :
    (c : ℕ) (h : Hub) (xs : List Payload)
    → ((pop c h xs).1.clients ≡ h.clients) × ((pop c h xs).1.fresh ≡ h.fresh)
unfolding pop
pop-fields c h [] = (refl, refl)
pop-fields c h (x ∷ xs) = (refl, refl)

pub Joined-receive : (c : ℕ) (cs : List ℕ) (h : Hub) → Joined c cs h → Joined c cs (receive c h).1
unfolding receive
Joined-receive c cs h (r, m, l) =
    let (members, fresh) = pop-fields c h (h.cell c).send in
    (steps h _ r (receives h c), members ∙ m, subst (λ n. c < n) (sym fresh) l)

delete_last :
    (c : ℕ) (cs : List ℕ) → All (λ d. d < c) cs → delete (λ d. nat_eq d c) (cs ++ c ∷ []) ≡ cs
unfolding delete
delete_last c [] k = ground arith
delete_last c (d ∷ cs) (l, k) = ground (arith, delete_last c cs k)

unregister_member :
    (c : ℕ) (h : Hub)
    → is_client c h ≡ true
    → ((unregister c h).clients ≡ delete (λ d. nat_eq d c) h.clients)
      × (((unregister c h).cell c).closed ≡ true)
unfolding unregister remove close_send any
unregister_member c h m = (ground arith, ground arith)

Reachable-unregister : (c : ℕ) (h : Hub) → Reachable h → Reachable (unregister c h)
unfolding unregister
Reachable-unregister c h r = elim (Bool-cases (is_client c h)) [
  | inl e ↦ rw e (steps (remove c h) _ (steps h _ r (removes h c)) (closes (remove c h) c))
  | inr e ↦ rw e r
]

is_client-Joined : (c : ℕ) (cs : List ℕ) → any (λ d. nat_eq d c) (cs ++ c ∷ []) ≡ true
unfolding any
is_client-Joined c [] = ground arith
is_client-Joined c (d ∷ cs) = ground (arith, is_client-Joined c cs)

pub unregister-Joined :
    (c : ℕ) (cs : List ℕ) (h : Hub)
    → All (λ d. d < c) cs
    → Joined c cs h
    → Reachable (unregister c h)
      × ((unregister c h).clients ≡ cs)
      × (((unregister c h).cell c).closed ≡ true)
unregister-Joined c cs h k (r, m, l) =
    let in_map : is_client c h ≡ true = ap (any (λ d. nat_eq d c)) m ∙ is_client-Joined c cs in
    let (members, over) = unregister_member c h in_map in
    (
      Reachable-unregister c h r,
      members ∙ ap (delete (λ d. nat_eq d c)) m ∙ delete_last c cs k,
      over,
    )

pub registered-Joined : (h : Hub) → Reachable h → Joined h.fresh h.clients (register h)
unfolding register
registered-Joined h r = (steps h _ r (registers h), refl, omega arith)
