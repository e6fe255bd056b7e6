-- ===== src/Stream/Safety/Members.antt =====
-- The steps of the hub's methods, the invariant of a run, and the steps by which clients come and go.
use fin_guard.Prelude.{
  ℕ, ◌+◌, All-append, All-mono, All-select, any-append_single, any-select_none, any-select-false,
  Unique-append, Unique-select, ◌<◌, ◌≤◌, String, Option, some, List, [], ◌∷◌, ◌++◌, ◌≡◌, refl,
  true, false, nat_eq, length, any, delete, select, not, All, Unique, Bool-cases, inl, inr, arith,
  subst,
}
use fin_guard.Stream.{
  Payload, Client, Hub, new_client, new_hub, put, is_client, register, remove, close_send,
  subscribe, receive, publish, broadcast, send_capacity,
}
use fin_guard.Stream.Delivery.{IsOpen, same, All-IsOpen}

-- One critical section of a method, or the end of `Unregister`.
pub data Step : Hub → Hub → Type 0 where
  registers : (h : Hub) → Step h (register h)
  removes : (h : Hub) (c : ℕ) → Step h (remove c h)
  closes : (h : Hub) (c : ℕ) → Step h (close_send c h)
  subscribes :
      (h : Hub) (c : ℕ) (topics : List String) → c < h.fresh → Step h (subscribe c topics h)
  receives : (h : Hub) (c : ℕ) → Step h (receive c h).1
  publishes :
      (h h' : Hub) (topic : String) (p : Option Payload) → publish topic p h ≡ some h' → Step h h'
  broadcasts : (h h' : Hub) (p : Option Payload) → broadcast p h ≡ some h' → Step h h'

pub data Reachable : Hub → Type 0 where
  starts : Reachable new_hub
  steps : (h h' : Hub) → Reachable h → Step h h' → Reachable h'

pub record IsSafe (h : Hub) : Type 0 where
  pub unique : Unique same h.clients
  pub known : All (λ c. c < h.fresh) h.clients
  pub opened : All (IsOpen h.cell) h.clients
  -- whoever is about to be closed is not in the map, and its pointer is not used again
  pub left : All (λ c. any (same c) h.clients ≡ false) h.leaving
  pub left_known : All (λ c. c < h.fresh) h.leaving
  pub bounded : (c : ℕ) → length (h.cell c).send ≤ send_capacity

pub new_hub-IsSafe : IsSafe new_hub
new_hub-IsSafe = record {
  unique = tt;
  known = tt;
  opened = tt;
  left = tt;
  left_known = tt;
  bounded = λ c. ground arith;
}

fresh-any : (n : ℕ) (cs : List ℕ) → All (λ c. c < n) cs → any (same n) cs ≡ false
unfolding any
fresh-any n [] k = refl
fresh-any n (c ∷ cs) (l, k) = ground (arith, fresh-any n cs k)

fresh-any_key : (n : ℕ) (cs : List ℕ) → All (λ c. c < n) cs → any (λ c. same c n) cs ≡ false
unfolding any
fresh-any_key n [] k = refl
fresh-any_key n (c ∷ cs) (l, k) = ground (arith, fresh-any_key n cs k)

-- What holds of the members of a list holds of a number that is found in it.
any_holds : (P : ℕ → Type 0) (c : ℕ) (cs : List ℕ) → any (same c) cs ≡ true → All P cs → P c
unfolding any
any_holds P c [] e h = absurd (ground arith)
any_holds P c (d ∷ cs) e (p, h) = elim (Bool-cases (nat_eq d c)) [
  | inl here ↦ let d≡c : d ≡ c = ground arith in subst P d≡c p
  | inr other ↦ any_holds P c cs (ground arith) h
]

-- Who left is not in the map, before and after the next pointer is registered.
left_append :
    (h : Hub) (cs : List ℕ)
    → All (λ c. any (same c) h.clients ≡ false) cs
    → All (λ c. c < h.fresh) cs
    → All (λ c. any (same c) (h.clients ++ h.fresh ∷ []) ≡ false) cs
left_append h [] l k = tt
left_append h (c ∷ cs) (m, l) (n, k) =
    (ground (arith, any-append_single (same c) h.clients h.fresh), left_append h cs l k)

pub register-IsSafe : (h : Hub) → IsSafe h → IsSafe (register h)
unfolding register
register-IsSafe h s =
    let unused = fresh-any h.fresh h.clients s.known in
    let older = All-mono (λ c. c < h.fresh) (λ c. c < h.fresh + 1) (λ c l. omega arith) in
    record {
      unique =
          Unique-append same h.clients h.fresh (fresh-any_key h.fresh h.clients s.known) s.unique;
      known = All-append _ h.clients (h.fresh ∷ []) (older h.clients s.known) (omega arith, tt);
      opened =
          All-append _ h.clients (h.fresh ∷ [])
            (All-IsOpen h.fresh new_client h.cell h.clients unused s.opened) (ground arith, tt);
      left = left_append h h.leaving s.left s.left_known;
      left_known = older h.leaving s.left_known;
      bounded = λ c. ground (arith, s.bounded c);
    }

removed-IsSafe :
    (h : Hub) (c : ℕ)
    → is_client c h ≡ true
    → IsSafe h
    → IsSafe (record h { clients = delete (λ d. nat_eq d c) h.clients; leaving = c ∷ h.leaving })
unfolding delete
removed-IsSafe h c e s = record {
  unique = Unique-select same _ h.clients s.unique;
  known = All-select (λ d. d < h.fresh) (λ d. d < h.fresh) _ (λ d q l. l) h.clients s.known;
  opened = All-select (IsOpen h.cell) (IsOpen h.cell) _ (λ d q l. l) h.clients s.opened;
  left = (
    any-select_none (same c) _ (λ d q. ground arith) h.clients,
    All-mono (λ d. any (same d) h.clients ≡ false)
        (λ d. any (same d) (select (λ d. not (nat_eq d c)) h.clients) ≡ false)
        (λ d l. any-select-false (same d) _ h.clients l) h.leaving s.left,
  );
  left_known = (any_holds (λ d. d < h.fresh) c h.clients e s.known, s.left_known);
  bounded = s.bounded;
}

pub remove-IsSafe : (h : Hub) (c : ℕ) → IsSafe h → IsSafe (remove c h)
unfolding remove
remove-IsSafe h c s = elim (Bool-cases (is_client c h)) [
  | inr e ↦ rw e s
  | inl e ↦ rw e (removed-IsSafe h c e s)
]

closed-IsSafe :
    (h : Hub) (c : ℕ) (v : Client)
    → v.send ≡ (h.cell c).send
    → any (same c) h.leaving ≡ true
    → IsSafe h
    → IsSafe (record h { cell = put h.cell c v; leaving = delete (λ d. nat_eq d c) h.leaving })
unfolding delete
closed-IsSafe h c v e k s =
    let IsGone : ℕ → Type 0 = λ d. any (same d) h.clients ≡ false in
    let IsKnown : ℕ → Type 0 = λ d. d < h.fresh in
    record {
      unique = s.unique;
      known = s.known;
      opened = All-IsOpen c v h.cell h.clients (any_holds IsGone c h.leaving k s.left) s.opened;
      left = All-select IsGone IsGone _ (λ d q l. l) h.leaving s.left;
      left_known = All-select IsKnown IsKnown _ (λ d q l. l) h.leaving s.left_known;
      bounded = λ d. ground (arith, e, s.bounded c, s.bounded d);
    }

pub close_send-IsSafe : (h : Hub) (c : ℕ) → IsSafe h → IsSafe (close_send c h)
unfolding close_send
close_send-IsSafe h c s = elim (Bool-cases (any (λ d. nat_eq d c) h.leaving)) [
  | inr e ↦ rw e s
  | inl e ↦ rw e (closed-IsSafe h c _ refl e s)
]
