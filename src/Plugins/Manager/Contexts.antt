-- ===== src/Plugins/Manager/Contexts.antt =====
-- Which bridges of internal/plugin/manager.go run.
use fin_guard.Prelude.{
  ℕ, ◌+◌, String, Option, none, some, List, [], ◌∷◌, ◌++◌, ◌≡◌, refl, ap, ◌∙◌, Bool-cases, inl, inr,
  nat_eq, delete, arith,
}
use fin_guard.Plugins.{Metadata, InitRequest}
use fin_guard.Plugins.Manager.{
  Instances, RegisteredPlugin, Manager, is_registered, with_metadata, register, initialize_each,
  initialize_all, cancelled, shutdown_each, shutdown_all,
}
use fin_guard.Plugins.Manager.Names.{Registered, created, registers}

-- The contexts that the `cancel` fields cancel.
abbrev cancel_of : Option ℕ → List ℕ → List ℕ
cancel_of none rest = rest
cancel_of (some n) rest = n ∷ rest

unfoldable contexts : List (String × RegisteredPlugin) → List ℕ
contexts [] = []
contexts ((name, rp) ∷ ps) = cancel_of rp.cancel (contexts ps)

delete-delete :
    (a b : ℕ) (xs : List ℕ)
    → delete (λ x. nat_eq x a) (delete (λ x. nat_eq x b) xs)
      ≡ delete (λ x. nat_eq x b) (delete (λ x. nat_eq x a) xs)
unfolding delete
delete-delete a b [] = refl
delete-delete a b (x ∷ xs) = ground (arith, delete-delete a b xs)

delete_first :
    (n : ℕ) (xs : List ℕ) → delete (λ x. nat_eq x n) (n ∷ xs) ≡ delete (λ x. nat_eq x n) xs
unfolding delete
delete_first n xs = ground arith

cancelled-delete :
    (o : Option ℕ) (b : ℕ) (xs : List ℕ)
    → cancelled o (delete (λ x. nat_eq x b) xs) ≡ delete (λ x. nat_eq x b) (cancelled o xs)
cancelled-delete none b xs = refl
cancelled-delete (some n) b xs = delete-delete n b xs

cancel_of-nil : (o : Option ℕ) (xs : List ℕ) → cancel_of o xs ≡ [] → (o ≡ none) × (xs ≡ [])
cancel_of-nil none xs h = (refl, h)
cancel_of-nil (some n) xs h = absurd (ground arith)

module _ {W : Type 0} (is : Instances W) where
  shutdown_each-delete :
      (ps : List (String × RegisteredPlugin)) (b : ℕ) (xs : List ℕ) (w v : W)
      → (shutdown_each is ps (delete (λ x. nat_eq x b) xs) w).0
        ≡ delete (λ x. nat_eq x b) (shutdown_each is ps xs v).0
  unfolding shutdown_each
  shutdown_each-delete [] b xs w v = refl
  shutdown_each-delete ((name, rp) ∷ ps) b xs w v =
      ap (λ ys. (shutdown_each is ps ys (is.shutdown rp.instance_id w)).0)
        (cancelled-delete rp.cancel b xs)
      ∙ shutdown_each-delete ps b (cancelled rp.cancel xs) (is.shutdown rp.instance_id w)
          (is.shutdown rp.instance_id v)

  cancels_first :
      (o : Option ℕ) (ps : List (String × RegisteredPlugin)) (w : W)
      → (shutdown_each is ps (contexts ps) w).0 ≡ []
      → (shutdown_each is ps (cancelled o (cancel_of o (contexts ps))) w).0 ≡ []
  unfolding delete
  cancels_first none ps w h = h
  cancels_first (some n) ps w h =
      ap (λ xs. (shutdown_each is ps xs w).0) (delete_first n (contexts ps))
      ∙ shutdown_each-delete ps n (contexts ps) w w
      ∙ ap (delete (λ x. nat_eq x n)) h

  -- The loop of `ShutdownAll` cancels every context that the plugins hold.
  shutdown_each-contexts :
      (ps : List (String × RegisteredPlugin)) (w : W) → (shutdown_each is ps (contexts ps) w).0 ≡ []
  unfolding shutdown_each contexts
  shutdown_each-contexts [] w = refl
  shutdown_each-contexts ((name, rp) ∷ ps) w =
      cancels_first rp.cancel ps (is.shutdown rp.instance_id w)
        (shutdown_each-contexts ps (is.shutdown rp.instance_id w))

  initialize_each-contexts :
      (req : InitRequest) (n : ℕ) (ps : List (String × RegisteredPlugin)) (w : W)
      → contexts ps ≡ []
      → (initialize_each is req n ps w).1 ≡ contexts (initialize_each is req n ps w).0
  unfolding initialize_each contexts
  initialize_each-contexts req n [] w h = refl
  initialize_each-contexts req n ((name, rp) ∷ ps) w h =
      let (without, rest) = cancel_of-nil rp.cancel (contexts ps) h in
      let done = is.initialize rp.instance_id req w in
      let more = initialize_each-contexts req (n + 1) ps done.1 rest in
      elim (Bool-cases done.0) [
        | inl failed ↦ rw (failed, without) more
        | inr fine ↦ rw fine (ap (λ xs. n ∷ xs) more)
      ]

  contexts-append :
      (ps : List (String × RegisteredPlugin)) (name : String) (rp : RegisteredPlugin)
      → rp.cancel ≡ none
      → contexts (ps ++ (name, rp) ∷ []) ≡ contexts ps
  unfolding contexts
  contexts-append [] name rp h = rw h refl
  contexts-append (p ∷ ps) name rp h = ap (cancel_of p.1.cancel) (contexts-append ps name rp h)

  -- Before `InitializeAll`, no plugin holds a context and no bridge runs, and the names are distinct.
  abbrev IsIdle : Manager → Type 0
  IsIdle m = (contexts m.plugins ≡ []) × (m.bridges ≡ [])

  with_metadata-IsIdle :
      (p : ℕ) (m : Manager) (meta : Option Metadata) → IsIdle m → IsIdle (with_metadata p m meta).1
  with_metadata-IsIdle p m none h = h
  with_metadata-IsIdle p m (some meta) (h, b) = elim (Bool-cases (is_registered meta.name m)) [
    | inl e ↦ rw e (h, b)
    | inr e ↦ rw e (contexts-append m.plugins meta.name _ refl ∙ h, b)
  ]

  Registered-IsIdle : (m : Manager) → Registered is m → IsIdle m
  unfolding contexts register
  Registered-IsIdle _ created = (refl, refl)
  Registered-IsIdle _ (registers m p w r) =
      with_metadata-IsIdle p m (is.get_metadata p w) (Registered-IsIdle m r)

  -- Whatever plugins were registered, whichever of them fail to initialise and whatever they do in the
  -- meantime, `ShutdownAll` after one `InitializeAll` leaves no bridge running.
  pub shutdown_all-initialize_all :
      (url : String) (m : Manager) (w later : W)
      → Registered is m
      → (shutdown_all is later (initialize_all is url w m).0).0.bridges ≡ []
  unfolding shutdown_all initialize_all
  shutdown_all-initialize_all url m w later r =
      let (none_held, none_runs) = Registered-IsIdle m r in
      let req : InitRequest = record { config = ""; open_cost_url = url } in
      ap (λ bs. (shutdown_each is (initialize_each is req 0 m.plugins w).0 bs later).0)
        (ap (λ bs. bs ++ (initialize_each is req 0 m.plugins w).1) none_runs
          ∙ initialize_each-contexts req 0 m.plugins w none_held)
      ∙ shutdown_each-contexts (initialize_each is req 0 m.plugins w).0 later
