-- ===== src/Plugins/Manager/Names.antt =====
-- Which plugins the manager of internal/plugin/manager.go holds.
use mathlib.Core.List.Perm
use fin_guard.Prelude.{
  ℕ, String, Option, none, some, List, [], ◌∷◌, ◌++◌, map, ◌≡◌, refl, sym, ap, ◌∙◌, subst, Bool,
  Bool-cases, inl, inr, ◌==◌, if◌then◌else◌, any, All, All-append, Unique, Unique-append, arith,
  eq_iff, Perm, any-Perm, Unique-Perm, true, false,
}
use fin_guard.Plugins.{Metadata}
use fin_guard.Plugins.Manager.{
  Instances, RegisteredPlugin, Manager, new_manager, is_registered, with_metadata, register,
  list_plugins,
}

-- The plugins of a manager that `Register` alone has filled.
pub data Registered {W : Type 0} (is : Instances W) : Manager → Type 0 where
  created : Registered is new_manager
  registers : (m : Manager) (p : ℕ) (w : W) → Registered is m → Registered is (register is p w m).1

abbrev IsKeyed : String × RegisteredPlugin → Type 0
IsKeyed x = x.0 ≡ x.1.meta.name

abbrev pub same_name : Metadata → Metadata → Bool
same_name x y = y.name == x.name

-- The metadata of the map's entries.
abbrev metas : Manager → List Metadata
metas m = map (λ x. x.1.meta) m.plugins

any-IsKeyed :
    (name : String) (ps : List (String × RegisteredPlugin))
    → All IsKeyed ps
    → any (λ x. x.0 == name) ps ≡ any (λ x. x.name == name) (map (λ x. x.1.meta) ps)
unfolding any
any-IsKeyed name [] k = refl
any-IsKeyed name (p ∷ ps) (e, k) = rw (e, any-IsKeyed name ps k) refl

any-same_name :
    (meta : Metadata) (ms : List Metadata)
    → any (λ x. same_name x meta) ms ≡ any (λ x. x.name == meta.name) ms
unfolding any
any-same_name meta [] = refl
any-same_name meta (x ∷ xs) =
    ground (arith, eq_iff x.name meta.name, eq_iff meta.name x.name, any-same_name meta xs)

same_name_swaps : (x y : Metadata) → same_name x y ≡ same_name y x
same_name_swaps x y = ground (arith, eq_iff x.name y.name, eq_iff y.name x.name)

map-append_single :
    (ps : List (String × RegisteredPlugin)) (name : String) (rp : RegisteredPlugin)
    → map (λ x. x.1.meta) (ps ++ (name, rp) ∷ []) ≡ map (λ x. x.1.meta) ps ++ rp.meta ∷ []
map-append_single [] name rp = refl
map-append_single (p ∷ ps) name rp = ap (λ xs. p.1.meta ∷ xs) (map-append_single ps name rp)

-- The loop over the map meets each entry once, in some order.
abbrev pub IsOrder : (List (String × RegisteredPlugin) → List (String × RegisteredPlugin)) → Type 0
IsOrder visit = (ps : List (String × RegisteredPlugin)) → Perm (visit ps) ps

listed-metas :
    (visit : List (String × RegisteredPlugin) → List (String × RegisteredPlugin)) (m : Manager)
    → IsOrder visit
    → Perm (list_plugins visit m) (metas m)
unfolding list_plugins
listed-metas visit m o = Perm.map (λ x. x.1.meta) (o m.plugins)

module _ {W : Type 0} (is : Instances W) where
  with_metadata-IsKeyed :
      (p : ℕ) (m : Manager) (meta : Option Metadata)
      → All IsKeyed m.plugins
      → All IsKeyed (with_metadata p m meta).1.plugins
  with_metadata-IsKeyed p m none h = h
  with_metadata-IsKeyed p m (some meta) h = elim (Bool-cases (is_registered meta.name m)) [
    | inl e ↦ rw e h
    | inr e ↦ rw e (All-append IsKeyed m.plugins _ h (refl, tt))
  ]

  Registered-IsKeyed : (m : Manager) → Registered is m → All IsKeyed m.plugins
  unfolding register
  Registered-IsKeyed _ created = tt
  Registered-IsKeyed _ (registers m p w r) =
      with_metadata-IsKeyed p m (is.get_metadata p w) (Registered-IsKeyed m r)

  -- Whether a plugin has this name.
  abbrev is_taken : Metadata → Manager → Bool
  is_taken meta m = any (λ x. x.name == meta.name) (metas m)

  registered_list :
      (p : ℕ) (m : Manager) (meta : Metadata)
      → All IsKeyed m.plugins
      → ((with_metadata p m (some meta)).0
          ≡ (if is_taken meta m then some "already registered" else none))
        × (metas (with_metadata p m (some meta)).1
            ≡ (if is_taken meta m then metas m else metas m ++ meta ∷ []))
  registered_list p m meta k = elim (Bool-cases (is_registered meta.name m)) [
    | inl e ↦ rw (e, sym (any-IsKeyed meta.name m.plugins k) ∙ e) (refl, refl)
    | inr e ↦
        rw (e, sym (any-IsKeyed meta.name m.plugins k) ∙ e)
          (refl, map-append_single m.plugins meta.name _)
  ]

  with_metadata-Unique :
      (p : ℕ) (m : Manager) (meta : Option Metadata)
      → All IsKeyed m.plugins
      → Unique same_name (metas m)
      → Unique same_name (metas (with_metadata p m meta).1)
  with_metadata-Unique p m none k u = u
  with_metadata-Unique p m (some meta) k u =
      let (_, e) = registered_list p m meta k in
      subst (Unique same_name) (sym e) (elim (Bool-cases (is_taken meta m)) [
        | inl taken ↦ rw taken u
        | inr free ↦
            rw free (Unique-append same_name (metas m) meta (any-same_name meta (metas m) ∙ free) u)
      ])

  Registered-Unique : (m : Manager) → Registered is m → Unique same_name (metas m)
  unfolding register
  Registered-Unique _ created = tt
  Registered-Unique _ (registers m p w r) =
      with_metadata-Unique p m (is.get_metadata p w) (Registered-IsKeyed m r)
        (Registered-Unique m r)

  Perm-registered :
      (taken : Bool) (meta : Metadata) (xs ys zs : List Metadata)
      → Perm xs (if taken then ys else ys ++ meta ∷ [])
      → Perm zs ys
      → Perm xs (if taken then zs else zs ++ meta ∷ [])
  Perm-registered true meta xs ys zs d e = Perm.trans d (Perm.symm e)
  Perm-registered false meta xs ys zs d e =
      Perm.trans d (Perm.append_right (meta ∷ []) (Perm.symm e))

  -- In a manager that `Register` alone has filled, and whatever orders the loops of two calls of
  -- `ListPlugins` meet its map in, the plugins that the first lists have distinct names. A registration
  -- of a further plugin, whose metadata can be read, is refused exactly where one of them has its name;
  -- the second call, after it, then lists the same plugins, and otherwise those and the new one, in some
  -- order.
  pub list_plugins-register :
      (visit later : List (String × RegisteredPlugin) → List (String × RegisteredPlugin)) (p : ℕ)
      (w : W) (m : Manager) (meta : Metadata)
      → IsOrder visit
      → IsOrder later
      → Registered is m
      → is.get_metadata p w ≡ some meta
      → Unique same_name (list_plugins visit m)
        × ((register is p w m).0 ≡ (
            if any (λ x. x.name == meta.name) (list_plugins visit m)
            then some "already registered"
            else none))
        × Perm (list_plugins later (register is p w m).1) (
            if any (λ x. x.name == meta.name) (list_plugins visit m)
            then list_plugins visit m
            else list_plugins visit m ++ meta ∷ [])
  unfolding register
  list_plugins-register visit later p w m meta o o' r h =
      let (refused, listed) = registered_list p m meta (Registered-IsKeyed m r) in
      let before = listed-metas visit m o in
      let after = listed-metas later (with_metadata p m (some meta)).1 o' in
      let taken = any-Perm (λ x. x.name == meta.name) (list_plugins visit m) (metas m) before in
      (
        Unique-Perm same_name same_name_swaps (metas m) (list_plugins visit m) (Perm.symm before)
            (Registered-Unique m r),
        rw (h, taken) refused,
        rw (h, taken)
            (Perm-registered (is_taken meta m) meta _ (metas m) (list_plugins visit m)
              (subst (Perm (list_plugins later (with_metadata p m (some meta)).1)) listed after)
              before),
      )
