-- ===== src/Plugins/Routes.antt =====
-- The routes that the plugins of plugins/budgets and plugins/costbreakdown declare, behind the handlers
-- that internal/plugin/manager.go mounts for them.
use fin_guard.Prelude.{
  ℕ, String, Option, none, some, List, ◌≡◌, refl, ◌⊎◌, inl, inr, All, map, length,
}
use fin_guard.Float64.{Float64}
use fin_guard.Plugins.{ExecuteResponse}
use fin_guard.Plugins.Manager.{Executed, responded, refused, mount_plugin}
use fin_guard.Plugins.Manager.Handler.{PluginReply, error_text, plugin_reply}
use fin_guard.Plugins.Budgets
use fin_guard.Plugins.Budgets.Handlers

-- The pair of a response and an error, with the text of the error of json.
abbrev pub executed : String → Option ExecuteResponse → Executed
executed text none = refused text
executed text (some r) = responded r

-- Status 200, or an error of json.
abbrev pub IsAnswered : String → PluginReply → Type 0
IsAnswered text r = (r.status ≡ 200) ⊎ ((r.status ≡ 500) × (r.body ≡ error_text text))

module _ (F : Float64) (text : String) where
  open F use {Carrier}

  found-IsAnswered :
      (json : Budgets.BudgetsJson Carrier) (body : Option String)
      → IsAnswered text (plugin_reply (executed text (Handlers.found_data F json body)))
  unfolding plugin_reply
  found-IsAnswered json none = inr (refl, refl)
  found-IsAnswered json (some body) = inl refl

  -- Every route that the budget plugin declares is mounted and answered: with status 200, or with 500
  -- and the error of json, whatever the plugin's state.
  pub budgets_routes :
      (json : Budgets.BudgetsJson Carrier) (params : List (String × String))
      (p : Budgets.Plugin Carrier) (n : ℕ)
      → (map (λ m. m.path) (mount_plugin "budgets" n Budgets.metadata.routes)
          ≡ map (λ r. r.path) Budgets.metadata.routes)
        × All
            (λ m. IsAnswered text (
              plugin_reply (
                executed text
                  (Handlers.execute F json (record { action = m.path; params = params }) p))))
            (mount_plugin "budgets" n Budgets.metadata.routes)
  unfolding Handlers.execute Handlers.handle_status Handlers.handle_config mount_plugin
  budgets_routes json params p n = (
    refl,
    (
      found-IsAnswered json (json.marshal_statuses p.statuses (length p.statuses)),
      (found-IsAnswered json (json.marshal_budgets p.budgets), tt),
    ),
  )
