-- ===== src/Provisioning/Panels.antt =====
-- The requests to the panels of backend/internal/modules/provisioning/service.go and its clean-up of unused
-- packages, as far as the store goes.
use whcms.Base.{Bool, true, false, Option, none, some, inl, inr, Option-cases}
use whcms.Base.Text.{Text}
use whcms.Base.Action.{Result, ok, err}
use whcms.Base.Keeps.{Keeps, keeps_rules, pure-Keeps, if-Keeps}
use whcms.Base.Each.{attempt-Keeps}
use whcms.Store.Tables.{Db, Service}
use whcms.Provisioning.World.{Outside, PanelCall, ServerConfig}
use whcms.Provisioning.Lifecycle
use whcms.Provisioning.Lifecycle.{has_status}
use whcms.Provisioning.Frames.{Stored, ask-Keeps, tell-Keeps}

module _ (out : Outside) where
  pub on_panel-Keeps {μ} :
      {P : Db → Type μ} (cfg : Option ServerConfig) (call : ServerConfig → PanelCall)
      → Keeps (Stored P) (Lifecycle.on_panel out cfg call)
  unfolding Lifecycle.on_panel
  on_panel-Keeps none call = pure-Keeps tt
  on_panel-Keeps (some cfg) call = tell-Keeps out (call cfg)

  delete_unused-Keeps {μ} :
      {P : Db → Type μ} (cfg : ServerConfig) (pkg : Text) (r : Result Bool)
      → Keeps (Stored P) (Lifecycle.delete_unused out cfg pkg r)
  unfolding Lifecycle.delete_unused
  delete_unused-Keeps cfg pkg (ok false) = search (keeps_rules, attempt-Keeps, tell-Keeps)
  delete_unused-Keeps cfg pkg (ok true) = pure-Keeps tt
  delete_unused-Keeps cfg pkg (err c) = pure-Keeps tt

  pub cleanup_dynamic_package-Keeps {μ} :
      {P : Db → Type μ} (svc : Service) (cfg : ServerConfig) (pkg : Text)
      → Keeps (Stored P) (Lifecycle.cleanup_dynamic_package out svc cfg pkg)
  unfolding Lifecycle.cleanup_dynamic_package
  cleanup_dynamic_package-Keeps svc cfg pkg = elim (Option-cases svc.server_id) [
    | inl e ↦ rw (e, Lifecycle.cleanup_dynamic_package) (pure-Keeps tt)
    | inr (server, e) ↦
        rw (e, Lifecycle.cleanup_dynamic_package)
          (search (keeps_rules, if-Keeps, attempt-Keeps, ask-Keeps, delete_unused-Keeps) depth 20)
  ]

  pub cleanup_on-Keeps {μ} :
      {P : Db → Type μ} (cfg : Option ServerConfig) (svc : Service)
      → Keeps (Stored P) (Lifecycle.cleanup_on out cfg svc)
  unfolding Lifecycle.cleanup_on
  cleanup_on-Keeps none svc = pure-Keeps tt
  cleanup_on-Keeps (some cfg) svc =
      cleanup_dynamic_package-Keeps svc cfg (out.package_name svc.panel_meta)
