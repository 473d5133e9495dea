-- ===== src/Provisioning/Package.antt =====
-- `ProvisionChangePackage` of backend/internal/modules/provisioning/service.go.
use whcms.Base.{ℕ, ◌||◌, Option, none, some, if◌then◌else◌, is_empty}
use whcms.Base.Text.{Text, eqb_text}
use whcms.Base.Action.{Action, ◌>>=◌, ◌>>◌, pure}
use whcms.Store.Tables.{Service, Product}
use whcms.Store.Services.{get_service, update_service}
use whcms.Provisioning.World.{World, Outside, PanelCall, ServerConfig, PackageSpec, on_db, tell}
use whcms.Provisioning.Context.{get_product, panel_context}
use whcms.Provisioning.Lifecycle.{ensure_package, cleanup_dynamic_package}

-- The bookkeeping of the package that the service has now; a flat product has none.
abbrev rebuilt :
    (Text → PackageSpec → Text) → (Text → Text) → Option PackageSpec → Service → Service
rebuilt put_spec drop_spec none svc = record svc { panel_meta = drop_spec svc.panel_meta }
rebuilt put_spec drop_spec (some s) svc = record svc { panel_meta = put_spec svc.panel_meta s }

module _ (out : Outside) where
  open out use {package_name, with_package, without_package}

  unfoldable pub move_package : Service → Product → Option ServerConfig → Action World (Unit {0})
  move_package svc p none = pure tt
  move_package svc p (some cfg) = do
    let old = package_name svc.panel_meta
    pkg ← ensure_package out cfg svc p
    tell out (PanelCall.change_package cfg svc.username pkg.0)
    on_db (update_service (rebuilt with_package without_package pkg.1 svc))
    if is_empty old || eqb_text old pkg.0
        then pure tt
        else cleanup_dynamic_package out (rebuilt with_package without_package pkg.1 svc) cfg old

  unfoldable pub provision_change_package : ℕ → Action World (Unit {0})
  provision_change_package id = do
    svc ← on_db (get_service id)
    p ← on_db (get_product svc.product_id)
    cfg ← on_db (panel_context out svc)
    move_package svc p cfg
