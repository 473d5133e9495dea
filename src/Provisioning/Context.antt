-- ===== src/Provisioning/Context.antt =====
-- The helpers of the provisioning jobs: `moduleFor`, `serverConfig`, `panelContext` and
-- `buildPackageSpec` of backend/internal/modules/provisioning/service.go.
use whcms.Base.{
  ℕ, Bool, true, false, Option, none, some, List, [], ◌∷◌, if◌then◌else◌, find, is_empty, same,
}
use whcms.Base.Text.{Text, eqb_text}
use whcms.Base.Int.{ℤ}
use whcms.Base.Action.{Action, Code, ok, err, ◌>>=◌, pure, raise, or_raise, gets}
use whcms.Domain.Enums.{ServerModuleName, ProvisionKey, SpecUnit, ProvisionKey-discrete}
use whcms.Domain.Specs.{unlimited_qty, to_panel_mb}
use whcms.Domain.PackageName.{Limits, dynamic_package_name}
use whcms.Store.Tables.{Db, Service, Product, ProductSpec, Server}
use whcms.Store.Servers.{get_server}
use whcms.Provisioning.World.{Outside, ServerConfig, PackageSpec, ChosenSpec}

unfoldable pub get_product : ℕ → Action Db Product
get_product id = do or_raise (← gets (λ db. db.products id)) Code.not_found

-- The definitions are authoritative for the key and the unit of a choice.
abbrev definition_of : List ProductSpec → ChosenSpec → Option ProvisionKey × Option SpecUnit
definition_of defs c = elim (find (λ (d : ProductSpec). eqb_text d.key c.key) defs) [
  | none ↦ (c.provision_key, c.spec_unit)
  | some d ↦ (some d.provision_key, some d.spec_unit)
]

abbrev limit_of : ChosenSpec → Option SpecUnit → ℤ
limit_of c u = if c.unlimited then unlimited_qty else to_panel_mb c.qty u

abbrev with_limit : Limits → Option ProvisionKey → ℤ → Limits
with_limit limits none n = limits
with_limit limits (some k) n = λ j. if same ProvisionKey-discrete j k then some n else limits j

unfoldable pub package_limits : List ProductSpec → List ChosenSpec → Limits → Limits
package_limits defs [] limits = limits
package_limits defs (c ∷ rest) limits =
    let d = definition_of defs c in
    package_limits defs rest (with_limit limits d.0 (limit_of c d.1))

abbrev choices : Option (List ChosenSpec) → List ChosenSpec
choices none = []
choices (some cs) = cs

module _ (out : Outside) where
  open out use {is_wired, decrypt, chosen_specs, fnv64a_hex}

  -- Whether there is a panel at all; an adapter that is not wired is an error.
  unfoldable pub module_for : ServerModuleName → Action Db Bool
  module_for ServerModuleName.unmanaged = pure false
  module_for m = if is_wired m then pure true else raise Code.internal

  -- A failed decryption is reported as INTERNAL.
  unfoldable pub decrypt_secret : Text → Action Db Text
  decrypt_secret enc =
      if is_empty enc
      then pure []
      else (λ db. (elim (decrypt enc) [ ok t ↦ ok t | err c ↦ err Code.internal ], db))

  unfoldable pub server_config : Server → Action Db ServerConfig
  server_config sv = do
    password ← decrypt_secret sv.password_enc
    token ← decrypt_secret sv.api_token_enc
    pure (record { server = sv; password = password; api_token = token })

  unfoldable pub config_of : Option ℕ → Action Db (Option ServerConfig)
  config_of none = pure none
  config_of (some id) = do sv ← get_server id; cfg ← server_config sv; pure (some cfg)

  unfoldable pub panel_context : Service → Action Db (Option ServerConfig)
  panel_context svc = do
    p ← get_product svc.product_id
    managed ← module_for p.server_module
    if managed then config_of svc.server_id else pure none

  unfoldable pub build_package_spec : Service → ℕ → Product → Text → Action Db PackageSpec
  build_package_spec svc product_id p prefix = do
    chosen ← λ db. (chosen_specs svc.panel_meta, db)
    defs ← gets (λ db. db.specs product_id)
    let limits = package_limits defs (choices chosen) (λ k. none)
    pure (record {
      name = dynamic_package_name fnv64a_hex prefix limits p.toggles;
      toggles = p.toggles;
      limits = limits;
    })
