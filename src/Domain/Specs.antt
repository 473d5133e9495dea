-- ===== src/Domain/Specs.antt =====
-- backend/internal/domain/specs.go: resource limits as panel parameters.
use whcms.Base.{◌≡◌, Bool, true, false, Option, none, some, if◌then◌else◌, arith}
use whcms.Base.Text.{Text, bytes}
use whcms.Base.Int.{ℤ, pos, negsuc, eqb_ℤ}
use whcms.Base.Word.{mul64}
use whcms.Domain.Enums.{ServerModuleName, ProvisionKey, SpecUnit}

abbrev pub unlimited_qty : ℤ
unlimited_qty = negsuc 0

-- `none` is a string that is no known unit.
unfoldable pub to_panel_mb : ℤ → Option SpecUnit → ℤ
to_panel_mb qty (some SpecUnit.gb) =
    if eqb_ℤ qty unlimited_qty then unlimited_qty else mul64 qty (pos 1024)
to_panel_mb qty _ = if eqb_ℤ qty unlimited_qty then unlimited_qty else qty

-- The parameter's name and whether it is a size; `none` is `ok = false`.
unfoldable pub panel_param : ServerModuleName → ProvisionKey → Option (Text × Bool)
panel_param ServerModuleName.cpanel ProvisionKey.disk = some (bytes "quota", true)
panel_param ServerModuleName.cpanel ProvisionKey.bandwidth = some (bytes "bwlimit", true)
panel_param ServerModuleName.cpanel ProvisionKey.addon_domains = some (bytes "maxaddon", false)
panel_param ServerModuleName.cpanel ProvisionKey.subdomains = some (bytes "maxsub", false)
panel_param ServerModuleName.cpanel ProvisionKey.parked_domains = some (bytes "maxpark", false)
panel_param ServerModuleName.cpanel ProvisionKey.email_accounts = some (bytes "maxpop", false)
panel_param ServerModuleName.cpanel ProvisionKey.databases = some (bytes "maxsql", false)
panel_param ServerModuleName.cpanel ProvisionKey.ftp_accounts = some (bytes "maxftp", false)
panel_param ServerModuleName.directadmin ProvisionKey.disk = some (bytes "quota", true)
panel_param ServerModuleName.directadmin ProvisionKey.bandwidth = some (bytes "bandwidth", true)
panel_param ServerModuleName.directadmin ProvisionKey.addon_domains = some (bytes "vdomains", false)
panel_param ServerModuleName.directadmin ProvisionKey.subdomains = some (bytes "nsubdomains", false)
panel_param ServerModuleName.directadmin ProvisionKey.parked_domains =
    some (bytes "domainptr", false)
panel_param ServerModuleName.directadmin ProvisionKey.email_accounts = some (bytes "nemails", false)
panel_param ServerModuleName.directadmin ProvisionKey.databases = some (bytes "mysql", false)
panel_param ServerModuleName.directadmin ProvisionKey.ftp_accounts = some (bytes "ftp", false)
panel_param ServerModuleName.unmanaged _ = none

-- The limits of a panel do not collide: on one panel, two resources that have a parameter of one
-- name are one resource.
pub panel_param_injective :
    (m : ServerModuleName) (j k : ProvisionKey) (p : Text × Bool)
    → panel_param m j ≡ some p
    → panel_param m k ≡ some p
    → j ≡ k
unfolding panel_param
panel_param_injective ServerModuleName.cpanel j k p a b = ground arith
panel_param_injective _ j k p a b = ground arith
