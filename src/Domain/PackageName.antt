-- ===== src/Domain/PackageName.antt =====
-- `DynamicPackageName` of backend/internal/domain/specs.go: the name of a panel package, from what it
-- allows. The 64-bit FNV-1a hash in hexadecimal is a parameter.
use whcms.Base.{Bool, true, false, Option, none, some, List, [], ◌∷◌, ◌++◌}
use whcms.Base.Text.{Text, bytes}
use whcms.Base.Int.{ℤ}
use whcms.Domain.Enums.{ProvisionKey}
use whcms.Domain.Money.{format_int}
use whcms.Store.Tables.{PackageToggles}

-- `map[ProvisionKey]int64`
abbrev pub Limits : Type 0
Limits = ProvisionKey → Option ℤ

abbrev pub key_text : ProvisionKey → Text
key_text ProvisionKey.disk = bytes "disk"
key_text ProvisionKey.bandwidth = bytes "bandwidth"
key_text ProvisionKey.addon_domains = bytes "addon_domains"
key_text ProvisionKey.subdomains = bytes "subdomains"
key_text ProvisionKey.parked_domains = bytes "parked_domains"
key_text ProvisionKey.email_accounts = bytes "email_accounts"
key_text ProvisionKey.databases = bytes "databases"
key_text ProvisionKey.ftp_accounts = bytes "ftp_accounts"

-- The keys in the order of `sort.Strings`.
abbrev pub sorted_keys : List ProvisionKey
sorted_keys =
    ProvisionKey.addon_domains ∷ ProvisionKey.bandwidth ∷ ProvisionKey.databases ∷ ProvisionKey.disk
    ∷ ProvisionKey.email_accounts ∷ ProvisionKey.ftp_accounts ∷ ProvisionKey.parked_domains
    ∷ ProvisionKey.subdomains ∷ []

abbrev limit_text : ProvisionKey → Option ℤ → Text
limit_text k none = []
limit_text k (some n) = key_text k ++ (b'=' ∷ (format_int n ++ (b';' ∷ [])))

unfoldable pub limits_text : Limits → List ProvisionKey → Text
limits_text limits [] = []
limits_text limits (k ∷ rest) = limit_text k (limits k) ++ limits_text limits rest

abbrev bool_text : Bool → Text
bool_text true = bytes "true"
bool_text false = bytes "false"

unfoldable pub toggles_text : PackageToggles → Text
toggles_text t =
    bytes "feat="
    ++ (t.feature_list
        ++ (bytes ";shell="
            ++ (bool_text t.shell_access
                ++ (bytes ";cgi="
                    ++ (bool_text t.cgi_access ++ (bytes ";tmpl=" ++ t.template_package))))))

-- `fnv64a_hex` is the hash of `fnv.New64a` printed with `%x`.
unfoldable pub dynamic_package_name : (Text → Text) → Text → Limits → PackageToggles → Text
dynamic_package_name fnv64a_hex prefix limits toggles =
    prefix
    ++ (bytes "whcms_spec_" ++ fnv64a_hex (limits_text limits sorted_keys ++ toggles_text toggles))
