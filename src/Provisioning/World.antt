-- ===== src/Provisioning/World.antt =====
-- The world of the provisioning jobs of backend/internal/modules/provisioning/service.go: the store,
-- the requests that the hosting panels got, and the jobs that were put on the queue. What a panel
-- answers is a function of all requests so far.
use whcms.Base.{ℕ, Bool, Option, List, [], ◌∷◌, ◌++◌}
use whcms.Base.Text.{Text}
use whcms.Base.Int.{ℤ}
use whcms.Base.Action.{Action, Result, ok, err}
use whcms.Domain.Enums.{ServerModuleName, ProvisionKey, SpecUnit}
use whcms.Domain.Calendar.{Time}
use whcms.Domain.PackageName.{Limits}
use whcms.Store.Tables.{Db, Server, PackageToggles}
use whcms.Provisioning.Renewal.{Job}

-- A server row with its decrypted secrets.
pub record ServerConfig : Type 0 where
  pub server : Server
  pub password : Text
  pub api_token : Text

pub record CreateAccountParams : Type 0 where
  pub username : Text
  pub domain_name : Text
  pub password : Text
  pub package_name : Text
  pub email : Text
  pub ip : Text

-- `meta` is JSON.
pub record AccountResult : Type 0 where
  pub username : Text
  pub ip : Text
  pub meta : Text

pub record AccountInfo : Type 0 where
  pub username : Text
  pub domain_name : Text
  pub meta : Text

pub record PackageSpec : Type 0 where
  pub name : Text
  pub toggles : PackageToggles
  pub limits : Limits

pub data PanelCall : Type 0 where
  create : ServerConfig → CreateAccountParams → PanelCall
  account_info unsuspend terminate : ServerConfig → Text → PanelCall
  suspend change_package : ServerConfig → Text → Text → PanelCall
  ensure_package : ServerConfig → PackageSpec → PanelCall
  package_in_use delete_package : ServerConfig → Text → PanelCall

pub record World : Type 0 where
  pub db : Db
  pub calls : List PanelCall
  pub jobs : List Job

-- One chosen specification in panel_meta; an unknown key or unit has none.
pub record ChosenSpec : Type 0 where
  pub key : Text
  pub provision_key : Option ProvisionKey
  pub spec_unit : Option SpecUnit
  pub qty : ℤ
  pub unlimited : Bool

-- What the jobs rely on outside of the modules: the panels, the queue, the encryption, the JSON
-- of panel_meta, the hash of a package name, the stamps of the database and the address of a client.
pub record Outside : Type 0 where
  pub is_wired : ServerModuleName → Bool
  pub create : List PanelCall → ServerConfig → CreateAccountParams → Result AccountResult
  pub account_info : List PanelCall → ServerConfig → Text → Result AccountInfo
  pub command : List PanelCall → PanelCall → Result (Unit {0})
  pub package_in_use : List PanelCall → ServerConfig → Text → Result Bool
  pub accepts : List Job → Job → Result (Unit {0})
  pub decrypt : Text → Result Text
  pub chosen_specs : Text → Result (Option (List ChosenSpec))
  pub package_name : Text → Text
  pub with_package : Text → PackageSpec → Text
  pub without_package : Text → Text
  pub with_account : Text → AccountResult → Text
  pub with_suspended_at : Text → Time → Text
  pub without_suspended_at : Text → Text
  pub with_cancel_at_period_end : Text → Text
  pub fnv64a_hex : Text → Text
  pub created_at : ℕ → ℕ
  pub email_of : ℕ → Text

-- A call on the store alone.
unfoldable pub on_db {κ} : {A : Type κ} → Action Db A → Action World A
on_db m w = let (r, db') = m w.db in (r, record w { db = db' })

unfoldable pub lift_result {κ} : {A : Type κ} → Result A → Action World A
lift_result r w = (r, w)

-- A request to a panel, and its answer.
unfoldable pub ask {κ} : {A : Type κ} → PanelCall → (List PanelCall → Result A) → Action World A
ask c answer w = (answer w.calls, record w { calls = w.calls ++ (c ∷ []) })

module _ (out : Outside) where
  open out use {command, accepts}

  unfoldable pub tell : PanelCall → Action World (Unit {0})
  unfolding ask
  tell c = ask c (λ calls. command calls c)

  -- A refused job is not on the queue.
  unfoldable pub enqueue : Job → Action World (Unit {0})
  enqueue j w = elim (accepts w.jobs j) [
    | ok u ↦ (ok tt, record w { jobs = w.jobs ++ (j ∷ []) })
    | err c ↦ (err c, w)
  ]
