-- ===== src/Provisioning/Frames.antt =====
-- What the provisioning jobs only read: the requests to the panels and the queue leave the store as it
-- is, and so do the helpers that look up a product, a server and its configuration.
use whcms.Base.{ℕ, true, false, Option, none, some, List, [], inl, inr, is_empty}
use whcms.Base.Text.{Text}
use whcms.Base.Action.{Action, Result, Code, pure}
use whcms.Base.Keeps.{
  Keeps, Result-cases, keeps_rules, pure-Keeps, raise-Keeps, if-Keeps, bind-Keeps,
}
use whcms.Domain.Enums.{ServerModuleName}
use whcms.Store.Tables.{Db, Service, Product, Server}
use whcms.Store.Services.{get_service}
use whcms.Store.Servers.{get_server, pick_server}
use whcms.Store.Cancellations.{get_pending_by_service}
use whcms.Provisioning.World.{World, Outside, PanelCall, on_db, lift_result, ask, tell, enqueue}
use whcms.Provisioning.Renewal.{Job}
use whcms.Provisioning.Context.{
  get_product, module_for, decrypt_secret, server_config, config_of, panel_context,
  build_package_spec,
}

-- A property of the store alone.
pub record Stored {μ} (P : Db → Type μ) (w : World) : Type μ where
  pub held : P w.db

module _ {μ} {P : Db → Type μ} where
  pub on_db-Keeps {κ} : {A : Type κ} (m : Action Db A) → Keeps P m → Keeps (Stored P) (on_db m)
  unfolding on_db
  on_db-Keeps m h = record { at = λ w p. record { held = h.at w.db p.held } }

  pub lift_result-Keeps {κ} : {A : Type κ} (r : Result A) → Keeps (Stored P) (lift_result r)
  unfolding lift_result
  lift_result-Keeps r = record { at = λ w p. record { held = p.held } }

  pub ask-Keeps {κ} :
      {A : Type κ} (c : PanelCall) (f : List PanelCall → Result A) → Keeps (Stored P) (ask c f)
  unfolding ask
  ask-Keeps c f = record { at = λ w p. record { held = p.held } }

  pub get_service-Keeps : (id : ℕ) → Keeps P (get_service id)
  unfolding get_service
  get_service-Keeps id = search keeps_rules

  pub get_server-Keeps : (id : ℕ) → Keeps P (get_server id)
  unfolding get_server
  get_server-Keeps id = search keeps_rules

  pub pick_server-Keeps : (created_at : ℕ → ℕ) (group : ℕ) → Keeps P (pick_server created_at group)
  unfolding pick_server
  pick_server-Keeps created_at group = search keeps_rules

  pub get_product-Keeps : (id : ℕ) → Keeps P (get_product id)
  unfolding get_product
  get_product-Keeps id = search keeps_rules

  pub get_pending_by_service-Keeps : (id : ℕ) → Keeps P (get_pending_by_service id)
  unfolding get_pending_by_service
  get_pending_by_service-Keeps id = search keeps_rules

  module _ (out : Outside) where
    pub tell-Keeps : (c : PanelCall) → Keeps (Stored P) (tell out c)
    unfolding tell
    tell-Keeps c = ask-Keeps c (λ calls. out.command calls c)

    pub enqueue-Keeps : (j : Job) → Keeps (Stored P) (enqueue out j)
    unfolding enqueue
    enqueue-Keeps j = record {
      at = λ w p. elim (Result-cases (out.accepts w.jobs j)) [
        | inl (u, e) ↦ rw (e, enqueue) (record { held = p.held })
        | inr (c, e) ↦ rw (e, enqueue) (record { held = p.held })
      ];
    }

    pub module_for-Keeps : (m : ServerModuleName) → Keeps P (module_for out m)
    unfolding module_for
    module_for-Keeps ServerModuleName.unmanaged = pure-Keeps false
    module_for-Keeps ServerModuleName.cpanel =
        if-Keeps (out.is_wired ServerModuleName.cpanel) _ _ (pure-Keeps true)
          (raise-Keeps Code.internal)
    module_for-Keeps ServerModuleName.directadmin =
        if-Keeps (out.is_wired ServerModuleName.directadmin) _ _ (pure-Keeps true)
          (raise-Keeps Code.internal)

    pub decrypt_secret-Keeps : (t : Text) → Keeps P (decrypt_secret out t)
    unfolding decrypt_secret
    decrypt_secret-Keeps t =
        if-Keeps (is_empty t) (pure []) _ (pure-Keeps []) (record { at = λ db p. p })

    pub server_config-Keeps : (sv : Server) → Keeps P (server_config out sv)
    unfolding server_config
    server_config-Keeps sv = search (keeps_rules, decrypt_secret-Keeps)

    pub config_of-Keeps : (o : Option ℕ) → Keeps P (config_of out o)
    unfolding config_of
    config_of-Keeps none = pure-Keeps none
    config_of-Keeps (some id) = search (keeps_rules, get_server-Keeps, server_config-Keeps)

    pub panel_context-Keeps : (svc : Service) → Keeps P (panel_context out svc)
    unfolding panel_context
    panel_context-Keeps svc =
        search (keeps_rules, if-Keeps, get_product-Keeps, module_for-Keeps, config_of-Keeps) depth
          20

    pub build_package_spec-Keeps :
        (svc : Service) (id : ℕ) (p : Product) (prefix : Text)
        → Keeps P (build_package_spec out svc id p prefix)
    unfolding build_package_spec
    build_package_spec-Keeps svc id p prefix =
        bind-Keeps _ _ (record { at = λ db h. h }) (λ chosen. search keeps_rules)
