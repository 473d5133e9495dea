-- ===== src/Provisioning/PlanChange.antt =====
-- About `UpgradeService` of backend/internal/modules/provisioning/service.go: the row of the service after a
-- change of plan that is applied at once, and after one that is to be paid for first.
use whcms.Base.{
  ℕ, ◌≡◌, ◌≢◌, refl, sym, ap, subst, ◌∙◌, Bool, true, false, some, none, List, [], ◌∷◌, ◌++◌, map,
  ◌==◌, if◌then◌else◌, inl, inr, Option-cases, arith,
}
use whcms.Base.Int.{ℤ, pos, ltb_ℤ, leb_ℤ, ◌+ℤ◌}
use whcms.Base.Word.{add64, sub64}
use whcms.Base.Float.{Float}
use whcms.Base.Action.{Action, ok, Code, within_tx, raise_if, or_raise, pure, ◌>>◌, ◌>>=◌}
use whcms.Base.Keeps.{Result-cases, keeps_rules, raise_if-Keeps}
use whcms.Base.Leads.{
  Arrives, reach-Arrives, step-Arrives, then-Arrives, via-Arrives, pure-Arrives, rollback-Arrives,
  if-Arrives,
}
use whcms.Domain.Enums.{RelatedType}
use whcms.Domain.Calendar.{Time}
use whcms.Store.Tables.{Db, Service, Product, Invoice, InvoiceItem, Client, ProductPricing, put}
use whcms.Store.Services.{update_service}
use whcms.Store.Credit.{apply_credit, add_credit}
use whcms.Store.Ledger.{Adjusts, adjust_credit-Adjusts}
use whcms.Billing.Created.{IsCreated, create_invoice-IsCreated}
use whcms.Billing.Create.{Settings}
use whcms.Provisioning.World.{World, Outside}
use whcms.Provisioning.Frames.{Stored, on_db-Keeps, enqueue-Keeps, get_product-Keeps}
use whcms.Provisioning.RowKept.{
  add_credit-HasRow, updated, known-Arrives, on_db-Arrives, get_owned-Arrives,
}
use whcms.Provisioning.History.{put_hit}
use whcms.Provisioning.Rows.{or_raise-Arrives}
use whcms.Provisioning.UpgradeSpecs.{UpgradeSpec, resolve_upgrade_specs, total_of, resolved}
use whcms.Provisioning.Upgrade.{
  UpgradeServiceInput, UpgradeJson, UpgradeResult, changed_plan, price_change, target_specs,
  target_pricing, invoice_upgrade, change_now, apply_change, upgrade_owned, upgrade_service,
}

-- The sum of what the specifications cost, in int64.
abbrev pub charged : ℤ → List UpgradeSpec → ℤ
charged sum [] = sum
charged sum (u ∷ rest) = charged (add64 sum u.amount) rest

total_of-charged : (sum : ℤ) (specs : List UpgradeSpec) → total_of sum specs ≡ charged sum specs
total_of-charged sum [] = refl
total_of-charged sum (u ∷ rest) = total_of-charged (add64 sum u.amount) rest

both_ways : {b : Bool} → b ≡ true → b ≢ false
both_ways h k = cc

-- The balance of the client is higher by the credit than it was.
abbrev pub HasCredit : Db → ℕ → ℤ → Db → Type 0
HasCredit old client credit db =
    (c : Client) × (old.clients client ≡ some c)
    × (db.clients client ≡ some (record { credit_balance = c.credit_balance +ℤ credit }))

passed :
    (b : Bool) (c : Code) (m : Action Db (Unit {0})) (db : Db) (u : Unit {0})
    → ((raise_if b c >> m) db).0 ≡ ok u
    → (raise_if b c >> m) db ≡ m db
unfolding raise_if ◌>>◌ ◌>>=◌
passed true c m db u h = cc
passed false c m db u h = refl

returned :
    {A : Type 0} (m : Action Db A) (db : Db) (u : Unit {0})
    → ((m >> pure {A = Unit {0}} tt) db).0 ≡ ok u
    → (a : A) × (m db ≡ (ok a, ((m >> pure {A = Unit {0}} tt) db).1))
unfolding ◌>>◌ ◌>>=◌ pure
returned m db u = elim (Result-cases (m db).0) [
  | inl (a, e) ↦ rw (e, ◌>>=◌) (λ h. (a, refl))
  | inr (c, e) ↦ rw (e, ◌>>=◌) (λ h. cc)
]

add_credit-HasCredit :
    (client : ℕ) (credit : ℤ) (db : Db) (u : Unit {0})
    → (add_credit true client credit 0 db).0 ≡ ok u
    → HasCredit db client credit (add_credit true client credit 0 db).1
unfolding add_credit apply_credit within_tx
add_credit-HasCredit client credit db u h =
    let rest : Action Db (Unit {0}) = apply_credit true client credit 0 >> pure tt in
    let same_run = passed (leb_ℤ credit (pos 0)) Code.validation rest db u h in
    let (b, run) =
      returned (apply_credit true client credit 0) db u (ap (λ r. r.0) (sym same_run) ∙ h) in
    let (c, found, sum, _, there, _, _, _, _, _) =
      subst (Adjusts client credit none db) run (adjust_credit-Adjusts client credit none db) in
    (
      c,
      found,
      ap (λ r. r.1.clients client) same_run
          ∙ there
          ∙ ap (λ x. some (record { credit_balance = x })) sum,
    )

module _ (out : Outside) (json : UpgradeJson) (f : Float) (settings : Settings) (now : Time)
    (id : ℕ) (svc : Service) (i : UpgradeServiceInput) where
  abbrev pub noted : ℤ → List UpgradeSpec → Invoice → Service
  noted price specs inv = record svc {
    pending_upgrade = json.encode_upgrade (record {
      product_id = i.product_id;
      cycle = i.cycle;
      recurring_amount = price;
      invoice_id = inv.id;
      specs = json.encode_specs specs;
    });
  }

  target_specs-Arrives :
      {P : Db → Type 0} (target : Product)
      → Arrives P
          (λ chosen db. (chosen.1 ≡ charged (pos 0) chosen.0) × P db)
          (target_specs out json f settings now i target)
  unfolding target_specs resolve_upgrade_specs
  target_specs-Arrives target =
      if-Arrives target.configurable _ _
        (λ b. step-Arrives _ _ (search keeps_rules) λ defs.
          step-Arrives _ _ (search keeps_rules) λ pricing. then-Arrives _ _ (search keeps_rules) (
            pure-Arrives _
              (λ db v. (total_of-charged (pos 0) (map (resolved pricing i.specs) defs), v))))
        (λ b. then-Arrives _ _ (raise_if-Keeps _ _) (pure-Arrives _ (λ db v. (refl, v))))

  target_pricing-Arrives :
      (old : Db)
      → Arrives
          (λ db. db ≡ old)
          (λ p db. (old.pricing i.product_id i.cycle ≡ some p) × (db ≡ old))
          (target_pricing i)
  unfolding target_pricing ◌>>=◌
  target_pricing-Arrives old = record {
    at = λ db p same_db. elim (Option-cases (db.pricing i.product_id i.cycle)) [
      | inl e ↦ rw (e, or_raise) (λ h. cc)
      | inr (row, e) ↦
          rw (e, or_raise)
            (λ h.
              let same_row : row ≡ p = cc in
              (
                subst (λ d. d.pricing i.product_id i.cycle ≡ some p) same_db (e ∙ ap some same_row),
                same_db,
              ))
    ];
  }

  -- The price of a whole cycle: the pricing row of the new product and cycle, and the specifications.
  pub record IsPriced (old : Db) (price : ℤ) (specs : List UpgradeSpec) : Type 0 where
    pub pricing : ProductPricing
    pub listed : old.pricing i.product_id i.cycle ≡ some pricing
    pub sum : price ≡ add64 pricing.price (charged (pos 0) specs)

  -- The new row of the service, and the credit in the balance of its client.
  pub record IsPut (old : Db) (new : Service) (credit : ℤ) (db : Db) : Type 0 where
    pub row : db.services id ≡ some new
    pub paid : ltb_ℤ (pos 0) credit ≡ true → HasCredit old svc.client_id credit db
    pub unpaid : ltb_ℤ (pos 0) credit ≡ false → db.clients ≡ old.clients

  -- The service has the new plan from now on, at the price of a whole cycle, and is due when it was due
  -- before; the credit is what the rest of the old cycle was worth more, and the client has it.
  pub record IsChanged (old : Db) (diff credit : ℤ) (db : Db) : Type 0 where
    pub price : ℤ
    pub specs : List UpgradeSpec
    pub until : Time
    pub priced : IsPriced old price specs
    pub put_down : IsPut old (changed_plan json.with_chosen_specs i price specs svc) credit db
    pub due_as_before : svc.next_due_date ≡ some until
    pub difference : diff ≡ price_change out json f settings now svc i.cycle price until
    pub not_more : ltb_ℤ (pos 0) diff ≡ false
    pub given : credit ≡ sub64 (pos 0) diff

  -- The one line of the invoice.
  abbrev pub upgrade_line : ℤ → InvoiceItem
  upgrade_line diff = record {
    invoice_id = 0;
    amount = diff;
    taxed = true;
    related_type = RelatedType.service_upgrade;
    related_id = if svc.id == 0 then none else some svc.id;
  }

  abbrev IsBilled : Db → ℤ → Invoice → Db → Type 0
  IsBilled old diff inv db = IsCreated svc.client_id (upgrade_line diff ∷ []) old inv db

  -- What is paid for with the invoice is noted on the service, which is as before otherwise; the invoice
  -- of the client has one line, over the difference.
  pub record IsRequested (old : Db) (diff : ℤ) (inv : Invoice) (db : Db) : Type 0 where
    pub price : ℤ
    pub specs : List UpgradeSpec
    pub until : Time
    pub priced : IsPriced old price specs
    pub row : db.services id ≡ some (noted price specs inv)
    pub stored : db.invoices inv.id ≡ some inv
    pub for_client : inv.client_id ≡ svc.client_id
    pub line : db.items ≡ old.items ++ (record (upgrade_line diff) { invoice_id = inv.id } ∷ [])
    pub due_as_before : svc.next_due_date ≡ some until
    pub difference : diff ≡ price_change out json f settings now svc i.cycle price until
    pub more : ltb_ℤ (pos 0) diff ≡ true

  module _ (old : Db) (there : old.services id ≡ some svc) (same_one : svc.id ≡ id) where
    abbrev AfterChange : UpgradeResult → Db → Type 0
    AfterChange (UpgradeResult.invoiced diff inv) db = IsRequested old diff inv db
    AfterChange (UpgradeResult.applied diff credit) db = IsChanged old diff credit db

    put_row :
        (new : Service)
        → new.id ≡ id
        → Arrives
            (λ db. db ≡ old)
            (λ u db. db ≡ record old { services = put old.services new.id new })
            (update_service new)
    put_row new own = record {
      at = λ db u same_db e.
          subst
            (λ d. (update_service new d).1 ≡ record old { services = put old.services new.id new })
            (sym same_db) (ap (λ p. p.1) (updated id svc new old there own));
    }

    placed :
        (new : Service)
        → new.id ≡ id
        → (db : Db) → db ≡ record old { services = put old.services new.id new }
        → db.services id ≡ some new
    placed new own db same_db =
        ap (λ d. d.services id) same_db ∙ put_hit old.services new.id id new (ground (arith, own))

    change_now-Arrives :
        (price : ℤ) (specs : List UpgradeSpec) (credit : ℤ)
        → Arrives
            (λ db. db ≡ old)
            (λ u. IsPut old (changed_plan json.with_chosen_specs i price specs svc) credit)
            (change_now out json f settings now i price specs svc credit)
    unfolding change_now within_tx
    change_now-Arrives price specs credit =
        let new = changed_plan json.with_chosen_specs i price specs svc in
        rollback-Arrives _ (
          via-Arrives _ _ (put_row new same_one) (
            if-Arrives (ltb_ℤ (pos 0) credit) _ _
              (λ more. record {
                at = λ db u same_db e. record {
                  row =
                      ((add_credit-HasRow id new true svc.client_id credit 0).at db
                        (record { there = placed new same_one db same_db })).there;
                  paid = λ h.
                      let (c, found, after) = add_credit-HasCredit svc.client_id credit db u e in
                      (c, ap (λ d. d.clients svc.client_id) (sym same_db) ∙ found, after);
                  unpaid = λ h. absurd (both_ways more h);
                };
              })
              (λ nothing. pure-Arrives tt λ db same_db. record {
                row = placed new same_one db same_db;
                paid = λ h. absurd (both_ways h nothing);
                unpaid = λ h. ap (λ d. d.clients) same_db;
              })))

    abbrev IsNotedFor : Service → ℤ → Invoice → Db → Type 0
    IsNotedFor new diff inv db =
        (db.services id ≡ some new)
        × (db.invoices inv.id ≡ some inv)
        × (inv.client_id ≡ svc.client_id)
        × (db.items ≡ old.items ++ (record (upgrade_line diff) { invoice_id = inv.id } ∷ []))

    note_row :
        (new : Service)
        → new.id ≡ id
        → (diff : ℤ) (inv : Invoice)
        → Arrives (IsBilled old diff inv) (λ u. IsNotedFor new diff inv) (update_service new)
    note_row new own diff inv = record {
      at = λ db u v e.
          let run = updated id svc new db (ap (λ t. t id) v.services ∙ there) own in
          (
            ap (λ r. r.1.services id) run ∙ put_hit db.services new.id id new (ground (arith, own)),
            ap (λ r. r.1.invoices inv.id) run ∙ v.stored,
            v.for_client,
            ap (λ r. r.1.items) run ∙ v.lines,
          );
    }

    invoice_upgrade-Arrives :
        (price : ℤ) (specs : List UpgradeSpec) (until : Time)
        → IsPriced old price specs
        → svc.next_due_date ≡ some until
        → (let diff = price_change out json f settings now svc i.cycle price until in
            ltb_ℤ (pos 0) diff ≡ true
            → Arrives
                (λ db. db ≡ old)
                AfterChange
                (invoice_upgrade out json f settings now i price specs svc diff))
    unfolding invoice_upgrade
    invoice_upgrade-Arrives price specs until priced due more =
        let diff = price_change out json f settings now svc i.cycle price until in
        reach-Arrives _ _ (create_invoice-IsCreated f settings now old _) λ inv.
          via-Arrives {Q = IsNotedFor (noted price specs inv) diff inv} _ _
            (note_row (noted price specs inv) same_one diff inv)
            (pure-Arrives (UpgradeResult.invoiced diff inv) λ db v. record {
              price = price;
              specs = specs;
              until = until;
              priced = priced;
              row = v.0;
              stored = v.1;
              for_client = v.2;
              line = v.3;
              due_as_before = due;
              difference = refl;
              more = more;
            })

    apply_change-Arrives :
        (price : ℤ) (specs : List UpgradeSpec) (until : Time)
        → IsPriced old price specs
        → svc.next_due_date ≡ some until
        → (let diff = price_change out json f settings now svc i.cycle price until in
            Arrives
              (Stored (λ db. db ≡ old))
              (λ r. Stored (AfterChange r))
              (apply_change out json f settings now i price specs svc diff))
    unfolding apply_change
    apply_change-Arrives price specs until priced due =
        let diff = price_change out json f settings now svc i.cycle price until in
        if-Arrives (ltb_ℤ (pos 0) diff) _ _
          (λ more. on_db-Arrives _ (invoice_upgrade-Arrives price specs until priced due more))
          (λ not_more.
            via-Arrives _ _ (on_db-Arrives _ (change_now-Arrives price specs (sub64 (pos 0) diff)))
              (then-Arrives _ _ (enqueue-Keeps out _) (
                pure-Arrives (UpgradeResult.applied diff (sub64 (pos 0) diff)) λ w v. record {
                  held = record {
                    price = price;
                    specs = specs;
                    until = until;
                    priced = priced;
                    put_down = v.held;
                    due_as_before = due;
                    difference = refl;
                    not_more = not_more;
                    given = refl;
                  };
                })))

    upgrade_owned-Arrives :
        Arrives
          (Stored (λ db. db ≡ old))
          (λ r. Stored (AfterChange r))
          (upgrade_owned out json f settings now i svc)
    unfolding upgrade_owned
    upgrade_owned-Arrives = then-Arrives _ _ (raise_if-Keeps _ _) (
        then-Arrives _ _ (raise_if-Keeps _ _) (
          step-Arrives _ _ (on_db-Keeps _ (get_product-Keeps _)) λ current.
            step-Arrives _ _ (on_db-Keeps _ (get_product-Keeps _)) λ target.
              then-Arrives _ _ (raise_if-Keeps _ _) (
                known-Arrives _ _ (target_specs-Arrives target) λ chosen sum.
                  then-Arrives _ _ (raise_if-Keeps _ _) (
                    known-Arrives _ _ (target_pricing-Arrives old) λ pricing listed.
                      or_raise-Arrives svc.next_due_date Code.conflict _ λ until due.
                        apply_change-Arrives (add64 pricing.price chosen.1) chosen.0 until
                          (record { pricing = pricing; listed = listed; sum = rw sum refl }) due))))

  ends_as :
      (client : ℕ) (r : UpgradeResult) (w : World) (there : w.db.services id ≡ some svc)
      (same_one : svc.id ≡ id)
      → (upgrade_service out json f settings now client id i w).0 ≡ ok r
      → AfterChange w.db there same_one r
          (upgrade_service out json f settings now client id i w).1.db
  unfolding upgrade_service
  ends_as client r w there same_one e =
      ((then-Arrives _ _ (raise_if-Keeps _ _) (
          get_owned-Arrives client id svc _ (λ db h. ap (λ d. d.services id) h ∙ there)
            (upgrade_owned-Arrives w.db there same_one))).at
        w r (record { held = refl }) e).held

  pub upgrade_service-IsRequested :
      (client : ℕ) (diff : ℤ) (inv : Invoice) (w : World)
      → w.db.services id ≡ some svc
      → svc.id ≡ id
      → (upgrade_service out json f settings now client id i w).0
        ≡ ok (UpgradeResult.invoiced diff inv)
      → IsRequested w.db diff inv (upgrade_service out json f settings now client id i w).1.db
  upgrade_service-IsRequested client diff inv w there same_one e =
      ends_as client (UpgradeResult.invoiced diff inv) w there same_one e
