-- ===== src/Provisioning/UpgradeSpecs.antt =====
-- `resolveUpgradeSpecs` and `sameChosenSpecs` of backend/internal/modules/provisioning/service.go. The
-- messages of the field errors are left out; the checks and the price of one knob are those of
-- `priceSpec` in backend/internal/modules/orders/pricing.go.
use whcms.Base.{
  ℕ, Bool, true, false, not, ◌&&◌, ◌||◌, Option, none, some, List, [], ◌∷◌, ◌==◌, if◌then◌else◌,
  any, find, map, reverse, length,
}
use whcms.Base.Text.{Text, eqb_text}
use whcms.Base.Int.{ℤ, pos, eqb_ℤ}
use whcms.Base.Word.{add64}
use whcms.Base.Action.{Action, Result, ok, err, Code, ◌>>=◌, ◌>>◌, pure, raise_if, gets}
use whcms.Domain.Enums.{BillingCycle, ProvisionKey, SpecUnit}
use whcms.Domain.Specs.{unlimited_qty}
use whcms.Store.Tables.{Db, ProductSpec, SpecPricing}
use whcms.Orders.Names.{spec_errors, spec_amount}
use whcms.Provisioning.World.{ChosenSpec}

pub record UpgradeSpecInput : Type 0 where
  pub key : Text
  pub qty : ℤ
  pub unlimited : Bool

pub record UpgradeSpec : Type 0 where
  pub key : Text
  pub provision_key : ProvisionKey
  pub spec_unit : SpecUnit
  pub qty : ℤ
  pub unlimited : Bool
  pub amount : ℤ

-- `byKey[k]`: of several inputs with one key the last one counts.
abbrev input_for : Text → List UpgradeSpecInput → Option UpgradeSpecInput
input_for k chosen = find (λ (c : UpgradeSpecInput). eqb_text c.key k) (reverse chosen)

-- The quantity of a knob and whether it is unlimited; one that is not chosen has its default.
abbrev asked_quantity : ProductSpec → Option UpgradeSpecInput → ℤ × Bool
asked_quantity sp none = (sp.default_qty, false)
asked_quantity sp (some c) = (c.qty, c.unlimited)

abbrev is_refused : List UpgradeSpecInput → ProductSpec → Bool
is_refused chosen sp =
    let q = asked_quantity sp (input_for sp.key chosen) in not (spec_errors sp q.0 q.1 == 0)

abbrev pub resolved : (ℕ → Option SpecPricing) → List UpgradeSpecInput → ProductSpec → UpgradeSpec
resolved pricing chosen sp =
    let q = asked_quantity sp (input_for sp.key chosen) in
    record {
      key = sp.key;
      provision_key = sp.provision_key;
      spec_unit = sp.spec_unit;
      qty = if q.1 then unlimited_qty else q.0;
      unlimited = q.1;
      amount = spec_amount sp q.0 q.1 (pricing sp.id);
    }

abbrev pub total_of : ℤ → List UpgradeSpec → ℤ
total_of total [] = total
total_of total (u ∷ rest) = total_of (add64 total u.amount) rest

unfoldable pub resolve_upgrade_specs :
    ℕ → List UpgradeSpecInput → BillingCycle → Action Db (List UpgradeSpec × ℤ)
resolve_upgrade_specs product chosen cycle = do
  defs ← gets (λ db. db.specs product)
  pricing ← gets (λ db (id : ℕ). db.spec_pricing id cycle)
  raise_if
      (any (is_refused chosen) defs
        || any
            (λ (c : UpgradeSpecInput). not (any (λ (sp : ProductSpec). eqb_text sp.key c.key) defs))
            chosen)
      Code.validation
  let specs = map (resolved pricing chosen) defs
  pure (specs, total_of (pos 0) specs)

abbrev same_bool : Bool → Bool → Bool
same_bool true b = b
same_bool false b = not b

-- A knob of the snapshot; of several with one key the last one counts.
abbrev differs : List ChosenSpec → UpgradeSpec → Bool
differs current u = elim (find (λ (c : ChosenSpec). eqb_text c.key u.key) (reverse current)) [
  | none ↦ true
  | some c ↦ not (eqb_ℤ c.qty u.qty) || not (same_bool c.unlimited u.unlimited)
]

-- `chosen_specs` of panel_meta: an error where it cannot be read, `none` where there is no snapshot.
unfoldable pub same_chosen_specs : Result (Option (List ChosenSpec)) → List UpgradeSpec → Bool
same_chosen_specs (ok (some current)) specs =
    length current == length specs && not (any (differs current) specs)
same_chosen_specs (ok none) specs = false
same_chosen_specs (err c) specs = false
