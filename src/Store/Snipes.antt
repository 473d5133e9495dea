-- ===== src/Store/Snipes.antt =====
-- backend/internal/modules/snipe/repo.go: the rows of hunts. An UPDATE with a WHERE clause is one step
-- on the row of its id, and answers whether the row was hit.
use whcms.Base.{
  ℕ, ◌+◌, ◌-◌, ◌≡◌, ap, Bool, true, false, not, ◌&&◌, ◌||◌, Option, none, some, [], ◌∷◌, ◌++◌, max,
  if◌then◌else◌, ltb, same, is_empty,
}
use whcms.Base.Text.{Text, eqb_text}
use whcms.Base.Int.{ℤ, pos, eqb_ℤ}
use whcms.Base.Action.{Action, ok, Code, ◌>>=◌, or_raise, gets, modify}
use whcms.Domain.Enums.{SnipeStatus, SnipeStatus-discrete}
use whcms.Store.Tables.{Db, DomainSnipe, SnipeEvent, put}

unfoldable pub get_snipe : ℕ → Action Db DomainSnipe
get_snipe id = do or_raise (← gets (λ db. db.snipes id)) Code.not_found

-- `UPDATE ... WHERE id = $1 AND guard`: `RowsAffected() == 1` comes back.
unfoldable pub update_snipe_if :
    ℕ → (DomainSnipe → Bool) → (DomainSnipe → DomainSnipe) → Action Db Bool
update_snipe_if id guard change db = elim (db.snipes id) [
  | none ↦ (ok false, db)
  | some s ↦
      if guard s
      then (ok true, record db { snipes = put db.snipes id (change s) })
      else (ok false, db)
]

abbrev pub lease_idle : Option ℕ → ℕ → Bool
lease_idle none now = true
lease_idle (some until) now = ltb until now

-- `lease_owner = $n`, which NULL never is.
abbrev pub owned_by : Option Text → Text → Bool
owned_by none owner = false
owned_by (some o) owner = eqb_text o owner

-- `ListExpirable` and `Claim` look for rows of this kind.
abbrev pub is_active : DomainSnipe → Bool
is_active s = same SnipeStatus-discrete s.status SnipeStatus.active

abbrev free_lease : DomainSnipe → DomainSnipe
free_lease s = record s { lease_owner = none; lease_until = none }

pub record SnipeFinish : Type 0 where
  pub id : ℕ
  pub from : SnipeStatus
  pub to : SnipeStatus
  pub owner : Text  -- empty: no owner is asked for
  pub require_idle : Bool
  pub now : ℕ
  pub refund_amount : ℤ
  pub last_error : Text
  pub attempts : ℕ
  pub won_domain_id : Option ℕ

abbrev pub finish_guard : SnipeFinish → DomainSnipe → Bool
finish_guard f s =
    same SnipeStatus-discrete s.status f.from
    && (is_empty f.owner || owned_by s.lease_owner f.owner)
    && (not f.require_idle || lease_idle s.lease_until f.now)

abbrev won_time : SnipeStatus → ℕ → Option ℕ → Option ℕ
won_time SnipeStatus.won now old = some now
won_time _ now old = old

abbrev given : Option ℕ → Option ℕ → Option ℕ
given none old = old
given (some id) old = some id

abbrev pub finished : SnipeFinish → DomainSnipe → DomainSnipe
finished f s = record (free_lease s) {
  status = f.to;
  refund_amount = f.refund_amount;
  last_error = if is_empty f.last_error then s.last_error else f.last_error;
  won_at = won_time f.to f.now s.won_at;
  won_domain_id = given f.won_domain_id s.won_domain_id;
  attempts = max s.attempts f.attempts;
}

unfoldable pub finish_snipe : SnipeFinish → Action Db Bool
unfolding update_snipe_if
finish_snipe f = update_snipe_if f.id (finish_guard f) (finished f)

-- `MarkRefunded`: a missing row is no error.
unfoldable pub mark_refunded : ℕ → ℕ → Action Db Bool
unfolding update_snipe_if
mark_refunded id at = update_snipe_if id (λ s. true) (λ s. record s { refunded_at = some at })

abbrev pub ended_unwon : SnipeStatus → Bool
ended_unwon SnipeStatus.cancelled = true
ended_unwon SnipeStatus.failed = true
ended_unwon SnipeStatus.expired = true
ended_unwon _ = false

abbrev pub is_none : Option ℕ → Bool
is_none none = true
is_none (some t) = false

abbrev pub refund_guard : DomainSnipe → Bool
refund_guard s = eqb_ℤ s.refund_amount (pos 0) && is_none s.refunded_at && ended_unwon s.status

unfoldable pub record_refund : ℕ → ℤ → ℕ → Action Db Bool
unfolding update_snipe_if
record_refund id amount at =
    update_snipe_if id refund_guard λ s. record s { refund_amount = amount; refunded_at = some at }

unfoldable pub set_invoice : ℕ → ℕ → ℤ → ℤ → Action Db (Unit {0})
unfolding update_snipe_if ◌>>=◌
set_invoice id invoice_id domain fee = do
  hit ←
      update_snipe_if id (λ s. true)
        λ s. record s {
          invoice_id = some invoice_id;
          refundable_domain = domain;
          refundable_fee = fee;
        }
  or_raise (if hit then some tt else none) Code.not_found

-- The window that the row was created with; 30 days where it has no deadline.
abbrev pub window : ℕ → DomainSnipe → ℕ
window month s = elim s.deadline_at [ none ↦ month | some d ↦ d - s.created_at ]

abbrev pub is_pending : DomainSnipe → Bool
is_pending s = same SnipeStatus-discrete s.status SnipeStatus.pending_payment

abbrev pub started : ℕ → ℕ → DomainSnipe → DomainSnipe
started month at s = record s {
  status = SnipeStatus.active;
  paid_at = some at;
  deadline_at = some (at + window month s);
}

-- `month` is the length of 30 days in the unit of the instants.
unfoldable pub activate_snipe : ℕ → ℕ → ℕ → Action Db Bool
unfolding update_snipe_if
activate_snipe month id at = update_snipe_if id is_pending (started month at)

pub record SnipeHeartbeat : Type 0 where
  pub id : ℕ
  pub owner : Text
  pub lease_until : ℕ
  pub attempts : ℕ
  pub last_error : Text

unfoldable pub heartbeat : SnipeHeartbeat → Action Db Bool
unfolding update_snipe_if
heartbeat h =
    update_snipe_if h.id (λ s. owned_by s.lease_owner h.owner && is_active s)
      λ s. record s {
        lease_until = some h.lease_until;
        attempts = h.attempts;
        last_error = h.last_error;
      }

unfoldable pub release : ℕ → Text → Action Db Bool
unfolding update_snipe_if
release id owner = update_snipe_if id (λ s. owned_by s.lease_owner owner) free_lease

unfoldable pub add_event : SnipeEvent → Action Db (Unit {0})
add_event e = modify λ db. record db { snipe_events = db.snipe_events ++ (e ∷ []) }

pub get_snipe_found :
    (id : ℕ) (db : Db) (s : DomainSnipe) → db.snipes id ≡ some s → get_snipe id db ≡ (ok s, db)
unfolding get_snipe ◌>>=◌
get_snipe_found id db s e = ap (λ o. or_raise o Code.not_found db) e
