-- ===== src/Domain/Documents.antt =====
-- backend/internal/domain/documents.go: which domains need documents, the registrar's timeline, and
-- the refund decision. Names are ASCII. Dates are day numbers (Domain/Calendar).
use whcms.Base.{
  ℕ, ◌+◌, ◌-◌, ◌<◌, ◌≡◌, ◌↔◌, ◌⊎◌, inl, inr, refl, Bool, true, false, not, ◌&&◌, ◌||◌, List, [],
  ◌∷◌, any, Bool-cases, Option, none, some, if◌then◌else◌, same, arith,
}
use whcms.Base.Text.{
  Text, bytes, eqb_text, to_lower, trim_space, trim_prefix, trim_suffix, after_byte,
}
use whcms.Domain.Enums.{DomainStatus, DomainVerification, DomainVerification-discrete}
use whcms.Domain.Calendar.{Time, day_number}

abbrev pub document_tlds : List Text
document_tlds =
    bytes "co.id" ∷ bytes "or.id" ∷ bytes "ac.id" ∷ bytes "sch.id" ∷ bytes "ponpes.id" ∷ []

abbrev pub email_verification_tlds : List Text
email_verification_tlds = bytes "id" ∷ bytes "my.id" ∷ bytes "biz.id" ∷ bytes "web.id" ∷ []

abbrev pub document_upload_last_day : ℕ
document_upload_last_day = 3

abbrev pub document_suspend_day : ℕ
document_suspend_day = 5

abbrev pub document_delete_day : ℕ
document_delete_day = 30

abbrev pub email_verification_suspend_days : ℕ
email_verification_suspend_days = 30

unfoldable pub tld_of : Text → Text
tld_of name = elim (after_byte b'.' (to_lower (trim_space (trim_suffix (bytes ".") name)))) [
  | none ↦ []
  | some rest ↦ rest
]

unfoldable pub tld_requires_documents : Text → Bool
tld_requires_documents tld =
    any (eqb_text (trim_prefix (bytes ".") (to_lower (trim_space tld)))) document_tlds

unfoldable pub name_requires_documents : Text → Bool
name_requires_documents name = tld_requires_documents (tld_of name)

unfoldable pub name_requires_email_verification : Text → Bool
name_requires_email_verification name = any (eqb_text (tld_of name)) email_verification_tlds

-- The fields of the entity that these rules read.
pub record DomainRecord : Type 0 where
  pub name : Text
  pub status : DomainStatus
  pub verification : DomainVerification
  pub document_required : Bool
  pub registration_date : Option Time
  pub refunded_at : Option Time
  pub registrar_refundable : Bool

pub data VerificationKind : Type 0 where
  documents email : VerificationKind

pub record VerificationDeadlines : Type 0 where
  pub kind : VerificationKind
  pub upload_by : Option ℕ
  pub suspend_on : ℕ
  pub delete_on : Option ℕ

-- `AddDate(0, 0, n-1)` on the registration's day.
unfoldable pub day_n : Time → ℕ → ℕ
day_n reg n = day_number reg + (n - 1)

abbrev awaited : DomainStatus → Bool
awaited DomainStatus.active = true
awaited DomainStatus.suspended = true
awaited DomainStatus.pending_transfer = true
awaited DomainStatus.pending = true
awaited _ = false

abbrev verified : DomainVerification → Bool
verified v = same DomainVerification-discrete v DomainVerification.active

abbrev unreported : DomainVerification → Bool
unreported v = same DomainVerification-discrete v DomainVerification.unreported

unfoldable pub verification_open : DomainRecord → Bool
verification_open d =
    if not (awaited d.status)
    then false
    else (if verified d.verification
        then false
        else d.document_required
          || (name_requires_email_verification d.name && not (unreported d.verification)))

unfoldable pub document_failure : DomainRecord → Bool
document_failure d = d.document_required && not (verified d.verification)

timeline : DomainRecord → Time → VerificationDeadlines
unfolding day_n
timeline d reg =
    if d.document_required
    then record {
      kind = VerificationKind.documents;
      upload_by = some (day_n reg document_upload_last_day);
      suspend_on = day_n reg document_suspend_day;
      delete_on = some (day_n reg document_delete_day);
    }
    else record {
      kind = VerificationKind.email;
      upload_by = none;
      suspend_on = day_n reg (email_verification_suspend_days + 1);
      delete_on = none;
    }

unfoldable pub deadlines : DomainRecord → Option VerificationDeadlines
unfolding timeline
deadlines d =
    if not (verification_open d)
    then none
    else elim d.registration_date [ none ↦ none | some reg ↦ some (timeline d reg) ]

pub data RefundReason : Type 0 where
  registrar_refundable documents_not_verified registrar_non_refundable already_refunded :
      RefundReason

pub record RefundDecision : Type 0 where
  pub eligible : Bool
  pub reason : RefundReason

abbrev refuse : RefundReason → RefundDecision
refuse r = record { eligible = false; reason = r }

unfoldable pub refund_decision : DomainRecord → RefundDecision
unfolding document_failure
refund_decision d = elim d.refunded_at [
  | some at ↦ refuse RefundReason.already_refunded
  | none ↦
      if document_failure d
      then refuse RefundReason.documents_not_verified
      else (if not d.registrar_refundable
          then refuse RefundReason.registrar_non_refundable
          else record { eligible = true; reason = RefundReason.registrar_refundable })
]

-- A rejected domain is refunded exactly when nothing was refunded before, the registrar allows it,
-- and no required document is left unverified.
pub refund_decision_iff :
    (d : DomainRecord)
    → ((refund_decision d).eligible ≡ true) ↔ (
        (d.refunded_at ≡ none)
        × (d.registrar_refundable ≡ true)
        × ((d.document_required ≡ false) ⊎ (d.verification ≡ DomainVerification.active)))
unfolding refund_decision
refund_decision_iff d = (λ h. ground arith, λ h. ground arith)

-- The timeline of an open verification: the client's last day to upload comes before the suspension,
-- and that before the deletion; an email verification has a day of suspension only.
abbrev pub Ordered : VerificationDeadlines → Type 0
Ordered v =
    ((upload : ℕ) × (delete : ℕ) × (v.upload_by ≡ some upload)
      × (v.delete_on ≡ some delete)
      × (upload < v.suspend_on)
      × (v.suspend_on < delete))
    ⊎ ((v.upload_by ≡ none) × (v.delete_on ≡ none))

timeline_lem :
    (d : DomainRecord) (reg : Time)
    → (day_number reg < (timeline d reg).suspend_on) × Ordered (timeline d reg)
unfolding timeline
timeline_lem d reg = elim (Bool-cases d.document_required) [
  | inl needed ↦ rw needed (omega arith, inl (_, _, refl, refl, omega arith, omega arith))
  | inr plain ↦ rw plain (omega arith, inr (refl, refl))
]

-- For a known registration date a timeline is reported exactly while the verification is open, and
-- then its days are in order and the suspension comes after the registration.
pub deadlines_lem :
    (d : DomainRecord) (reg : Time)
    → d.registration_date ≡ some reg
    → ((verification_open d ≡ false) × (deadlines d ≡ none))
      ⊎ ((v : VerificationDeadlines) × (deadlines d ≡ some v)
          × (verification_open d ≡ true)
          × (day_number reg < v.suspend_on)
          × Ordered v)
unfolding deadlines
deadlines_lem d reg e = elim (Bool-cases (verification_open d)) [
  | inl waits ↦
      inr (timeline d reg, rw (waits, e), waits, (timeline_lem d reg).0, (timeline_lem d reg).1)
  | inr closed ↦ inl (closed, rw closed)
]
