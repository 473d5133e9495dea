-- ===== src/Snipe/Classify.antt =====
-- backend/internal/modules/snipe/classify.go: what a hunt does after the registrar refused a call.
-- Messages are ASCII. Waits are in nanoseconds.
use whcms.Base.{
  ℕ, ◌-◌, ◌≤◌, ◌≡◌, ◌≢◌, ◌⊎◌, min, Bool, true, false, ◌&&◌, ◌||◌, Option, none, some, List, [],
  same, ◌∷◌, ◌==◌, ltb, leb, if◌then◌else◌, any, is_empty, arith, length,
}
use whcms.Base.Text.{Text, bytes, eqb_text, to_lower, strip_prefix}
use whcms.Base.Action.{Code, Code-discrete}

pub data OutcomeKind : Type 0 where
  taken backoff ambiguous not_sent pause fail retry : OutcomeKind

-- The message is left out: it is only stored.
pub record Outcome : Type 0 where
  pub kind : OutcomeKind
  pub wait : ℕ
  pub balance : Bool

-- `ports.RegistrarCallError`
pub record RegistrarCallError : Type 0 where
  pub not_sent : Bool
  pub ambiguous : Bool
  pub http_status : ℕ
  pub retry_after : ℕ
  pub message : Text

-- `apperr.Error`, with the fields that its details name.
pub record AppError : Type 0 where
  pub code : Code
  pub message : Text
  pub fields : List Text

-- An error as `errors.As` takes it apart, and its own text.
pub record CallFailure : Type 0 where
  pub app_error : Option AppError
  pub call_error : Option RegistrarCallError
  pub text : Text

abbrev is_prefix : Text → Text → Bool
is_prefix p s = elim (strip_prefix p s) [ none ↦ false | some rest ↦ true ]

unfoldable pub contains : Text → Text → Bool
contains [] p = is_empty p
contains (c ∷ rest) p =
    let later = contains rest p in if is_prefix p (c ∷ rest) then true else later

-- The two regular expressions, which ignore case.
unfoldable pub fatal_account : Text → Bool
fatal_account s = any (contains (to_lower s)) (
    bytes "balance"
    ∷ bytes "saldo"
    ∷ bytes "insufficient"
    ∷ bytes "not enough"
    ∷ bytes "deposit"
    ∷ [])

unfoldable pub taken_wording : Text → Bool
taken_wording s =
    any (contains (to_lower s)) (
      bytes "not available" ∷ bytes "unavailable" ∷ bytes "taken" ∷ bytes "already registered" ∷ [])

-- `strings.ReplaceAll(s, old, "")` for an `old` that is not empty: `skip` bytes of a match are left.
unfoldable pub remove_all : Text → Text → ℕ → Text
remove_all old [] skip = []
remove_all old (c ∷ rest) skip =
    let next =
      remove_all old rest (
        if ltb 0 skip
        then skip - 1
        else (if is_prefix old (c ∷ rest) then length old - 1 else 0)) in
    if ltb 0 skip || is_prefix old (c ∷ rest) then next else c ∷ next

abbrev pub max_backoff : ℕ
max_backoff = 30_000_000_000

abbrev plain : OutcomeKind → Outcome
plain kind = record { kind = kind; wait = 0; balance = false }

unfoldable pub rejected : Text → Outcome
rejected matchable =
    if fatal_account matchable
    then record { kind = OutcomeKind.pause; wait = 0; balance = true }
    else (if taken_wording matchable then plain OutcomeKind.taken else plain OutcomeKind.retry)

unfoldable pub app_text : Option AppError → Text → Text
app_text none text = text
app_text (some ae) text = if is_empty ae.message then text else ae.message

-- `errText`
unfoldable pub err_text : CallFailure → Text
err_text e = elim e.call_error [
  | some ce ↦ if is_empty ce.message then app_text e.app_error e.text else ce.message
  | none ↦ app_text e.app_error e.text
]

abbrev pub matchable_text : Text → Text → Text
matchable_text msg name = if is_empty name then msg else remove_all (to_lower name) (to_lower msg) 0

abbrev is_code : Code → Option AppError → Bool
is_code c none = false
is_code c (some ae) = same Code-discrete ae.code c

abbrev names_customer : Option AppError → Bool
names_customer none = false
names_customer (some ae) = any (λ d. eqb_text d (bytes "customer_id")) ae.fields

abbrev asked_wait : Option RegistrarCallError → ℕ → ℕ
asked_wait none wait = wait
asked_wait (some ce) wait = if ltb wait ce.retry_after then ce.retry_after else wait

abbrev capped : ℕ → ℕ
capped wait = if ltb max_backoff wait then max_backoff else wait

abbrev pub status_of : Option RegistrarCallError → ℕ
status_of none = 0
status_of (some ce) = ce.http_status

abbrev is_missing : Option RegistrarCallError → Bool
is_missing none = true
is_missing (some ce) = false

-- The switch, and what follows it. `pace` is cfg.RateLimitBackoff.
unfoldable pub by_status : ℕ → CallFailure → Text → ℕ → Outcome
by_status pace e matchable status =
    if status == 401 || status == 403
    then plain OutcomeKind.pause
    else (if status == 429 || is_code Code.rate_limited e.app_error
        then record {
          kind = OutcomeKind.backoff;
          wait = capped (asked_wait e.call_error pace);
          balance = false;
        }
        else (if status == 409 || is_code Code.conflict e.app_error
            then plain OutcomeKind.taken
            else (if is_code Code.validation e.app_error
                then (if names_customer e.app_error
                    then plain OutcomeKind.fail
                    else rejected matchable)
                else (if is_missing e.call_error
                    then plain OutcomeKind.ambiguous
                    else (if leb 400 status && ltb status 500
                        then rejected matchable
                        else plain OutcomeKind.ambiguous)))))

abbrev sent_outcome : Option RegistrarCallError → ℕ → Outcome → Outcome
sent_outcome none pace rest = rest
sent_outcome (some ce) pace rest =
    if ce.not_sent
    then record { kind = OutcomeKind.not_sent; wait = pace; balance = false }
    else (if ce.ambiguous then plain OutcomeKind.ambiguous else rest)

unfoldable pub classify : ℕ → CallFailure → Text → Outcome
classify pace e name =
    sent_outcome e.call_error pace
      (by_status pace e (matchable_text (err_text e) name) (status_of e.call_error))

rejected_pause : (m : Text) → (rejected m).kind ≡ OutcomeKind.pause → fatal_account m ≡ true
unfolding rejected
rejected_pause m h = ground (arith, h)

rejected_backoff : (m : Text) → (rejected m).kind ≢ OutcomeKind.backoff
unfolding rejected
rejected_backoff m h = ground (arith, h)

by_status_pause :
    (pace : ℕ) (e : CallFailure) (m : Text) (status : ℕ)
    → (by_status pace e m status).kind ≡ OutcomeKind.pause
    → (status ≡ 401) ⊎ (status ≡ 403) ⊎ (fatal_account m ≡ true)
unfolding by_status
by_status_pause pace e m status h = ground (arith, h, rejected_pause m)

sent_pause :
    (ce : Option RegistrarCallError) (pace : ℕ) (o : Outcome)
    → (sent_outcome ce pace o).kind ≡ OutcomeKind.pause
    → o.kind ≡ OutcomeKind.pause
sent_pause none pace o h = h
sent_pause (some ce) pace o h = ground (arith, h)

abbrev IsBounded : ℕ → Outcome → Type 0
IsBounded pace o = (o.wait ≤ max_backoff) × (min pace max_backoff ≤ o.wait)

by_status_backoff :
    (pace : ℕ) (e : CallFailure) (m : Text) (status : ℕ)
    → (by_status pace e m status).kind ≡ OutcomeKind.backoff
    → IsBounded pace (by_status pace e m status)
unfolding by_status
by_status_backoff pace e m status h =
    (ground (arith, h, rejected_backoff m), ground (arith, h, rejected_backoff m))

sent_backoff :
    (ce : Option RegistrarCallError) (pace : ℕ) (o : Outcome)
    → (o.kind ≡ OutcomeKind.backoff → IsBounded pace o)
    → (sent_outcome ce pace o).kind ≡ OutcomeKind.backoff
    → IsBounded pace (sent_outcome ce pace o)
sent_backoff none pace o k h = k h
sent_backoff (some ce) pace o k h = (ground (arith, h, k), ground (arith, h, k))

-- The hunts are paused only where the registrar rejects the credentials, or where its message without
-- the domain's name speaks of the account: a name cannot spell out a pause.
pub classify_pause :
    (pace : ℕ) (e : CallFailure) (name : Text)
    → (classify pace e name).kind ≡ OutcomeKind.pause
    → (status_of e.call_error ≡ 401)
      ⊎ (status_of e.call_error ≡ 403)
      ⊎ (fatal_account (matchable_text (err_text e) name) ≡ true)
unfolding classify
classify_pause pace e name h =
    let m = matchable_text (err_text e) name in
    by_status_pause pace e m (status_of e.call_error)
      (sent_pause e.call_error pace (by_status pace e m (status_of e.call_error)) h)

-- A rate limit never parks a hunt for longer than 30 seconds, nor for less than the configured pace,
-- where that is below the limit.
pub classify_backoff :
    (pace : ℕ) (e : CallFailure) (name : Text)
    → (classify pace e name).kind ≡ OutcomeKind.backoff
    → ((classify pace e name).wait ≤ max_backoff)
      × (min pace max_backoff ≤ (classify pace e name).wait)
unfolding classify
classify_backoff pace e name =
    let m = matchable_text (err_text e) name in
    sent_backoff e.call_error pace (by_status pace e m (status_of e.call_error))
      (by_status_backoff pace e m (status_of e.call_error))
