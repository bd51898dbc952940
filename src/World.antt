-- ===== src/World.antt =====
-- The state that the services share, and the calls that may raise.
--
-- `World` holds the two context variables (services/tenancy.py, services/audit.py), the rows of the
-- in-memory stores (api/src/brokerops_api/db.py), the calls that have crossed the boundary to a
-- provider, and the number of readings that were taken of the clock and of `uuid4`.
pub mod Pure
use brokerops.Base.{
  ℕ, ◌+◌, ◌≡◌, ◌⊎◌, inl, inr, refl, String, Bool, true, false, Option, none, List, [],
}
use brokerops.Base.Dict.{Dict}
use brokerops.Models.Json.{Json}
use brokerops.Models.Transaction.{Transaction}
use brokerops.Models.Milestone.{Milestone, Document}
use brokerops.Models.Message.{Message}
use brokerops.Models.CronRun.{CronRunRecord}
use brokerops.Models.Records.{
  ApprovalRequest, MutationRecord, AuditContext, ClaimStatus, CallRecord, ShowingFeedback,
}

-- The exceptions that the modelled code raises, or that a provider raises through it.
pub data Error : Type 0 where
  tenant_context_missing : Error
  cross_tenant : String → String → Error
  egress_blocked : String → String → Error
  value_error : Error
  runtime_error : Error
  assertion_error : Error
  overflow_error : Error
  key_error : String → Error
  transaction_already_exists : String → Error
  document_already_exists : String → Error
  replay_in_progress : String → String → Error
  unknown_outbound_message : String → Error
  unknown_template : String → Error
  template_param : String → String → Error
  provider_error : String → Error
  http_error : ℕ → Error

pub data Result (A : Type 0) : Type 0 where
  ok : A → Result A
  err : Error → Result A

-- One call that reached a provider: the run that made it, the tool and its arguments.
pub record Effect : Type 0 where
  pub run : String
  pub tool : String
  pub args : Json

pub record World : Type 0 where
  pub tenant : Option String
  pub audit_context : Option AuditContext
  pub audit_items : List MutationRecord
  pub transactions : Dict Transaction
  pub milestones : Dict Milestone
  pub messages : Dict Message
  pub approvals : Dict ApprovalRequest
  pub documents : Dict Document
  pub call_records : Dict CallRecord
  pub feedback : Dict ShowingFeedback
  pub claims : Dict (ClaimStatus × Option String)
  pub cron_runs : Dict CronRunRecord
  pub effects : List Effect
  pub readings : ℕ

abbrev pub blank : World
blank = record {
  tenant = none;
  audit_context = none;
  audit_items = [];
  transactions = [];
  milestones = [];
  messages = [];
  approvals = [];
  documents = [];
  call_records = [];
  feedback = [];
  claims = [];
  cron_runs = [];
  effects = [];
  readings = 0;
}

-- What the code takes from outside: the n-th `uuid4().hex` and reading of the clock, Python's `str` of
-- an exception, the SHA-256 digests of the JSON text of a payload, of bytes and of a text, Unicode's
-- lower case, and the ISO texts of a date and of a time.
pub record Platform : Type 0 where
  pub uuid4 : ℕ → String
  pub now : ℕ → ℕ
  pub error_text : Error → String
  pub digest : Json → String
  pub content_digest : List ℕ → String
  pub text_digest : String → String
  pub lower : String → String
  pub iso_date : ℕ → String
  pub iso_datetime : ℕ → String

-- A coroutine: what was written before an exception stays written.
abbrev pub Exec : Type 0 → Type 0
Exec A = World → Result A × World

module _ {A : Type 0} where
  abbrev pub pure : A → Exec A
  pure a w = (ok a, w)

  abbrev pub raise : Error → Exec A
  raise e w = (err e, w)

  abbrev pub gets : (World → A) → Exec A
  gets f w = (ok (f w), w)

  abbrev pub lift : Result A → Exec A
  lift r w = (r, w)

abbrev pub modify : (World → World) → Exec (Unit {0})
modify f w = (ok tt, f w)

infixl 5 ◌>>=◌ ◌>>◌
abbrev pub ◌>>=◌ : {A B : Type 0} → Exec A → (A → Exec B) → Exec B
◌>>=◌ m f w = let (r, w') = m w in elim r [ ok a ↦ f a w' | err e ↦ (err e, w') ]

abbrev pub ◌>>◌ : {B : Type 0} → Exec (Unit {0}) → Exec B → Exec B
m >> k = m >>= λ _. k

-- `try: m except Exception as e: handler(e)`
abbrev pub catch : {A : Type 0} → Exec A → (Error → Exec A) → Exec A
catch m handler w = let (r, w') = m w in elim r [ ok a ↦ (ok a, w') | err e ↦ handler e w' ]

-- `raise` under a test, and nothing else.
abbrev pub raise_if : Bool → Error → Exec (Unit {0})
raise_if true e w = (err e, w)
raise_if false e w = (ok tt, w)

-- One reading of the clock or of `uuid4`.
abbrev pub reading : {A : Type 0} → (ℕ → A) → Exec A
reading f w = (ok (f w.readings), record w { readings = w.readings + 1 })

-- A bind that returned: its first part returned, and so did the rest after it.
continue-eq_ok :
    {A B : Type 0} (r : Result A) (w : World) (f : A → Exec B) {b : B}
    → (let go : Result B × World = elim r [ ok a ↦ f a w | err e ↦ (err e, w) ] in go.0) ≡ ok b
    → (a : A) × (r ≡ ok a) × ((f a w).0 ≡ ok b)
continue-eq_ok (ok a) w f h = (a, refl, h)
continue-eq_ok (err e) w f h = cc

pub bind-eq_ok :
    {A B : Type 0} (m : Exec A) (f : A → Exec B) (w : World) {b : B}
    → ((m >>= f) w).0 ≡ ok b
    → (a : A) × ((m w).0 ≡ ok a) × ((f a (m w).1).0 ≡ ok b)
bind-eq_ok m f w h = continue-eq_ok (m w).0 (m w).1 f h

pub Result-cases :
    {A : Type 0} (r : Result A)
    → ((value : A) × (r ≡ ok value)) ⊎ ((error : Error) × (r ≡ err error))
Result-cases (ok a) = inl (a, refl)
Result-cases (err e) = inr (e, refl)
