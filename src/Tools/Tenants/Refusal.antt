-- ===== src/Tools/Tenants/Refusal.antt =====
-- What a refusal of services/tool_authz.py or services/egress.py leaves in the ledger, and the first tenant it is about.
use brokerops.Base.{
  ◌+◌, String, ◌≡◌, ◌≢◌, refl, ap, ◌⊎◌, inl, inr, Bool, true, false, Option, none, some, List, [],
  ◌∷◌, ◌++◌, arith, eq_iff, if◌then◌else◌,
}
use brokerops.Base.Lists.{In}
use brokerops.Models.Json.{str, obj, end, field}
use brokerops.Models.Records.{MutationRecord, AuditContext, failure}
use brokerops.World.{World, Platform, ok, cross_tenant}
use brokerops.Ports.{AuditLog}
use brokerops.Tenancy.{record_cross_tenant_attempt, mutation_record}
use brokerops.Stores.AuditLog.{audit_log, record_mutation}
use brokerops.Audit.Recording.Laws.{attribution}
use brokerops.Scoped.Foreign.{is_foreign}
use brokerops.Tools.Tenants.Checks.{first_foreign}

-- A tenant that is neither empty nor the bound one.
abbrev pub IsOther : String → String → Type 0
IsOther bound t = (t ≢ "") × (t ≢ bound)

-- The in-memory ledger, or none.
abbrev pub ledger : Bool → Option AuditLog
ledger true = some audit_log
ledger false = none

-- The record of an attempt on a tenant.
abbrev pub attempt_of : Platform → String → String → String → World → MutationRecord
attempt_of platform tool attempted bound w = record {
  id = platform.uuid4 w.readings;
  workflow_run_id = (attribution w.audit_context).workflow_run_id;
  workflow = (attribution w.audit_context).workflow;
  transaction_id = (attribution w.audit_context).transaction_id;
  tool = tool;
  integration = "security";
  args =
      some (obj (field "attempted_tenant" (str attempted) (field "bound_tenant" (str bound) end)));
  approval_id = (attribution w.audit_context).approval_id;
  actor = (attribution w.audit_context).actor;
  outcome = failure;
  external_id = none;
  error = some (platform.error_text (cross_tenant attempted bound));
  created_at = platform.now (w.readings + 1);
}

-- The world after a refusal: the ledger, where there is one, has one record more.
abbrev pub refused : Platform → Bool → String → String → String → World → World
refused platform true tool attempted bound w = record w {
  readings = w.readings + 1 + 1;
  audit_items = w.audit_items ++ attempt_of platform tool attempted bound w ∷ [];
}
refused platform false tool attempted bound w = w

attempt_lem :
    (platform : Platform) (tool t bound : String) (w : World) (c : Option AuditContext)
    → w.audit_context ≡ c
    → mutation_record
        (platform.uuid4 w.readings)
        (platform.now (w.readings + 1))
        w.audit_context
        tool
        "security"
        (obj (field "attempted_tenant" (str t) (field "bound_tenant" (str bound) end)))
        failure
        none
        (some (platform.error_text (cross_tenant t bound)))
      ≡ attempt_of platform tool t bound w
unfolding mutation_record
attempt_lem platform tool t bound w none e = rw e refl
attempt_lem platform tool t bound w (some c) e = rw e refl

-- What the code of an attempt does.
pub attempt-refused :
    (platform : Platform) (tool t bound : String) (w : World)
    → record_cross_tenant_attempt platform audit_log t bound tool w
      ≡ (ok tt, refused platform true tool t bound w)
unfolding record_cross_tenant_attempt record_mutation
attempt-refused platform tool t bound w =
    ap
      (λ m.
        (ok tt, record w { readings = w.readings + 1 + 1; audit_items = w.audit_items ++ m ∷ [] }))
      (attempt_lem platform tool t bound w w.audit_context refl)

foreign-IsOther : (t bound : String) → is_foreign t bound ≡ true → IsOther bound t
unfolding is_foreign
foreign-IsOther t bound h =
    (ground (arith, h, eq_iff t "", eq_iff t bound), ground (arith, h, eq_iff t "", eq_iff t bound))

own : (t bound : String) → is_foreign t bound ≡ false → (t ≡ "") ⊎ (t ≡ bound)
unfolding is_foreign
own t bound h = ground (arith, h, eq_iff t "", eq_iff t bound)

-- The first foreign tenant of a list is in it and is another one, and without one all are blank or bound.
abbrev pub Found : String → List String → Option String → Type 0
Found bound ts none = (t : String) → In t ts → (t ≡ "") ⊎ (t ≡ bound)
Found bound ts (some t) = In t ts × IsOther bound t

pub first_foreign-Found :
    (bound : String) (ts : List String) → Found bound ts (first_foreign bound ts)
first_foreign-Found bound [] = λ t h. elim h [ ]
first_foreign-Found bound (s ∷ ts) =
    go (is_foreign s bound) (first_foreign bound ts) (foreign-IsOther s bound) (own s bound)
      (first_foreign-Found bound ts)
  where
    go :
        (b : Bool) (o : Option String)
        → (b ≡ true → IsOther bound s)
        → (b ≡ false → (s ≡ "") ⊎ (s ≡ bound))
        → Found bound ts o
        → Found bound (s ∷ ts) (if b then some s else o)
    go true o other mine f = (inl refl, other refl)
    go false none other mine f = λ t h. elim h [ inl e ↦ rw e (mine refl) | inr k ↦ f t k ]
    go false (some t) other mine f = (inr f.0, f.1)
