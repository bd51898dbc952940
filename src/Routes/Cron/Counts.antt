-- ===== src/Routes/Cron/Counts.antt =====
-- What the milestone run counts.
use brokerops.Base.{
  ℕ, suc, ◌+◌, String, ◌≡◌, Bool, false, Option, none, some, List, [], ◌∷◌, ◌++◌, ◌==◌,
  if◌then◌else◌,
}
use brokerops.Base.Lists.{any}
use brokerops.Base.Dict.{Dict}
use brokerops.Models.Json.{Json}
use brokerops.Models.Records.{ApprovalRequest}
use brokerops.Models.Transaction.{Transaction}
use brokerops.World.{World, Platform, Exec, Error, Result, ok, err}
use brokerops.Ports.{ApprovalRepo, TransactionStore}
use brokerops.Workflows.Runs.{json_truthy, text_of}
use brokerops.Workflows.Engine.{Graph, payload_field}
use brokerops.Models.CronRun.{CronRun}
use brokerops.Routes.Cron.{Pass, Checked, Counted, check_each}

abbrev pub row_ids : List Checked → List String
row_ids [] = []
row_ids (r ∷ rs) = r.transaction_id ∷ row_ids rs

module _ (py_text : Json → String) (pending : List ApprovalRequest) where
  -- The transactions that the pending gates of a kind name.
  abbrev pub gated_by : Option Json → List String → List String
  gated_by none ids = ids
  gated_by (some v) ids = if json_truthy v then text_of py_text v ∷ ids else ids

  abbrev pub gated : String → List ApprovalRequest → List String
  gated kind [] = []
  gated kind (a ∷ queue) =
      let rest = gated kind queue in
      if a.kind == kind then gated_by (payload_field "transaction_id" a.payload) rest else rest

  abbrev pub is_held : String → String → Bool
  is_held kind id = any (λ held. held == id) (gated kind pending)

  abbrev pub checked_ids : List Transaction → List String
  checked_ids [] = []
  checked_ids (t ∷ ts) =
      let rest = checked_ids ts in if is_held "approve_escalation" t.id then rest else t.id ∷ rest

  abbrev pub skips : List Transaction → ℕ
  skips [] = 0
  skips (t ∷ ts) =
      let rest = skips ts in if is_held "approve_escalation" t.id then suc rest else rest

  abbrev pub tails : List Transaction → ℕ
  tails [] = 0
  tails (t ∷ ts) =
      let rest = tails ts in
      if is_held "approve_escalation" t.id
      then rest
      else if is_held "approve_outbound_message" t.id
      then suc rest
      else rest

  -- The counts after a pass over `seen`, and after one that got queue far queue `begun`.
  abbrev pub IsTally : List Transaction → List Transaction → Pass → Pass → Type 0
  IsTally seen begun p q =
      (row_ids q.results ≡ row_ids p.results ++ checked_ids seen)
      × (q.skipped_escalation ≡ p.skipped_escalation + skips seen)
      × (q.email_tail_suppressed ≡ p.email_tail_suppressed + tails begun)

  -- The pass went over all transactions; or an exception came out of the run of one.
  abbrev pub Ends : List Transaction → Pass → Result (Unit {0}) × Pass × World → Type 0
  Ends ts p (ok a, q, w) = IsTally ts ts p q
  Ends ts p (err e, q, w) =
      (seen : List Transaction) × (t : Transaction) × (rest : List Transaction) × (ts
        ≡ seen ++ t ∷ rest)
      × (is_held "approve_escalation" t.id ≡ false)
      × IsTally seen (seen ++ t ∷ []) p q

  -- One turn: a transaction at its escalation gate is skipped, and any other adds its row or raises.
  abbrev Turn : Transaction → Pass → Counted → Type 0
  Turn t p (ok a, m, w) = IsTally (t ∷ []) (t ∷ []) p m
  Turn t p (err e, m, w) = (is_held "approve_escalation" t.id ≡ false) × IsTally [] (t ∷ []) p m

module _ (platform : Platform) (py_text : Json → String) (repo : ApprovalRepo) (graphs : Dict Graph)
    (store : TransactionStore) (record_run : CronRun → Exec (Unit {0}))
    (error_label : Error → String) (pending : List ApprovalRequest) where
  abbrev pub each : List Transaction → Pass → World → Counted
  each = check_each platform py_text repo graphs store record_run error_label pending
