-- ===== src/Milestones/Notes.antt =====
-- The texts that services/milestone_engine.py drafts.
use brokerops.Base.{ℕ, suc, String, [], ◌∷◌, or_else}
use brokerops.Base.Int.{ℤ}
use brokerops.Base.Text.{concat, decimal}
use brokerops.Models.Transaction.{Transaction}
use brokerops.Models.Milestone.{Milestone}

-- An integer in an f-string.
abbrev pub int_text : ℤ → String
unfolding decimal
int_text (ℤ.pos n) = decimal n
int_text (ℤ.negsuc n) = concat ("-" ∷ decimal (suc n) ∷ [])

module _ (iso_date : ℕ → String) where
  unfoldable pub draft_milestone_reminder : Transaction → Milestone → ℤ → String
  draft_milestone_reminder txn m days = concat (
      "Reminder: "
      ∷ m.title
      ∷ " for transaction "
      ∷ txn.id
      ∷ " ("
      ∷ txn.listing_key
      ∷ ") is due "
      ∷ iso_date m.due_date
      ∷ " — "
      ∷ int_text days
      ∷ " day(s) out. Owner: "
      ∷ or_else m.owner "unassigned"
      ∷ "."
      ∷ [])

  unfoldable pub draft_escalation_note : Transaction → Milestone → ℤ → String
  draft_escalation_note txn m days = concat (
      "OVERDUE: "
      ∷ m.title
      ∷ " for transaction "
      ∷ txn.id
      ∷ " ("
      ∷ txn.listing_key
      ∷ ") was due "
      ∷ iso_date m.due_date
      ∷ " — "
      ∷ int_text days
      ∷ " day(s) overdue (escalation level "
      ∷ int_text m.escalation_level
      ∷ ")."
      ∷ [])
