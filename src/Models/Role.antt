-- ===== src/Models/Role.antt =====
-- models/role.py and models/sensitivity.py: the role hierarchy and the PII marker of a field.
use brokerops.Base.{ℕ, Bool, leb}

pub data Role : Type 0 where
  viewer operator admin : Role

unfoldable pub rank : Role → ℕ
rank viewer = 0
rank operator = 1
rank admin = 2

-- True if the role meets or exceeds a minimum required role.
unfoldable pub allows : Role → Role → Bool
unfolding rank
allows role required = leb (rank required) (rank role)

-- A field marked `Pii(min_role)`; the two markers in use name the operator.
pub record Pii : Type 0 where
  pub min_role : Role

abbrev pub contact_pii : Pii
contact_pii = record { min_role = operator }

abbrev pub restricted_content : Pii
restricted_content = record { min_role = operator }
