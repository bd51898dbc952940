-- ===== src/World/Pure.antt =====
-- Functions that may raise and keep no state.
use brokerops.Base.{Bool, true, false}
use brokerops.World.{Error, Result, ok, err}

infixl 5 ◌>>=◌ ◌>>◌
abbrev pub ◌>>=◌ : {A B : Type 0} → Result A → (A → Result B) → Result B
ok a >>= f = f a
err e >>= f = err e

abbrev pub ◌>>◌ : {B : Type 0} → Result (Unit {0}) → Result B → Result B
m >> k = m >>= λ _. k

-- `if b: raise e`
abbrev pub raise_when : Bool → Error → Result (Unit {0})
raise_when true e = err e
raise_when false e = ok tt
