-- ===== src/Tools/Tenants/Checks.antt =====
-- The check of the tenants of a value, whatever is done with a refusal.
use brokerops.Base.{
  String, ◌≡◌, refl, ap, ◌∙◌, Bool, true, false, Option, none, some, List, [], ◌∷◌, ◌++◌,
  if◌then◌else◌, arith,
}
use brokerops.World.{
  World, Exec, Error, Result, ok, err, cross_tenant, pure, raise, catch, ◌>>=◌, ◌>>◌,
}
use brokerops.Tenancy.{enforce_tenant, require_tenant}
use brokerops.Scoped.Foreign.{is_foreign}

-- The first tenant of a list that is not the bound one.
abbrev pub first_foreign : String → List String → Option String
first_foreign bound [] = none
first_foreign bound (t ∷ ts) = if is_foreign t bound then some t else first_foreign bound ts

-- Nothing comes after an exception.
pub raise-bind :
    {A B : Type 0} (r : Result (Unit {0})) (u : World) (e : Error) (f : A → Exec B)
    → (let m : Exec (Unit {0}) = λ _. (r, u) in ((m >> raise {A = A} e) >>= f) u)
      ≡ (let m : Exec (Unit {0}) = λ _. (r, u) in (m >> raise {A = B} e) u)
raise-bind (ok a) u e f = refl
raise-bind (err x) u e f = refl

-- What the check of one tenant returns under a bound one.
abbrev checked : String → String → World → Bool → Result String × World
checked bound t w true = (err (cross_tenant t bound), w)
checked bound t w false = (ok bound, w)

enforce_tenant_lem :
    (bound t : String) (w : World)
    → w.tenant ≡ some bound
    → enforce_tenant t w ≡ checked bound t w (is_foreign t bound)
unfolding enforce_tenant require_tenant is_foreign
enforce_tenant_lem bound t w h = ground arith

-- A refusal, after which nothing comes.
module _ (refuse : (A : Type 0) → Error → Exec A)
    (stops : (A B : Type 0) (t bound : String) (f : A → Exec B) (w : World)
      → (refuse A (cross_tenant t bound) >>= f) w ≡ refuse B (cross_tenant t bound) w) where
  -- The call itself, or the refusal of a foreign tenant.
  abbrev pub decided : (A : Type 0) → String → Option String → Exec A → Exec A
  decided A bound none call = call
  decided A bound (some t) call = refuse A (cross_tenant t bound)

  pub decided-bind :
      (A : Type 0) (bound : String) (o : Option String) (f : Exec A) (w : World)
      → (decided (Unit {0}) bound o (pure tt) >> f) w ≡ decided A bound o f w
  decided-bind A bound none f w = refl
  decided-bind A bound (some t) f w = stops (Unit {0}) A t bound (λ _. f) w

  pub decided_cong :
      (A : Type 0) (bound : String) (o : Option String) (f g : Exec A) (w : World)
      → f w ≡ g w
      → decided A bound o f w ≡ decided A bound o g w
  decided_cong A bound none f g w e = e
  decided_cong A bound (some t) f g w e = refl

  pub decided-append :
      (A : Type 0) (bound : String) (xs ys : List String) (f : Exec A) (w : World)
      → decided A bound (first_foreign bound xs) (decided A bound (first_foreign bound ys) f) w
        ≡ decided A bound (first_foreign bound (xs ++ ys)) f w
  decided-append A bound [] ys f w = refl
  decided-append A bound (x ∷ xs) ys f w =
      go (is_foreign x bound) (decided-append A bound xs ys f w)
    where
      rest : Exec A
      rest = decided A bound (first_foreign bound ys) f

      go :
          (b : Bool)
          → decided A bound (first_foreign bound xs) rest w
            ≡ decided A bound (first_foreign bound (xs ++ ys)) f w
          → decided A bound (if b then some x else first_foreign bound xs) rest w
            ≡ decided A bound (if b then some x else first_foreign bound (xs ++ ys)) f w
      go true e = refl
      go false e = e

  -- The loop over the tenants of a value.
  abbrev pub check_tenants : List String → Exec (Unit {0})
  check_tenants [] = pure tt
  check_tenants (t ∷ ts) = catch (enforce_tenant t) (refuse String) >>= λ _. check_tenants ts

  -- One check, and the rest of the code after it.
  check-bind :
      (B : Type 0) (bound t : String) (f : String → Exec B) (w : World)
      → w.tenant ≡ some bound
      → (catch (enforce_tenant t) (refuse String) >>= f) w
        ≡ decided B bound (if is_foreign t bound then some t else none) (f bound) w
  check-bind B bound t f w h = ap after (enforce_tenant_lem bound t w h) ∙ go (is_foreign t bound)
    where
      after : Result String × World → Result B × World
      after p = let m : Exec String = λ _. p in (catch m (refuse String) >>= f) w

      go :
          (b : Bool)
          → after (checked bound t w b) ≡ decided B bound (if b then some t else none) (f bound) w
      go true = stops String B t bound f w
      go false = refl

  -- The loop passes when no tenant is foreign, and refuses the first one that is.
  pub check_tenants_lem :
      (bound : String) (ts : List String) (w : World)
      → w.tenant ≡ some bound
      → check_tenants ts w ≡ decided (Unit {0}) bound (first_foreign bound ts) (pure tt) w
  check_tenants_lem bound [] w h = refl
  check_tenants_lem bound (t ∷ ts) w h =
      check-bind (Unit {0}) bound t (λ _. check_tenants ts) w h
      ∙ go (is_foreign t bound) (check_tenants_lem bound ts w h)
    where
      go :
          (b : Bool)
          → check_tenants ts w ≡ decided (Unit {0}) bound (first_foreign bound ts) (pure tt) w
          → decided (Unit {0}) bound (if b then some t else none) (check_tenants ts) w
            ≡ decided (Unit {0}) bound (if b then some t else first_foreign bound ts) (pure tt) w
      go true e = refl
      go false e = e
