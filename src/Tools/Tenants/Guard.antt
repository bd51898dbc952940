-- ===== src/Tools/Tenants/Guard.antt =====
-- What services/tool_authz.py guarantees of a guarded call.
use brokerops.Base.{
  String, ◌≡◌, refl, ap, ◌∙◌, ◌⊎◌, inl, inr, Bool, true, false, Option, none, some, List, [], ◌∷◌,
}
use brokerops.Base.Lists.{In}
use brokerops.World.{World, Platform, Exec, Result, err, cross_tenant, raise, ◌>>◌}
use brokerops.Scoped.Foreign.{reraise}
use brokerops.Tools.Value.{Value}
use brokerops.Tools.Tenants.{tenant_values, authorized, denied}
use brokerops.Tools.Tenants.Checks.{first_foreign}
use brokerops.Tools.Tenants.Authorized.{named_tenants, unless_foreign, authorized-unless_foreign}
use brokerops.Tools.Tenants.Named.{Names, named, In-append, append-In}
use brokerops.Tools.Tenants.Refusal.{
  IsOther, ledger, refused, Found, first_foreign-Found, attempt-refused,
}

-- An argument names a tenant.
abbrev pub NamesArgument : String → List (String × Value) → Type 0
NamesArgument t [] = ⊥
NamesArgument t ((name, v) ∷ args) = Names t false name v ⊎ NamesArgument t args

-- A call that was made, where every tenant that is named is blank or the bound one; or one that was refused.
abbrev pub IsChecked :
    {A : Type 0}
    → Platform
    → Bool
    → String
    → String
    → (String → Type 0)
    → Result A × World
    → Result A × World
    → World
    → Type 0
IsChecked platform has_ledger tool bound N end made w =
    (((t : String) → N t → (t ≡ "") ⊎ (t ≡ bound)) × (end ≡ made))
    ⊎ ((t : String) × N t
        × IsOther bound t
        × (end ≡ (err (cross_tenant t bound), refused platform has_ledger tool t bound w)))

named_argument :
    (t : String) (args : List (String × Value)) → In t (named_tenants args) → NamesArgument t args
named_argument t [] h = h
named_argument t ((name, v) ∷ args) h =
    elim (In-append t (tenant_values false name v) (named_tenants args) h) [
      | inl a ↦ inl ((named t false name v).0 a)
      | inr b ↦ inr (named_argument t args b)
    ]

argument_named :
    (t : String) (args : List (String × Value)) → NamesArgument t args → In t (named_tenants args)
argument_named t [] h = h
argument_named t ((name, v) ∷ args) (inl h) =
    append-In t (tenant_values false name v) (named_tenants args) (inl ((named t false name v).1 h))
argument_named t ((name, v) ∷ args) (inr h) =
    append-In t (tenant_values false name v) (named_tenants args) (inr (argument_named t args h))

denied-refused :
    {A : Type 0} (platform : Platform) (has_ledger : Bool) (tool t bound : String) (w : World)
    → denied platform (ledger has_ledger) {A = A} tool (cross_tenant t bound) w
      ≡ (err (cross_tenant t bound), refused platform has_ledger tool t bound w)
unfolding denied reraise
denied-refused platform false tool t bound w = refl
denied-refused {A} platform true tool t bound w =
    ap
      (λ (r : Result (Unit {0}) × World).
        ((λ (_ : World). r) >> raise {A = A} (cross_tenant t bound)) w)
      (attempt-refused platform tool t bound w)

-- Under a bound tenant a guarded call is made as it is when every tenant that its arguments name is blank or the bound one,
-- and otherwise it is not made: the result is the error about a named tenant that is neither, and the
-- ledger, where there is one, has exactly one record more, of the failed attempt with both tenants. A text names a
-- tenant under a name that says so, a mapping at the top by its `tenant_id`, and a model, also
-- inside models and sequences, by its own `tenant_id` field.
pub authorized-IsChecked :
    {A : Type 0} (platform : Platform) (has_ledger : Bool) (tool bound : String)
    (args : List (String × Value)) (call : Exec A) (w : World)
    → w.tenant ≡ some bound
    → IsChecked platform has_ledger tool bound
        (λ t. NamesArgument t args)
        (authorized platform (ledger has_ledger) tool args call w)
        (call w)
        w
authorized-IsChecked {A} platform has_ledger tool bound args call w h =
    go (first_foreign bound (named_tenants args)) (first_foreign-Found bound (named_tenants args))
      (authorized-unless_foreign platform (ledger has_ledger) tool bound args call w h)
  where
    go :
        (o : Option String)
        → Found bound (named_tenants args) o
        → authorized platform (ledger has_ledger) tool args call w
          ≡ unless_foreign platform (ledger has_ledger) tool bound o call w
        → IsChecked platform has_ledger tool bound
            (λ t. NamesArgument t args)
            (authorized platform (ledger has_ledger) tool args call w)
            (call w)
            w
    go none f e = inl (λ t k. f t (argument_named t args k), e)
    go (some t) f e =
        inr
          (t, named_argument t args f.0, f.1, e ∙ denied-refused platform has_ledger tool t bound w)
