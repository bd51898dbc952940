-- ===== src/Tools/Tenants/Named.antt =====
-- The tenants that a value names, as services/tool_authz.py documents them: the surface of the tool seam.
use brokerops.Base.{
  String, ◌≡◌, ◌≢◌, refl, ap, ◌∙◌, ◌⊎◌, inl, inr, Bool, true, false, ◌||◌, List, [], ◌∷◌, ◌++◌,
  ◌==◌, arith, eq_iff, eq_refl, if◌then◌else◌,
}
use brokerops.Base.Lists.{In}
use brokerops.Tools.Value.{
  Value, Values, Entries, ModelFields, nothing, scalar, text, mapping, sequence, model, no_entry,
  entry, no_value, value, no_field, field,
}
use brokerops.Tools.Tenants.{
  ends_with, is_tenant_param_name, text_or_empty, tenant_of_fields, tenant_of_entries,
  tenant_values, tenant_values_in, tenant_values_of,
}

-- A text in front of another.
abbrev pub joined : String → String → String
joined String.[] t = t
joined (String.◌∷◌ c s) t = String.◌∷◌ c (joined s t)

-- `tenant_id`, or a name that ends in `_tenant_id`.
abbrev pub IsTenantName : String → Type 0
IsTenantName name = (name ≡ "tenant_id") ⊎ ((prefix : String) × (name ≡ joined prefix "_tenant_id"))

-- A text is the tenant; under a field of a model a value that is no text counts as the empty tenant.
abbrev pub IsText : String → Value → Type 0
IsText t (text s) = t ≡ s
IsText t _ = ⊥

abbrev pub IsClaim : String → Value → Type 0
IsClaim t (text s) = t ≡ s
IsClaim t _ = t ≡ ""

abbrev pub NamesEntry : String → Entries → Type 0
NamesEntry t no_entry = ⊥
NamesEntry t (entry key v es) =
    ((key ≡ "tenant_id") × IsText t v) ⊎ ((key ≢ "tenant_id") × NamesEntry t es)

abbrev pub NamesField : String → ModelFields → Type 0
NamesField t no_field = ⊥
NamesField t (field name role v fs) =
    ((name ≡ "tenant_id") × IsClaim t v) ⊎ ((name ≢ "tenant_id") × NamesField t fs)

-- A value under a name, at the top or within a model, names a tenant.
unfoldable mutual
  pub Names : String → Bool → String → Value → Type 0
  Names t within name nothing = ⊥
  Names t within name (scalar n) = ⊥
  Names t within name (text s) = IsTenantName name × (t ≡ s)
  Names t true name (mapping es) = ⊥
  Names t false name (mapping es) = NamesEntry t es
  Names t within name (sequence vs) = NamesItem t within name vs
  Names t within name (model fs) = NamesField t fs ⊎ NamesNested t fs

  pub NamesItem : String → Bool → String → Values → Type 0
  NamesItem t within name no_value = ⊥
  NamesItem t within name (value v vs) = Names t within name v ⊎ NamesItem t within name vs

  pub NamesNested : String → ModelFields → Type 0
  NamesNested t no_field = ⊥
  NamesNested t (field name role (model gs) fs) =
      ((name ≢ "tenant_id") × Names t true name (model gs)) ⊎ NamesNested t fs
  NamesNested t (field name role (sequence vs) fs) =
      ((name ≢ "tenant_id") × NamesItem t true name vs) ⊎ NamesNested t fs
  NamesNested t (field name role v fs) = NamesNested t fs

ends_with-prefix :
    (suffix s : String) → ends_with suffix s ≡ true → (prefix : String) × (s ≡ joined prefix suffix)
unfolding ends_with
ends_with-prefix suffix String.[] h = ("", ground (arith, h, eq_iff suffix ""))
ends_with-prefix suffix (String.◌∷◌ c s) h =
    go (λ e. ends_with-prefix suffix s e) (String.◌∷◌ c s == suffix) refl h
  where
    go :
        (ends_with suffix s ≡ true → (prefix : String) × (s ≡ joined prefix suffix))
        → (b : Bool) → (String.◌∷◌ c s == suffix) ≡ b
        → (b || ends_with suffix s) ≡ true
        → (prefix : String) × (String.◌∷◌ c s ≡ joined prefix suffix)
    go rest true e k = ("", ground (arith, e, eq_iff (String.◌∷◌ c s) suffix))
    go rest false e k = let (p, f) = rest k in (String.◌∷◌ c p, ap (λ x. String.◌∷◌ c x) f)

ends_with-joined : (prefix suffix : String) → ends_with suffix (joined prefix suffix) ≡ true
unfolding ends_with
ends_with-joined String.[] String.[] = refl
ends_with-joined String.[] (String.◌∷◌ c s) = rw (eq_refl (String.◌∷◌ c s)) refl
ends_with-joined (String.◌∷◌ c p) suffix =
    go (String.◌∷◌ c (joined p suffix) == suffix) (ends_with-joined p suffix)
  where
    go :
        (b : Bool)
        → ends_with suffix (joined p suffix) ≡ true
        → (b || ends_with suffix (joined p suffix)) ≡ true
    go true e = refl
    go false e = e

tenant_name : (name : String) → is_tenant_param_name name ≡ true → IsTenantName name
unfolding is_tenant_param_name
tenant_name name h = go (name == "tenant_id") refl h
  where
    go :
        (b : Bool)
        → (name == "tenant_id") ≡ b
        → (b || ends_with "_tenant_id" name) ≡ true
        → IsTenantName name
    go true e k = inl (ground (arith, e, eq_iff name "tenant_id"))
    go false e k = inr (ends_with-prefix "_tenant_id" name k)

name_tenant : (name : String) → IsTenantName name → is_tenant_param_name name ≡ true
unfolding is_tenant_param_name
name_tenant name (inl e) = ground (arith, e, eq_iff name "tenant_id")
name_tenant name (inr (p, e)) =
    let k : ends_with "_tenant_id" name ≡ true =
      ap (ends_with "_tenant_id") e ∙ ends_with-joined p "_tenant_id" in
    go (name == "tenant_id") k
  where
    go : (b : Bool) → ends_with "_tenant_id" name ≡ true → (b || ends_with "_tenant_id" name) ≡ true
    go true e = refl
    go false e = e

pub In-append : (t : String) (xs ys : List String) → In t (xs ++ ys) → In t xs ⊎ In t ys
In-append t [] ys h = inr h
In-append t (x ∷ xs) ys (inl e) = inl (inl e)
In-append t (x ∷ xs) ys (inr h) = elim (In-append t xs ys h) [ inl a ↦ inl (inr a) | inr b ↦ inr b ]

pub append-In : (t : String) (xs ys : List String) → In t xs ⊎ In t ys → In t (xs ++ ys)
append-In t [] ys (inl h) = elim h [ ]
append-In t [] ys (inr h) = h
append-In t (x ∷ xs) ys (inl (inl e)) = inl e
append-In t (x ∷ xs) ys (inl (inr h)) = inr (append-In t xs ys (inl h))
append-In t (x ∷ xs) ys (inr h) = inr (append-In t xs ys (inr h))

abbrev Same : Type 0 → Type 0 → Type 0
Same A B = (A → B) × (B → A)

-- A value's own tenant in front, or the rest.
own_name :
    (t name : String) (own xs : List String) (O N : Type 0)
    → Same (In t own) O
    → Same (In t xs) N
    → Same
        (In t (if name == "tenant_id" then own else xs))
        (((name ≡ "tenant_id") × O) ⊎ ((name ≢ "tenant_id") × N))
own_name t name own xs O N here there =
    go (name == "tenant_id") (ground (arith, eq_iff name "tenant_id"))
      (ground (arith, eq_iff name "tenant_id"))
  where
    go :
        (b : Bool)
        → (b ≡ true → name ≡ "tenant_id")
        → (b ≡ false → name ≢ "tenant_id")
        → Same
            (In t (if b then own else xs))
            (((name ≡ "tenant_id") × O) ⊎ ((name ≢ "tenant_id") × N))
    go true is isnt = (
      λ h. inl (is refl, here.0 h),
      λ x. elim x [ inl (_, o) ↦ here.1 o | inr (n, _) ↦ elim (n (is refl)) [ ] ],
    )
    go false is isnt = (
      λ h. inr (isnt refl, there.0 h),
      λ x. elim x [ inl (e, _) ↦ elim (isnt refl e) [ ] | inr (_, n) ↦ there.1 n ],
    )

single : (t s : String) → Same (In t (s ∷ [])) (t ≡ s)
single t s = (λ x. elim x [ inl e ↦ e | inr h ↦ elim h [ ] ], λ e. inl e)

nowhere : (t : String) → Same (In t []) ⊥
nowhere t = (λ h. h, λ h. h)

joint :
    (t : String) (xs ys : List String) (X Y : Type 0)
    → Same (In t xs) X
    → Same (In t ys) Y
    → Same (In t (xs ++ ys)) (X ⊎ Y)
joint t xs ys X Y f g = (
  λ h. elim (In-append t xs ys h) [ inl a ↦ inl (f.0 a) | inr b ↦ inr (g.0 b) ],
  λ h. append-In t xs ys (elim h [ inl a ↦ inl (f.1 a) | inr b ↦ inr (g.1 b) ]),
)

-- What a nested value names in front of the rest.
nested :
    (t name : String) (xs ys : List String) (X Y : Type 0)
    → Same (In t xs) X
    → Same (In t ys) Y
    → Same (In t (if name == "tenant_id" then ys else xs ++ ys)) (((name ≢ "tenant_id") × X) ⊎ Y)
nested t name xs ys X Y f g =
    go (name == "tenant_id") (ground (arith, eq_iff name "tenant_id"))
      (ground (arith, eq_iff name "tenant_id"))
  where
    go :
        (b : Bool)
        → (b ≡ true → name ≡ "tenant_id")
        → (b ≡ false → name ≢ "tenant_id")
        → Same (In t (if b then ys else xs ++ ys)) (((name ≢ "tenant_id") × X) ⊎ Y)
    go true is isnt =
        (λ h. inr (g.0 h), λ x. elim x [ inl (n, _) ↦ elim (n (is refl)) [ ] | inr y ↦ g.1 y ])
    go false is isnt =
        let both = joint t xs ys X Y f g in
        (
          λ h. elim (both.0 h) [ inl a ↦ inl (isnt refl, a) | inr b ↦ inr b ],
          λ x. both.1 (elim x [ inl (_, a) ↦ inl a | inr b ↦ inr b ]),
        )

named_by_entries :
    (t : String) (es : Entries) → Same (In t (tenant_of_entries es)) (NamesEntry t es)
unfolding tenant_of_entries
named_by_entries t no_entry = nowhere t
named_by_entries t (entry key (text s) es) =
    own_name t key _ _ _ _ (single t s) (named_by_entries t es)
named_by_entries t (entry key nothing es) =
    own_name t key _ _ _ _ (nowhere t) (named_by_entries t es)
named_by_entries t (entry key (scalar n) es) =
    own_name t key _ _ _ _ (nowhere t) (named_by_entries t es)
named_by_entries t (entry key (mapping m) es) =
    own_name t key _ _ _ _ (nowhere t) (named_by_entries t es)
named_by_entries t (entry key (sequence vs) es) =
    own_name t key _ _ _ _ (nowhere t) (named_by_entries t es)
named_by_entries t (entry key (model fs) es) =
    own_name t key _ _ _ _ (nowhere t) (named_by_entries t es)

named_by_field :
    (t : String) (fs : ModelFields) → Same (In t (tenant_of_fields fs)) (NamesField t fs)
unfolding tenant_of_fields text_or_empty
named_by_field t no_field = nowhere t
named_by_field t (field name role v fs) = own_name t name _ _ _ _ (claim v) (named_by_field t fs)
  where
    claim : (v : Value) → Same (In t (text_or_empty v ∷ [])) (IsClaim t v)
    claim (text s) = single t s
    claim nothing = single t ""
    claim (scalar n) = single t ""
    claim (mapping m) = single t ""
    claim (sequence vs) = single t ""
    claim (model gs) = single t ""

named_text :
    (t name s : String)
    → Same (In t (if is_tenant_param_name name then s ∷ [] else [])) (IsTenantName name × (t ≡ s))
named_text t name s = go (is_tenant_param_name name) (tenant_name name) (name_tenant name)
  where
    go :
        (b : Bool)
        → (b ≡ true → IsTenantName name)
        → (IsTenantName name → b ≡ true)
        → Same (In t (if b then s ∷ [] else [])) (IsTenantName name × (t ≡ s))
    go true is isnt = (λ h. (is refl, (single t s).0 h), λ (_, e). inl e)
    go false is isnt = (λ h. elim h [ ], λ (n, e). let f = isnt n in ground (arith, f))

mutual
  unfolding tenant_values Names

  pub named :
      (t : String) (within : Bool) (name : String) (v : Value)
      → Same (In t (tenant_values within name v)) (Names t within name v)
  named t within name nothing = nowhere t
  named t within name (scalar n) = nowhere t
  named t within name (text s) = named_text t name s
  named t true name (mapping es) = nowhere t
  named t false name (mapping es) = named_by_entries t es
  named t within name (sequence vs) = named_item t within name vs
  named t within name (model fs) = joint t _ _ _ _ (named_by_field t fs) (named_nested t fs)

  named_item :
      (t : String) (within : Bool) (name : String) (vs : Values)
      → Same (In t (tenant_values_in within name vs)) (NamesItem t within name vs)
  named_item t within name no_value = nowhere t
  named_item t within name (value v vs) =
      joint t _ _ _ _ (named t within name v) (named_item t within name vs)

  named_nested :
      (t : String) (fs : ModelFields) → Same (In t (tenant_values_of fs)) (NamesNested t fs)
  named_nested t no_field = nowhere t
  named_nested t (field name role (model gs) fs) =
      nested t name _ _ _ _ (named t true name (model gs)) (named_nested t fs)
  named_nested t (field name role (sequence vs) fs) =
      nested t name _ _ _ _ (named_item t true name vs) (named_nested t fs)
  named_nested t (field name role nothing fs) = named_nested t fs
  named_nested t (field name role (scalar n) fs) = named_nested t fs
  named_nested t (field name role (text s) fs) = named_nested t fs
  named_nested t (field name role (mapping m) fs) = named_nested t fs
