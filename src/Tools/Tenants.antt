-- ===== src/Tools/Tenants.antt =====
-- services/tool_authz.py: the tenants that an argument names, and their check before a call.
pub mod Checks
pub mod Authorized
pub mod Named
pub mod Refusal
pub mod Guard
use Prim.Native.String
use brokerops.Base.{
  String, Bool, true, false, ◌||◌, not, ◌&&◌, Option, none, some, List, [], ◌∷◌, ◌++◌, ◌==◌,
  if◌then◌else◌, truthy,
}
use brokerops.World.{Platform, Exec, Error, catch, pure, raise, ◌>>=◌, ◌>>◌}
use brokerops.Ports.{AuditLog}
use brokerops.Tenancy.{enforce_tenant}
use brokerops.Scoped.Foreign.{reraise}
use brokerops.Tools.Value.{
  Value, Values, Entries, ModelFields, nothing, scalar, text, mapping, sequence, model, no_entry,
  entry, no_value, value, no_field, field,
}

-- `s.endswith(suffix)`
unfoldable pub ends_with : String → String → Bool
ends_with suffix String.[] = suffix == ""
ends_with suffix (String.◌∷◌ c s) = String.◌∷◌ c s == suffix || ends_with suffix s

-- TENANT_FIELD
abbrev pub tenant_field : String
tenant_field = "tenant_id"

unfoldable pub is_tenant_param_name : String → Bool
unfolding ends_with
is_tenant_param_name name = name == tenant_field || ends_with "_tenant_id" name

-- `tenant if isinstance(tenant, str) else ""`
unfoldable pub text_or_empty : Value → String
text_or_empty (text s) = s
text_or_empty _ = ""

-- The `tenant_id` of a model that has one.
unfoldable pub tenant_of_fields : ModelFields → List String
unfolding text_or_empty
tenant_of_fields no_field = []
tenant_of_fields (field name role v fs) =
    if name == tenant_field then text_or_empty v ∷ [] else tenant_of_fields fs

-- `value.get("tenant_id")`, when it is a text.
unfoldable pub tenant_of_entries : Entries → List String
tenant_of_entries no_entry = []
tenant_of_entries (entry key (text s) es) =
    if key == tenant_field then s ∷ [] else tenant_of_entries es
tenant_of_entries (entry key v es) = if key == tenant_field then [] else tenant_of_entries es

-- `tenant_values`. Inside a model only models, lists and tuples are followed; a mapping there is business
-- data. The flag is `within_model`, and the name is that of the parameter or of the field. The source visits an
-- object once (`seen`): the model visits it at each place, and finds its tenants again.
unfoldable mutual
  unfolding is_tenant_param_name tenant_of_fields tenant_of_entries

  pub tenant_values : Bool → String → Value → List String
  tenant_values within name nothing = []
  tenant_values within name (scalar n) = []
  tenant_values within name (text s) = if is_tenant_param_name name then s ∷ [] else []
  tenant_values true name (mapping es) = []
  tenant_values false name (mapping es) = tenant_of_entries es
  tenant_values within name (sequence vs) = tenant_values_in within name vs
  tenant_values within name (model fs) = tenant_of_fields fs ++ tenant_values_of fs

  -- The items of a list or a tuple.
  pub tenant_values_in : Bool → String → Values → List String
  tenant_values_in within name no_value = []
  tenant_values_in within name (value v vs) =
      tenant_values within name v ++ tenant_values_in within name vs

  -- The nested models, lists and tuples of a model, but for its `tenant_id`.
  pub tenant_values_of : ModelFields → List String
  tenant_values_of no_field = []
  tenant_values_of (field name role (model gs) fs) =
      let rest = tenant_values_of fs in
      let here = tenant_values true name (model gs) in
      if name == tenant_field then rest else here ++ rest
  tenant_values_of (field name role (sequence vs) fs) =
      let rest = tenant_values_of fs in
      let here = tenant_values_in true name vs in
      if name == tenant_field then rest else here ++ rest
  tenant_values_of (field name role v fs) = tenant_values_of fs

-- The check of one tenant: a foreign one is recorded, when there is a ledger, and raised again.
unfoldable pub denied : Platform → Option AuditLog → {A : Type 0} → String → Error → Exec A
unfolding reraise
denied platform none tool e = raise e
denied platform (some audit) tool e = reraise platform audit tool e

module _ (platform : Platform) (audit : Option AuditLog) (tool : String) where
  -- `_authorize`, the loop over the tenants of one argument.
  unfoldable pub authorize_all : List String → Exec (Unit {0})
  unfolding enforce_tenant denied
  authorize_all [] = pure tt
  authorize_all (t ∷ ts) =
      catch (enforce_tenant t) (denied platform audit tool) >>= λ _. authorize_all ts

  -- The loops over the arguments, by position and by name: each has the name of its parameter.
  unfoldable pub authorize_args : List (String × Value) → Exec (Unit {0})
  unfolding authorize_all tenant_values
  authorize_args [] = pure tt
  authorize_args ((name, v) ∷ args) =
      authorize_all (tenant_values false name v) >> authorize_args args

  -- `authorize_tenant_params`: the call is made when every argument has passed.
  unfoldable pub authorized : {A : Type 0} → List (String × Value) → Exec A → Exec A
  unfolding authorize_args
  authorized args call = authorize_args args >> call
