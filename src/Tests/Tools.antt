-- ===== src/Tests/Tools.antt =====
-- The theorems of the tool seam at concrete values.
use brokerops.Base.{String, refl, if◌then◌else◌, none, some, [], ◌∷◌, ◌==◌}
use brokerops.Models.Role.{Role}
use brokerops.Tools.Value.{Value, scalar, text, model, no_field, field}
use brokerops.Tools.Egress.{Pattern, filter_tool_response}
use brokerops.Tests.Data.{platform, acme}
use brokerops.Base.{ℕ, List, true}
use brokerops.Base.Int.{pos}
use brokerops.World.{Exec, pure}
use brokerops.Tools.Tenants.{authorized}
use brokerops.Tools.Tenants.Refusal.{ledger}
use brokerops.Tools.Tenants.Guard.{IsChecked, NamesArgument, authorized-IsChecked}
use brokerops.Tools.Egress.Guard.{IsFiltered, filter_tool_response-IsFiltered}

-- The redaction of one secret.
abbrev one_secret : Pattern
one_secret mark s = if s == "sk-1" then mark else s

-- A contact of the tenant `zenith` inside a message of the bound tenant.
abbrev note : Value
note = model (
    field "tenant_id" none (text "acme") (
      field "email" (some Role.operator) (text "ann@example.com") (
        field "api_key" none (text "k") (
          field "body" none (text "sk-1") (
            field "contact" none (model (field "tenant_id" none (text "zenith") no_field))
              no_field)))))

abbrev arguments : List (String × Value)
arguments = ("limit", scalar (pos 3)) ∷ ("m", note) ∷ []

abbrev one : Exec ℕ
one = pure 1

authorized-IsChecked_example :
    IsChecked platform true "save" "acme"
      (λ t. NamesArgument t arguments)
      (authorized platform (ledger true) "save" arguments one acme)
      (one acme)
      acme
authorized-IsChecked_example =
    authorized-IsChecked platform true "save" "acme" arguments one acme refl

filter_tool_response-IsFiltered_example :
    IsFiltered platform
      (one_secret ∷ [])
      Role.viewer
      true
      "get"
      "acme"
      note
      acme
      (filter_tool_response platform (one_secret ∷ []) Role.viewer (ledger true) "get" note acme)
filter_tool_response-IsFiltered_example =
    filter_tool_response-IsFiltered platform (one_secret ∷ []) Role.viewer true "get" "acme" note
      acme ((refl, refl), tt) refl
