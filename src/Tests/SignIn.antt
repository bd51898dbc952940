-- ===== src/Tests/SignIn.antt =====
-- The sign-in theorem at a concrete history.
use brokerops.Base.{◌≤◌, ◌≡◌, String, refl, none, some, List, [], ◌∷◌}
use brokerops.Base.Lists.{All}
use brokerops.SignIn.Access.{EmailAllowlist, RoleResolver, allowlist, role_resolver}
use brokerops.SignIn.MagicLink.{no_sign_in, request, redeem}
use brokerops.SignIn.Once.{
  Step, requests, redeems, after_steps, sessions, IsPermitted, sessions-after_steps,
}

abbrev same : String → String
same s = s

abbrev allowed : EmailAllowlist
allowed = allowlist same (some "acme.com") []

abbrev roles : RoleResolver
roles = role_resolver same ("ann@acme.com" ∷ []) none [] none

abbrev steps : List Step
steps =
    requests " ann@acme.com" "t1" 10
    ∷ requests "eve@evil.com" "t2" 11
    ∷ redeems "t1" 12
    ∷ redeems "t1" 13
    ∷ redeems "t2" 14
    ∷ []

sessions-after_steps_example :
    (sessions "t1" (after_steps same same allowed roles 15 no_sign_in steps).issued ≤ 1)
    × All
        (IsPermitted same same allowed roles 15)
        (after_steps same same allowed roles 15 no_sign_in steps).issued
sessions-after_steps_example = sessions-after_steps same same allowed roles 15 steps "t1"

-- The first redemption of the link issues the one session.
first_redemption :
    sessions "t1" (after_steps same same allowed roles 15 no_sign_in steps).issued ≡ 1
unfolding sessions after_steps request redeem allowlist role_resolver
first_redemption = refl
