-- ===== src/SignIn/Access.antt =====
-- services/identity.py: who may sign in, and in which role.
use Prim.Native.Char.{code}
use brokerops.Base.{
  String, Bool, true, false, not, ◌&&◌, ◌||◌, Option, none, some, List, [], ◌∷◌, map, ◌==◌, nat_eq,
  if◌then◌else◌,
}
use brokerops.Base.Lists.{any, keep}
use brokerops.Models.Role.{Role, admin, viewer, operator}
use brokerops.Comms.Drafting.{is_space, is_blank}

unfoldable pub strip_left : String → String
unfolding is_space
strip_left String.[] = ""
strip_left (String.◌∷◌ c s) =
    let rest = strip_left s in if is_space (code c) then rest else String.◌∷◌ c s

unfoldable pub strip_right : String → String
unfolding is_space is_blank
strip_right String.[] = ""
strip_right (String.◌∷◌ c s) =
    let rest = strip_right s in if is_space (code c) && is_blank s then "" else String.◌∷◌ c rest

-- `text.strip()`
unfoldable pub strip : String → String
unfolding strip_left strip_right
strip s = strip_right (strip_left s)

abbrev has_at : String → Bool
has_at String.[] = false
has_at (String.◌∷◌ c s) = nat_eq (code c) 64 || has_at s

-- `email.rpartition("@")[2]`: what follows the last `@`, or the whole text without one.
unfoldable pub domain_of : String → String
domain_of String.[] = ""
domain_of (String.◌∷◌ c s) =
    let rest = domain_of s in
    if has_at s then rest else (if nat_eq (code c) 64 then s else String.◌∷◌ c s)

-- A domain that is not given, or empty, is none.
unfoldable pub given : Option String → Option String
given none = none
given (some s) = if s == "" then none else some s

abbrev pub elem : String → Option (List String) → Bool
elem e none = false
elem e (some es) = any (λ x. x == e) es

-- The domain of the address, or the hosted domain of the account, is the one that is given.
unfoldable pub in_domain : String → Option String → Option String → Bool
unfolding domain_of
in_domain email hosted none = false
in_domain email none (some domain) = domain_of email == domain
in_domain email (some h) (some domain) = h == domain || domain_of email == domain

abbrev is_none : {A : Type 0} → Option A → Bool
is_none none = true
is_none (some a) = false

pub record EmailAllowlist : Type 0 where
  pub allowed_domain : Option String
  pub allowed_emails : Option (List String)

pub record RoleResolver : Type 0 where
  pub admin_emails : Option (List String)
  pub admin_domain : Option String
  pub viewer_emails : Option (List String)
  pub viewer_domain : Option String

unfoldable pub unrestricted : EmailAllowlist → Bool
unrestricted a = is_none a.allowed_emails && is_none a.allowed_domain

module _ (lower : String → String) where
  -- The addresses that are not blank, stripped and in lower case.
  unfoldable pub cleaned : List String → List String
  unfolding strip
  cleaned emails = map (λ e. lower (strip e)) (keep (λ e. not (is_blank e)) emails)

  -- A list with nothing but blank addresses is a list that admits nobody.
  unfoldable pub allowlist : Option String → List String → EmailAllowlist
  unfolding given cleaned
  allowlist domain emails = record {
    allowed_domain = given domain;
    allowed_emails = elim emails [ [] ↦ none | e ∷ es ↦ some (cleaned (e ∷ es)) ];
  }

  unfoldable pub permits : EmailAllowlist → String → Option String → Bool
  unfolding unrestricted in_domain
  permits a email hosted =
      unrestricted a
      || elem (lower email) a.allowed_emails
      || in_domain (lower email) hosted a.allowed_domain

  -- `_lower_set`: here a list with nothing but blank addresses is no rule.
  unfoldable pub lower_set : List String → Option (List String)
  unfolding cleaned
  lower_set emails = elim (cleaned emails) [ [] ↦ none | e ∷ es ↦ some (e ∷ es) ]

  unfoldable pub role_resolver :
      List String → Option String → List String → Option String → RoleResolver
  unfolding lower_set given
  role_resolver admins admin_domain viewers viewer_domain = record {
    admin_emails = lower_set admins;
    admin_domain = given admin_domain;
    viewer_emails = lower_set viewers;
    viewer_domain = given viewer_domain;
  }

  unfoldable pub matches : String → Option String → Option (List String) → Option String → Bool
  unfolding in_domain
  matches email hosted emails domain =
      elem (lower email) emails || in_domain (lower email) hosted domain

  unfoldable pub role_for : RoleResolver → String → Option String → Role
  unfolding matches
  role_for r email hosted =
      if is_none r.admin_emails
        && is_none r.admin_domain
        && is_none r.viewer_emails
        && is_none r.viewer_domain
      then admin
      else if matches email hosted r.admin_emails r.admin_domain
      then admin
      else if matches email hosted r.viewer_emails r.viewer_domain
      then viewer
      else operator
