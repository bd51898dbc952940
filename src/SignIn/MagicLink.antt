-- ===== src/SignIn/MagicLink.antt =====
-- services/magic_link.py over InMemoryMagicTokenStore.
use brokerops.Base.{
  ℕ, ◌+◌, String, Bool, true, false, not, ◌||◌, Option, none, some, List, [], ◌∷◌, ◌++◌, ◌==◌, ltb,
  truthy, if◌then◌else◌,
}
use brokerops.Base.Lists.{any}
use brokerops.Base.Dict.{Dict, lookup, insert}
use brokerops.Models.Role.{Role}
use brokerops.SignIn.Access.{EmailAllowlist, RoleResolver, permits, role_for, strip}

pub record Principal : Type 0 where
  pub subject : String
  pub email : String
  pub name : String
  pub verified : Bool
  pub role : Role

-- The rows of the token store, the hashes that were consumed, the links that were mailed (address and
-- token) and the sessions that were issued (the hash of the token and the principal).
pub record SignInState : Type 0 where
  pub rows : Dict (String × ℕ)
  pub consumed : List String
  pub mailed : List (String × String)
  pub issued : List (String × Principal)

abbrev pub no_sign_in : SignInState
no_sign_in = record { rows = []; consumed = []; mailed = []; issued = [] }

-- How a redemption ends: with a session, or with an `AuthError`, forbidden or not.
pub data Redeemed : Type 0 where
  session : Principal → Redeemed
  auth_error : Bool → Redeemed

abbrev pub is_member : String → List String → Bool
is_member h hs = any (λ x. x == h) hs

unfoldable pub create : String → String → ℕ → SignInState → SignInState
unfolding insert
create hash email expires s = record s { rows = insert hash (email, expires) s.rows }

-- A row is returned once, when it is marked as consumed.
unfoldable pub consume_row :
    String → Option (String × ℕ) → SignInState → Option (String × ℕ) × SignInState
consume_row hash none s = (none, s)
consume_row hash (some row) s =
    if is_member hash s.consumed
    then (none, s)
    else (some row, record s { consumed = hash ∷ s.consumed })

unfoldable pub consume : String → SignInState → Option (String × ℕ) × SignInState
unfolding lookup consume_row
consume hash s = consume_row hash (lookup hash s.rows) s

module _ (hash : String → String) (lower : String → String) (allowed : EmailAllowlist)
    (roles : RoleResolver) (ttl : ℕ) where
  -- `secrets.token_urlsafe` and the clock are the arguments `token` and `now`.
  unfoldable pub request : String → String → ℕ → SignInState → SignInState
  unfolding strip permits create
  request email token now s =
      let e = lower (strip email) in
      if not (truthy e) || not (permits lower allowed e none)
      then s
      else (let t = create (hash token) e (now + ttl) s in
          record t { mailed = t.mailed ++ (e, token) ∷ [] })

  abbrev pub principal_for : String → Principal
  principal_for email = record {
    subject = email;
    email = email;
    name = "";
    verified = true;
    role = role_for lower roles email none;
  }

  -- What a redemption does with the consumed row.
  unfoldable pub redeem_row :
      String → ℕ → Option (String × ℕ) → SignInState → Redeemed × SignInState
  unfolding permits role_for
  redeem_row h now none s = (auth_error false, s)
  redeem_row h now (some (email, expires)) s =
      if ltb expires now
      then (auth_error false, s)
      else if not (permits lower allowed email none)
      then (auth_error true, s)
      else (
        session (principal_for email),
        record s { issued = s.issued ++ (h, principal_for email) ∷ [] },
      )

  unfoldable pub redeem : String → ℕ → SignInState → Redeemed × SignInState
  unfolding consume redeem_row
  redeem token now s = let (row, s') = consume (hash token) s in redeem_row (hash token) now row s'
