-- ===== src/SignIn/Once.antt =====
-- Magic links over histories of requests and redemptions.
use brokerops.Base.{
  ℕ, ◌+◌, ◌≤◌, String, ◌≡◌, refl, true, false, Option, none, some, List, [], ◌∷◌, ◌++◌, ◌==◌, arith,
  eq_iff, if◌then◌else◌, Bool-cases, inl, inr, ltb,
}
use brokerops.Base.Lists.{All, All-append}
use brokerops.Base.Dict.{lookup}
use brokerops.SignIn.Access.{EmailAllowlist, RoleResolver, permits, role_for}
use brokerops.SignIn.MagicLink.{
  Principal, SignInState, no_sign_in, is_member, create, consume_row, consume, request,
  principal_for, redeem_row, redeem,
}

-- Someone asks for a link, or redeems a token, at a time.
pub data Step : Type 0 where
  requests : String → String → ℕ → Step
  redeems : String → ℕ → Step

-- The sessions that were issued for the hash of a token.
unfoldable pub sessions : String → List (String × Principal) → ℕ
sessions h [] = 0
sessions h ((j, p) ∷ rest) = (if j == h then 1 else 0) + sessions h rest

sessions-append :
    (h j : String) (xs : List (String × Principal)) (p : Principal)
    → sessions h (xs ++ (j, p) ∷ []) ≡ sessions h xs + (if j == h then 1 else 0)
unfolding sessions
sessions-append h j [] p = omega arith
sessions-append h j ((i, q) ∷ xs) p = omega (arith, sessions-append h j xs p)

module _ (hash : String → String) (lower : String → String) (allowed : EmailAllowlist)
    (roles : RoleResolver) (ttl : ℕ) where
  unfoldable pub after_step : SignInState → Step → SignInState
  after_step s (requests email token now) = request hash lower allowed roles ttl email token now s
  after_step s (redeems token now) = (redeem hash lower allowed roles ttl token now s).1

  unfoldable pub after_steps : SignInState → List Step → SignInState
  unfolding after_step
  after_steps s [] = s
  after_steps s (x ∷ xs) = after_steps (after_step s x) xs

  -- The principal is that of an address that is permitted, with the role that its address has.
  abbrev pub IsPermitted : String × Principal → Type 0
  IsPermitted row =
      (permits lower allowed row.1.email none ≡ true)
      × (row.1.role ≡ role_for lower roles row.1.email none)

  abbrev IsSound : SignInState → Type 0
  IsSound s =
      ((h : String) → sessions h s.issued ≤ (if is_member h s.consumed then 1 else 0))
      × All IsPermitted s.issued

  request-IsSound :
      (email token : String) (now : ℕ) (s : SignInState)
      → IsSound s
      → IsSound (request hash lower allowed roles ttl email token now s)
  unfolding request create
  request-IsSound email token now s h = ground (arith, h)

  -- A consumed hash, with no session so far, is issued at most one.
  redeem_row-IsSound :
      (hashed email : String) (expires now : ℕ) (s : SignInState)
      → is_member hashed s.consumed ≡ false
      → IsSound s
      → IsSound
          (redeem_row hash lower allowed roles ttl hashed now
            (some (email, expires))
            (record s { consumed = hashed ∷ s.consumed })).1
  unfolding redeem_row
  redeem_row-IsSound hashed email expires now s fresh h = elim (Bool-cases (ltb expires now)) [
    | inl e ↦ rw e (λ k. ground (arith, h.0 k, eq_iff hashed k), h.1)
    | inr e ↦ elim (Bool-cases (permits lower allowed email none)) [
      | inr d ↦ rw e (rw d (λ k. ground (arith, h.0 k, eq_iff hashed k), h.1))
      | inl d ↦ rw e (
          rw d (
            λ k. ground (
              arith,
              h.0 k,
              fresh,
              eq_iff hashed k,
              sessions-append k hashed s.issued (principal_for hash lower allowed roles ttl email),
            ),
            All-append IsPermitted s.issued
                ((hashed, principal_for hash lower allowed roles ttl email) ∷ []) h.1
                ((d, refl), tt),
          ))
    ]
  ]

  consumed-IsSound :
      (hashed : String) (now : ℕ) (o : Option (String × ℕ)) (s : SignInState)
      → IsSound s
      → IsSound (
          let r = consume_row hashed o s in
          (redeem_row hash lower allowed roles ttl hashed now r.0 r.1).1)
  unfolding redeem_row consume_row
  consumed-IsSound hashed now none s h = h
  consumed-IsSound hashed now (some row) s h = elim (Bool-cases (is_member hashed s.consumed)) [
    | inl e ↦ rw e h
    | inr e ↦ rw e (redeem_row-IsSound hashed row.0 row.1 now s e h)
  ]

  redeem-IsSound :
      (token : String) (now : ℕ) (s : SignInState)
      → IsSound s
      → IsSound (redeem hash lower allowed roles ttl token now s).1
  unfolding redeem consume
  redeem-IsSound token now s h = consumed-IsSound (hash token) now (lookup (hash token) s.rows) s h

  after_steps-IsSound : (s : SignInState) (xs : List Step) → IsSound s → IsSound (after_steps s xs)
  unfolding after_steps
  after_steps-IsSound s [] h = h
  after_steps-IsSound s (requests email token now ∷ xs) h =
      after_steps-IsSound (after_step s (requests email token now)) xs
        (request-IsSound email token now s h)
  after_steps-IsSound s (redeems token now ∷ xs) h =
      after_steps-IsSound (after_step s (redeems token now)) xs (redeem-IsSound token now s h)

-- Whatever links are asked for and redeemed, in whatever order and as often as anyone likes: a token has
-- led to at most one session, also when it was mailed twice, and each session is that of an address that
-- the allow list permits, in the role that the rules give to it.
pub sessions-after_steps :
    (hash lower : String → String) (allowed : EmailAllowlist) (roles : RoleResolver) (ttl : ℕ)
    (steps : List Step) (token : String)
    → let s = after_steps hash lower allowed roles ttl no_sign_in steps in
      (sessions (hash token) s.issued ≤ 1) × All (IsPermitted hash lower allowed roles ttl) s.issued
unfolding sessions
sessions-after_steps hash lower allowed roles ttl steps token =
    let h =
      after_steps-IsSound hash lower allowed roles ttl no_sign_in steps (λ k. ground arith, tt) in
    (ground (arith, h.0 (hash token)), h.1)
