-- ===== src/Milestones/Engine/Reminder.antt =====
-- When services/milestone_engine.py plans a reminder email, for which milestone, and to whom.
use brokerops.Base.{
  ℕ, String, ◌≡◌, ◌≢◌, refl, Bool, true, false, Option, none, some, List, [], ◌∷◌, truthy, arith,
  ◌&&◌, ◌==◌, ◌⊎◌, inl, inr, eq_iff, if◌then◌else◌,
}
use brokerops.Base.Int.{ℤ, ◌≤ℤ◌}
use brokerops.Base.Lists.{All, In, first}
use brokerops.Base.Sort.{insert_by, sort_by, IsOrder, IsSortedBy, sort_by-IsSortedBy}
use brokerops.Models.Transaction.{Transaction, TransactionParty}
use brokerops.Models.Milestone.{Milestone}
use brokerops.Models.Drafting.{DraftContext}
use brokerops.Milestones.Engine.{
  reachable_owner, soonest_first, reminder_or, reminder_context, first_reachable,
  plan_reminder_email, or_empty,
}

module _ {A : Type 0} (le : A → A → Bool) where
  In-insert_by : (a x : A) (ys : List A) → In a (insert_by le x ys) → (a ≡ x) ⊎ In a ys
  unfolding insert_by
  In-insert_by a x [] h = h
  In-insert_by a x (y ∷ ys) h = go (λ i. In-insert_by a x ys i) (le x y) h
    where
      go :
          (In a (insert_by le x ys) → (a ≡ x) ⊎ In a ys)
          → (b : Bool) → In a (if b then x ∷ y ∷ ys else y ∷ insert_by le x ys)
          → (a ≡ x) ⊎ In a (y ∷ ys)
      go rest true h = h
      go rest false (inl e) = inr (inl e)
      go rest false (inr h) = elim (rest h) [ inl e ↦ inl e | inr i ↦ inr (inr i) ]

  In-sort_by : (a : A) (xs : List A) → In a (sort_by le xs) → In a xs
  unfolding sort_by
  In-sort_by a [] h = h
  In-sort_by a (x ∷ xs) h = elim (In-insert_by a x (sort_by le xs) h) [
    | inl e ↦ inl e
    | inr i ↦ inr (In-sort_by a xs i)
  ]

  module _ (P : A → Type 0) where
    All-of_insert_by : (x : A) (ys : List A) → All P (insert_by le x ys) → P x × All P ys
    unfolding insert_by
    All-of_insert_by x [] h = h
    All-of_insert_by x (y ∷ ys) h = go (λ i. All-of_insert_by x ys i) (le x y) h
      where
        go :
            (All P (insert_by le x ys) → P x × All P ys)
            → (b : Bool) → All P (if b then x ∷ y ∷ ys else y ∷ insert_by le x ys)
            → P x × All P (y ∷ ys)
        go rest true h = h
        go rest false h = let r = rest h.1 in (r.0, (h.0, r.1))

    All-of_sort_by : (xs : List A) → All P (sort_by le xs) → All P xs
    unfolding sort_by
    All-of_sort_by [] h = tt
    All-of_sort_by (x ∷ xs) h =
        let r = All-of_insert_by x (sort_by le xs) h in (r.0, All-of_sort_by xs r.1)

-- A party that owns the milestone and has an email on file.
abbrev pub IsReachableOwner : Milestone → TransactionParty → Type 0
IsReachableOwner m p = (p.name ≢ "") × (p.name ≡ m.owner) × (p.email ≢ "")

abbrev pub HasNoOwner : Transaction → Milestone × ℤ → Type 0
HasNoOwner txn pair = All (λ p. IsReachableOwner pair.0 p → ⊥) txn.parties

-- The email tells the party about the milestone and its due date.
abbrev pub IsAbout :
    (ℕ → String) → Transaction → Milestone → TransactionParty → DraftContext → Type 0
IsAbout iso_date txn m p c =
    (c.recipient ≡ p.email)
    × (c.contact_id ≡ or_empty p.contact_id)
    × (c.transaction_id ≡ txn.id)
    × (c.listing_key ≡ txn.listing_key)
    × (c.template_ref ≡ "milestone_reminder:v1")
    × (c.params
        ≡ ("recipient_name", p.name)
          ∷ ("milestone_title", m.title)
          ∷ ("listing_address", txn.listing_key)
          ∷ ("due_date", iso_date m.due_date)
          ∷ ("sender_name", "The Brokerage Team")
          ∷ [])

-- No email when no milestone has such an owner; else one to such an owner, about a milestone than which no other with
-- such an owner is due sooner.
abbrev pub IsPlanned :
    (ℕ → String) → Transaction → List (Milestone × ℤ) → Option DraftContext → Type 0
IsPlanned iso_date txn pairs none = All (HasNoOwner txn) pairs
IsPlanned iso_date txn pairs (some c) =
    (pair : Milestone × ℤ) × (p : TransactionParty) × In pair pairs
    × In p txn.parties
    × IsReachableOwner pair.0 p
    × IsAbout iso_date txn pair.0 p c
    × All (λ other. HasNoOwner txn other ⊎ (pair.1 ≤ℤ other.1)) pairs

abbrev owns : Milestone → TransactionParty → Bool
owns m p = truthy p.name && p.name == m.owner && truthy p.email

owns_lem : (m : Milestone) (p : TransactionParty) → owns m p ≡ true → IsReachableOwner m p
owns_lem m p h = ground (arith, h, eq_iff p.name "", eq_iff p.email "", eq_iff p.name m.owner)

not_owns_lem : (m : Milestone) (p : TransactionParty) → owns m p ≡ false → IsReachableOwner m p → ⊥
not_owns_lem m p h o =
    ground (arith, h, o.0, o.1, o.2, eq_iff p.name "", eq_iff p.email "", eq_iff p.name m.owner)

first-none :
    (m : Milestone) (ps : List TransactionParty)
    → first (owns m) ps ≡ none
    → All (λ p. IsReachableOwner m p → ⊥) ps
first-none m [] h = tt
first-none m (p ∷ ps) h = go (λ i. first-none m ps i) (owns m p) refl h
  where
    go :
        (first (owns m) ps ≡ none → All (λ q. IsReachableOwner m q → ⊥) ps)
        → (b : Bool) → owns m p ≡ b
        → (if b then some p else first (owns m) ps) ≡ none
        → All (λ q. IsReachableOwner m q → ⊥) (p ∷ ps)
    go rest true e h = ground (arith, h)
    go rest false e h = (not_owns_lem m p e, rest h)

first-some :
    (m : Milestone) (ps : List TransactionParty) (q : TransactionParty)
    → first (owns m) ps ≡ some q
    → In q ps × IsReachableOwner m q
first-some m [] q h = ground (arith, h)
first-some m (p ∷ ps) q h = go (λ i. first-some m ps q i) (owns m p) refl h
  where
    go :
        (first (owns m) ps ≡ some q → In q ps × IsReachableOwner m q)
        → (b : Bool) → owns m p ≡ b
        → (if b then some p else first (owns m) ps) ≡ some q
        → In q (p ∷ ps) × IsReachableOwner m q
    go rest true e h = let same : q ≡ p = cc h in (inl same, rw same (owns_lem m p e))
    go rest false e h = let r = rest h in (inr r.0, r.1)

owner-none :
    (txn : Transaction) (pair : Milestone × ℤ)
    → reachable_owner txn pair.0 ≡ none
    → HasNoOwner txn pair
unfolding reachable_owner
owner-none txn pair h = first-none pair.0 txn.parties h

owner-some :
    (txn : Transaction) (m : Milestone) (q : TransactionParty)
    → reachable_owner txn m ≡ some q
    → In q txn.parties × IsReachableOwner m q
unfolding reachable_owner
owner-some txn m q h = first-some m txn.parties q h

reminder-IsAbout :
    (iso_date : ℕ → String) (txn : Transaction) (m : Milestone) (p : TransactionParty)
    → IsAbout iso_date txn m p (reminder_context iso_date txn m p)
unfolding reminder_context
reminder-IsAbout iso_date txn m p = (refl, refl, refl, refl, refl, refl)

soonest-IsOrder : IsOrder soonest_first
unfolding soonest_first
soonest-IsOrder = record {
  total = λ x y h. ground (arith, h);
  trans = λ x y z h k. ground (arith, h, k);
}

-- The ones that come after a first are not due sooner.
no_sooner :
    (txn : Transaction) (a : Milestone × ℤ) (rest : List (Milestone × ℤ))
    → All (λ b. soonest_first a b ≡ true) rest
    → All (λ b. HasNoOwner txn b ⊎ (a.1 ≤ℤ b.1)) rest
unfolding soonest_first
no_sooner txn a [] h = tt
no_sooner txn a (b ∷ rest) h = (inr (ground (arith, h.0)), no_sooner txn a rest h.1)

first_reachable_lem :
    (iso_date : ℕ → String) (txn : Transaction) (pairs : List (Milestone × ℤ))
    → IsSortedBy soonest_first pairs
    → IsPlanned iso_date txn pairs (first_reachable iso_date txn pairs)
unfolding first_reachable reminder_or
first_reachable_lem iso_date txn [] h = tt
first_reachable_lem iso_date txn ((m, days) ∷ rest) h =
    turn (reachable_owner txn m) refl (first_reachable iso_date txn rest)
      (first_reachable_lem iso_date txn rest h.1)
  where
    turn :
        (o : Option TransactionParty)
        → reachable_owner txn m ≡ o
        → (later : Option DraftContext) → IsPlanned iso_date txn rest later
        → IsPlanned iso_date txn ((m, days) ∷ rest) (reminder_or iso_date txn m o later)
    turn none e none p = (owner-none txn (m, days) e, p)
    turn none e (some c) (pair, q, i, j, own, about, least) =
        (pair, q, inr i, j, own, about, (inl (owner-none txn (m, days) e), least))
    turn (some q) e later p =
        let (i, own) = owner-some txn m q e in
        (
          (m, days),
          q,
          inl refl,
          i,
          own,
          reminder-IsAbout iso_date txn m q,
          (inr (ground arith), no_sooner txn (m, days) rest h.0),
        )

-- Without a due-soon milestone whose owner is a party of the transaction with an email on file, nothing is planned.
-- Otherwise one email is: to such an owner, about a milestone of theirs and its due date, and no
-- other milestone with such an owner is due sooner.
pub plan_reminder_email-IsPlanned :
    (iso_date : ℕ → String) (txn : Transaction) (pairs : List (Milestone × ℤ))
    → IsPlanned iso_date txn pairs (plan_reminder_email iso_date txn pairs)
unfolding plan_reminder_email
plan_reminder_email-IsPlanned iso_date txn pairs = back (first_reachable iso_date txn sorted) (
    first_reachable_lem iso_date txn sorted
      (sort_by-IsSortedBy soonest_first soonest-IsOrder pairs))
  where
    sorted : List (Milestone × ℤ)
    sorted = sort_by soonest_first pairs

    back :
        (c : Option DraftContext)
        → IsPlanned iso_date txn (sort_by soonest_first pairs) c
        → IsPlanned iso_date txn pairs c
    back none h = All-of_sort_by soonest_first (HasNoOwner txn) pairs h
    back (some c) (pair, q, i, j, own, about, least) = (
      pair,
      q,
      In-sort_by soonest_first pair pairs i,
      j,
      own,
      about,
      All-of_sort_by soonest_first (λ b. HasNoOwner txn b ⊎ (pair.1 ≤ℤ b.1)) pairs least,
    )
