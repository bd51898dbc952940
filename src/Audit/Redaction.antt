-- ===== src/Audit/Redaction.antt =====
-- What `redact` leaves of a value.
use brokerops.Base.{
  arith, String, Bool, ◌≡◌, refl, ap, true, false, Bool-cases, inl, inr, if◌then◌else◌,
}
use mathlib.Core.Path.{subst}
use brokerops.Models.Json.{
  Json, Items, Fields, null, bool, int, str, arr, obj, nil, cons, end, field,
}
use brokerops.Audit.{is_secret_key, redacted, redact, redact_items, redact_fields}

-- The mask, when the key names a secret.
abbrev IsMaskedIf : Bool → Json → Type 0
IsMaskedIf true v = v ≡ str redacted
IsMaskedIf false v = Unit

masked : (b : Bool) (v : Json) → IsMaskedIf b (if b then str redacted else v)
masked true v = refl
masked false v = tt

module _ (lower : String → String) where
  -- At every depth, a secret-looking key holds the mask.
  mutual
    pub IsClean : Json → Type 0
    IsClean null = Unit
    IsClean (bool b) = Unit
    IsClean (int n) = Unit
    IsClean (str s) = Unit
    IsClean (arr xs) = IsCleanItems xs
    IsClean (obj fs) = IsCleanFields fs

    pub IsCleanItems : Items → Type 0
    IsCleanItems nil = Unit
    IsCleanItems (cons x xs) = IsClean x × IsCleanItems xs

    pub IsCleanFields : Fields → Type 0
    IsCleanFields end = Unit
    IsCleanFields (field k v fs) =
        IsMaskedIf (is_secret_key lower k) v × IsClean v × IsCleanFields fs

  masked-IsClean : (b : Bool) (v : Json) → IsClean v → IsClean (if b then str redacted else v)
  unfolding IsClean
  masked-IsClean true v h = tt
  masked-IsClean false v h = h

  mutual
    unfolding IsClean redact

    clean : (j : Json) → IsClean (redact lower j)
    clean null = tt
    clean (bool b) = tt
    clean (int n) = tt
    clean (str s) = tt
    clean (arr xs) = clean_items xs
    clean (obj fs) = clean_fields fs

    clean_items : (xs : Items) → IsCleanItems (redact_items lower xs)
    clean_items nil = tt
    clean_items (cons x xs) = (clean x, clean_items xs)

    clean_fields : (fs : Fields) → IsCleanFields (redact_fields lower fs)
    clean_fields end = tt
    clean_fields (field k v fs) = (
      masked (is_secret_key lower k) (redact lower v),
      masked-IsClean (is_secret_key lower k) (redact lower v) (clean v),
      clean_fields fs,
    )

  mutual
    unfolding IsClean redact

    fixed : (j : Json) → IsClean j → redact lower j ≡ j
    fixed null h = refl
    fixed (bool b) h = refl
    fixed (int n) h = refl
    fixed (str s) h = refl
    fixed (arr xs) h = ap arr (fixed_items xs h)
    fixed (obj fs) h = ap obj (fixed_fields fs h)

    fixed_items : (xs : Items) → IsCleanItems xs → redact_items lower xs ≡ xs
    fixed_items nil h = refl
    fixed_items (cons x xs) h = cc (fixed x h.0, fixed_items xs h.1)

    fixed_fields : (fs : Fields) → IsCleanFields fs → redact_fields lower fs ≡ fs
    fixed_fields end h = refl
    fixed_fields (field k v fs) h = elim (Bool-cases (is_secret_key lower k)) [
      | inl e ↦ ground (arith, e, h.0, fixed_fields fs h.2)
      | inr e ↦ rw e (cc (fixed v h.1, fixed_fields fs h.2))
    ]

-- Whatever the lower-casing, redaction leaves the mask under every secret-looking key at every
-- depth, and it returns exactly the values that were so already unchanged; so redacting twice is
-- redacting once.
pub redact-IsClean :
    (lower : String → String) (j : Json)
    → IsClean lower (redact lower j)
      × ((IsClean lower j → redact lower j ≡ j) × (redact lower j ≡ j → IsClean lower j))
      × (redact lower (redact lower j) ≡ redact lower j)
redact-IsClean lower j = (
  clean lower j,
  (fixed lower j, λ e. subst (IsClean lower) e (clean lower j)),
  fixed lower (redact lower j) (clean lower j),
)
