-- ===== src/Milestones/Dates.antt =====
-- `datetime.date`, as the ordinals 1 to 3652059 (0001-01-01 to 9999-12-31).
use brokerops.Base.{ℕ, ◌+◌, ◌≤◌, ◌&&◌, leb, if◌then◌else◌}
use brokerops.Base.Int.{ℤ, pos_part, neg_part, sub_ℕ, neg}
use brokerops.World.{Result, ok, err, overflow_error}

abbrev pub max_ordinal : ℕ
max_ordinal = 3652059

-- A value that a `date` can have.
abbrev pub IsDate : ℕ → Type 0
IsDate d = (1 ≤ d) × (d ≤ max_ordinal)

-- `d + timedelta(days=n)`, which raises `OverflowError` outside the range of dates.
unfoldable pub add_days : ℕ → ℤ → Result ℕ
add_days d n =
    if leb (neg_part n + 1) (d + pos_part n) && leb (d + pos_part n) (neg_part n + max_ordinal)
    then ok (pos_part (sub_ℕ (d + pos_part n) (neg_part n)))
    else err overflow_error

-- `d - timedelta(days=n)`
unfoldable pub sub_days : ℕ → ℤ → Result ℕ
unfolding add_days
sub_days d n = add_days d (neg n)

-- `(d - e).days`
unfoldable pub days_between : ℕ → ℕ → ℤ
days_between d e = sub_ℕ d e
