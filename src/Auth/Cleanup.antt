-- ===== src/Auth/Cleanup.antt =====
-- `CleanExpiredTokens` of cron/enter.go.
use orbit_cloud.Base.{ℕ, true, false, ◌||◌, Option, none, some, ltb, List}
use orbit_cloud.Base.Int.{ℤ}
use orbit_cloud.Auth.{RefreshToken, Accounts}
use orbit_cloud.Cron.{Table, clean_expired}

-- expires_at < ? OR revoked_at IS NOT NULL
abbrev pub expired_tokens : ℕ → Table RefreshToken
expired_tokens now = record {
  id = λ t. t.id;
  is_expired = λ t. ltb t.expires_at now || (elim t.revoked_at [ none ↦ false | some at ↦ true ]);
}

abbrev pub left_tokens : Accounts → Option (ℕ × List RefreshToken) → Option (ℕ × Accounts)
left_tokens db none = none
left_tokens db (some (total, tokens)) = some (total, record db { tokens = tokens })

-- `CleanExpiredTokens`
unfoldable pub clean_expired_tokens : ℕ → ℤ → Accounts → Option (ℕ × Accounts)
unfolding clean_expired
clean_expired_tokens now batch_size db =
    left_tokens db (clean_expired (expired_tokens now) batch_size db.tokens)
