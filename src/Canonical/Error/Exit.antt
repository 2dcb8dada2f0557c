-- ===== src/Canonical/Error/Exit.antt =====
-- src/canonical/error.rs: retries, HTTP statuses and exit codes.
use brazen.Base.{ℕ, ◌≤◌, false, ◌⊎◌, ◌↔◌, ◌≡◌, ◌≢◌, arith, ◌==◌, if◌then◌else◌}
use brazen.Canonical.Error.{
  ErrorKind, usage, provider, from_http_status, http_status, retryable, exit_code, exit_from_status,
}

-- The reverse table undoes the forward table on every status but 403, which comes back as 401, and
-- on the kinds that come from a status the forward table undoes the reverse one.
pub from_http_status-http_status :
    (status : ℕ)
    → (http_status (from_http_status status) ≡ (if status == 403 then 401 else status))
      × (from_http_status (http_status (from_http_status status)) ≡ from_http_status status)
unfolding from_http_status http_status
from_http_status-http_status s = ground arith

-- No error exits 0, and an error that may be retried exits 69 or 70.
pub exit_code-retryable :
    (kind : ErrorKind)
    → (exit_code kind ≢ 0)
      × ((retryable kind ≡ false) ⊎ (exit_code kind ≡ 69) ⊎ (exit_code kind ≡ 70))
unfolding exit_code retryable
exit_code-retryable (provider s) = ground arith
exit_code-retryable usage = ground arith
exit_code-retryable _ = ground arith

-- The exit code read off a raw response's status is 0 exactly for the statuses 200 to 299, and it
-- is 70 exactly from 500 up.
pub exit_from_status_iff :
    (status : ℕ)
    → ((exit_from_status status ≡ 0) ↔ ((200 ≤ status) × (status ≤ 299)))
      × ((exit_from_status status ≡ 70) ↔ (500 ≤ status))
unfolding exit_from_status
exit_from_status_iff s = ground arith
