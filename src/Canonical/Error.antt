-- ===== src/Canonical/Error.antt =====
-- src/canonical/error.rs: the kinds of failure, what is retried, and the exit codes.
pub mod Exit
pub mod Wire
use brazen.Base.{
  ℕ, ◌%◌, Bool, true, false, ◌&&◌, ◌||◌, Option, none, some, Bytes, leb, ltb, ◌==◌, if◌then◌else◌,
}

pub data ErrorKind : Type 0 where
  usage parse_input config auth : ErrorKind
  provider : ℕ → ErrorKind
  transport interrupted : ErrorKind
  other : Bytes → ErrorKind

pub record CanonicalError (V : Type 0) : Type 0 where
  pub kind : ErrorKind
  pub message : Bytes
  pub provider_detail : Option V
  pub retry_after_seconds : Option ℕ

unfoldable pub from_http_status : ℕ → ErrorKind
from_http_status status = if status == 401 || status == 403 then auth else provider status

unfoldable pub http_status : ErrorKind → ℕ
http_status (provider status) = status
http_status auth = 401
http_status usage = 400
http_status parse_input = 400
http_status transport = 502
http_status config = 500
http_status interrupted = 500
http_status (other tag) = 500

-- `CanonicalError::retryable`, a query over the kind alone.
unfoldable pub retryable : ErrorKind → Bool
retryable transport = true
retryable (provider status) = status == 429 || leb 500 status
retryable _ = false

-- `Sig` holds an `i32` as its bit pattern.
pub data ExitClass : Type 0 where
  ok usage no_input unavailable software no_perm config : ExitClass
  sig : ℕ → ExitClass

-- `n as u8` keeps the low byte.
unfoldable pub code : ExitClass → ℕ
code ExitClass.ok = 0
code ExitClass.usage = 64
code no_input = 66
code unavailable = 69
code software = 70
code no_perm = 77
code ExitClass.config = 78
code (sig n) = n % 256

unfoldable pub from_kind : ErrorKind → ExitClass
from_kind ErrorKind.usage = ExitClass.usage
from_kind parse_input = ExitClass.usage
from_kind ErrorKind.config = ExitClass.config
from_kind auth = no_perm
from_kind (provider status) = if leb 500 status then software else unavailable
from_kind transport = unavailable
from_kind interrupted = sig 130
from_kind (other tag) = software

-- `io::ErrorKind`, as far as the program looks at it.
pub data IoError : Type 0 where
  broken_pipe other_io : IoError

unfoldable pub from_io : IoError → ExitClass
from_io broken_pipe = sig 141
from_io other_io = unavailable

-- `CanonicalError::exit_code`
unfoldable pub exit_code : ErrorKind → ℕ
unfolding code from_kind
exit_code kind = code (from_kind kind)

-- `is_2xx` and `exit_from_status` of src/run/events/mod.rs.
unfoldable pub is_2xx : ℕ → Bool
is_2xx status = leb 200 status && ltb status 300

unfoldable pub exit_from_status : ℕ → ℕ
unfolding is_2xx exit_code from_http_status
exit_from_status status = if is_2xx status then 0 else exit_code (from_http_status status)
