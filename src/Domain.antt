-- ===== src/Domain.antt =====
-- internal/domain/errors.go: the sentinel errors, and errors as values with the text that
-- `err.Error()` shows.
use fmxevolution_go.Base.{String, List, [], ◌∷◌, concat}

pub data Kind : Type 0 where
  unauthorized forbidden not_found conflict validation timeout rate_limited : Kind
  other : Kind

unfoldable pub sentinel_text : Kind → String
sentinel_text Kind.unauthorized = "unauthorized"
sentinel_text Kind.forbidden = "forbidden"
sentinel_text Kind.not_found = "not found"
sentinel_text Kind.conflict = "conflict"
sentinel_text Kind.validation = "validation failed"
sentinel_text Kind.timeout = "timeout"
sentinel_text Kind.rate_limited = "rate limited"
sentinel_text Kind.other = ""

-- `kind` is the sentinel that `errors.Is` finds in the chain.
pub record GoError : Type 0 where
  pub kind : Kind
  pub text : String

-- `fmt.Errorf("%w: msg", domain.ErrX)`
unfoldable pub domain_error : Kind → String → GoError
unfolding sentinel_text
domain_error k msg = record { kind = k; text = concat (sentinel_text k ∷ ": " ∷ msg ∷ []) }

-- `errors.New(msg)`, and the errors of other packages
unfoldable pub plain_error : String → GoError
plain_error msg = record { kind = Kind.other; text = msg }

-- `fmt.Errorf("prefix%w", err)`
unfoldable pub wrap_error : List String → GoError → GoError
wrap_error ps e = record e { text = concat (concat ps ∷ e.text ∷ []) }
