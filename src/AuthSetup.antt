-- ===== src/AuthSetup.antt =====
-- The set-up of authentication in a service: infrastructure/internal/authsetup/authsetup.go.
use ride_matching_engine.Common.{Bool, true, false, String, ◌<>◌, Option, none, some}
use ride_matching_engine.Errors.{Error, Fallible, ok, err, wrap}

-- What a service is handed: a key store, or `nil`, by which each client is the fallback tenant.
pub data Keying : Type 0 where
  guarded anonymous : Keying

-- The key store behind its construction and its first ping.
unfoldable pub reached : String → Option Error → Option Error → Fallible Keying
reached addr (some e) pinged = err (wrap "configuring the key store: " e "")
reached addr none (some e) = err (wrap ("cannot reach the key store at " <> (addr <> ": ")) e "")
reached addr none none = ok guarded

-- `Open`: whether anonymous clients are allowed, the address, and what `NewRedisStore` and `Ping`
-- return.
unfoldable pub open_store : Bool → String → Option Error → Option Error → Fallible Keying
unfolding reached
open_store true addr configured pinged = ok anonymous
open_store false addr configured pinged = reached addr configured pinged
