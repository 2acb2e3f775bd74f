-- ===== src/Llm/Provider.antt =====
-- Requests, replies and the interface of a provider, crates/aa-llm/src/provider.rs, and the cache of the
-- replies, crates/aa-llm/src/cache.rs. A temperature is given by its bits. The hash of the standard
-- library is an argument.
use prolog_forge.Prelude.{ℕ, Option, nat_eq, Str, Map, map_get, map_insert, Result}

pub record LlmRequest : Type 0 where
  pub system : Str
  pub user : Str
  pub schema_id : Str
  pub max_tokens : ℕ
  pub temperature : ℕ

pub record LlmResponse : Type 0 where
  pub text : Str
  pub tokens_in : ℕ
  pub tokens_out : ℕ
  pub provider : Str

pub data LlmError : Type 0 where
  unavailable invalid_response : Str → LlmError
  budget : ℕ → ℕ → LlmError

-- `LlmProvider`.
pub record Provider : Type 0 where
  pub name : Str
  pub complete : LlmRequest → Result LlmError LlmResponse

abbrev pub ResponseCache : Type 0
ResponseCache = Map ℕ LlmResponse

-- What the hasher is fed with, and the hash.
abbrev pub Hasher : Type 0
Hasher = Str → Str → Str → Str → ℕ → ℕ → ℕ

unfoldable pub key : Hasher → Str → LlmRequest → ℕ
key hash provider req =
    hash provider req.system req.user req.schema_id req.max_tokens req.temperature

unfoldable pub get : Hasher → Str → LlmRequest → ResponseCache → Option LlmResponse
get hash provider req cache = map_get (key hash provider req) cache

unfoldable pub put : Hasher → Str → LlmRequest → LlmResponse → ResponseCache → ResponseCache
put hash provider req resp cache = map_insert (key hash provider req) resp cache
