-- ===== src/Retry/Tests.antt =====
-- The polling loop on two replies.
use prolog_forge.Prelude.{
  ℕ, zero, suc, ◌≡◌, refl, arith, [], ◌∷◌, some, Bool, nat_eq, list_eq, Str, bytes, leb, Result, ok,
  err,
}
use prolog_forge.Rename.Workspace.{WorkspaceEdit, flatten, flatten_from}
use prolog_forge.Retry.Poll.{
  ClientError, lsp_error, negsuc, Payload, RetryOutcome, contains, classify_indexing_signal,
  retry_from, retry_with,
}
use prolog_forge.Retry.Polled.{Polled, retry_with-Polled, retry_with_ends}

-- The server's content is modified, whatever the error says.
abbrev parse : Str → Payload
parse payload = record { code = some (negsuc 32800); message = payload }

abbrev renames : WorkspaceEdit
renames = record { changes = (bytes "file:///r/a", []) ∷ []; document_changes = [] }

-- The second attempt is answered.
abbrev reply : ℕ → Result ClientError WorkspaceEdit
reply zero = err (lsp_error (bytes "modified"))
reply (suc i) = ok renames

abbrev late : ℕ → Bool
late i = leb 7 i

abbrev polled : RetryOutcome
polled = record {
  edit = ok renames;
  attempts =
      record { attempt = 1; reason = bytes "-32801 ContentModified" }
      ∷ record { attempt = 2; reason = [] }
      ∷ [];
}

polls : retry_with parse reply late 9 ≡ some polled
unfolding retry_with retry_from classify_indexing_signal contains flatten flatten_from
polls = refl

retry_with-Polled_example : Polled parse reply late 0 polled.edit polled.attempts
retry_with-Polled_example = retry_with-Polled parse reply late 9 polled polls

retry_with_ends_example : (out : RetryOutcome) × (retry_with parse reply late 9 ≡ some out)
retry_with_ends_example = retry_with_ends parse reply late 9 7 refl (omega arith)
