-- ===== src/Retry/Poll.antt =====
-- The classification of replies and the polling loop of crates/aa-ra-client/src/retry.rs. The replies to
-- the attempts and whether the deadline has passed after each are arguments; the reader of an error's
-- JSON is a parameter. The loop takes fuel; `none` is a run out of it.
use prolog_forge.Prelude.{
  ℕ, zero, suc, List, [], ◌∷◌, ◌++◌, Option, none, some, Bool, true, false, ◌||◌, ◌==◌, nat_eq,
  list_eq, eqb, Str, bytes, if◌then◌else◌, Result, ok, err,
}
use prolog_forge.Rename.Edits.{TextEdit}
use prolog_forge.Rename.Workspace.{WorkspaceEdit, flatten}

pub data ClientError : Type 0 where
  io json not_available lsp_error protocol : Str → ClientError
  timeout : ClientError

-- An `i64`.
pub data ℤ : Type 0 where
  pos negsuc : ℕ → ℤ

-- What is looked up in an error's JSON.
pub record Payload : Type 0 where
  pub code : Option ℤ
  pub message : Str

pub data IndexingSignal : Type 0 where
  ready hard_failure : IndexingSignal
  not_ready : Str → IndexingSignal

pub record RetryAttempt : Type 0 where
  pub attempt : ℕ
  pub reason : Str

pub record RetryOutcome : Type 0 where
  pub edit : Result ClientError WorkspaceEdit
  pub attempts : List RetryAttempt

-- `str::contains`.
unfoldable pub contains : Str → Str → Bool
contains needle [] = needle == []
contains needle (c ∷ cs) = starts needle (c ∷ cs) || contains needle cs
  where
    starts : Str → Str → Bool
    starts [] s = true
    starts (p ∷ ps) [] = false
    starts (p ∷ ps) (x ∷ xs) = let rest = starts ps xs in if p == x then rest else false

classify_code : Option ℤ → Str → IndexingSignal
unfolding contains
classify_code (some (negsuc n)) message =
    if eqb n 32601
    then if contains (bytes "No references found") message
      then not_ready (bytes "-32602 No references found")
      else hard_failure
    else if eqb n 32800
    then not_ready (bytes "-32801 ContentModified")
    else if eqb n 32801
    then not_ready (bytes "-32802 RequestCancelled")
    else hard_failure
classify_code _ message = hard_failure

classify_edit : List (Str × List TextEdit) → IndexingSignal
classify_edit [] = not_ready (bytes "empty WorkspaceEdit (likely result: null)")
classify_edit (e ∷ es) = ready

module _ (parse : Str → Payload) where
  unfoldable pub classify_indexing_signal : Result ClientError WorkspaceEdit → IndexingSignal
  unfolding classify_code classify_edit
  classify_indexing_signal (ok edit) = classify_edit (flatten edit)
  classify_indexing_signal (err (lsp_error payload)) =
      classify_code (parse payload).code (parse payload).message
  classify_indexing_signal (err _) = hard_failure

  module _ (reply : ℕ → Result ClientError WorkspaceEdit) (late : ℕ → Bool) where
    -- The loop from the attempt with index `i`, which is counted from 1.
    unfoldable pub retry_from : ℕ → ℕ → List RetryAttempt → Option RetryOutcome
    unfolding classify_indexing_signal
    retry_from zero i attempts = none
    retry_from (suc fuel) i attempts = elim (classify_indexing_signal (reply i)) [
      | ready ↦ some (record {
        edit = reply i;
        attempts = attempts ++ record { attempt = suc i; reason = [] } ∷ [];
      })
      | hard_failure ↦ some (record {
        edit = reply i;
        attempts = attempts ++ record { attempt = suc i; reason = bytes "hard-failure" } ∷ [];
      })
      | not_ready reason ↦ elim (late i) [
        | true ↦ some (record {
          edit = err timeout;
          attempts = attempts ++ record { attempt = suc i; reason = reason } ∷ [];
        })
        | false ↦
            retry_from fuel (suc i) (attempts ++ record { attempt = suc i; reason = reason } ∷ [])
      ]
    ]

    unfoldable pub retry_with : ℕ → Option RetryOutcome
    unfolding retry_from
    retry_with fuel = retry_from fuel 0 []
