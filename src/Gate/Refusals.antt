-- ===== src/Gate/Refusals.antt =====
-- What the policy of a connection keeps out.
use dbx_plugin_kafka.Base.{
  ◌≡◌, refl, ap, ◌⊎◌, inl, inr, String, true, false, [], ◌∷◌, Bool-cases, string_eq,
}
use dbx_plugin_kafka.Base.Strings.{trim_space}
use dbx_plugin_kafka.Base.Result.{Result, ok, err, ◌>>=◌}
use dbx_plugin_kafka.Confirm.{ConfirmStore}
use dbx_plugin_kafka.Policy.{Profile}
use dbx_plugin_kafka.Gate.{
  WriteArgs, topics_delete, groups_offsets_reset, topics_records_clear, WriteRequest, WriteError,
  WriteCall, refused, check, check_topics_delete, check_offsets_reset, check_records_clear,
  ensure_writable, ensure_delete_allowed, write, Check, missing_required, is_present, value,
  list_value, string_slice, delete_topics, delete_request, clear_records, require, require_some,
}

-- What the setting of the connection rules out: every tool when it is read-only, and the two that
-- remove data when it does not allow deletions.
unfoldable pub Forbids : Profile → WriteArgs → Type 0
Forbids p (groups_offsets_reset _ _ _ _ _ _) = p.read_only ≡ true
Forbids p (topics_delete _ _) = (p.read_only ≡ true) ⊎ (p.allow_delete ≡ false)
Forbids p (topics_records_clear _ _) = (p.read_only ≡ true) ⊎ (p.allow_delete ≡ false)

IsErr : {A : Type 0} → Result WriteError A → Type 0
IsErr m = (e : WriteError) × (m ≡ err e)

-- A chain of four steps fails if its last step fails.
fails :
    {A : Type 0} (a b c d : Check) (f : Unit → Result WriteError A)
    → IsErr d
    → IsErr (a >>= λ _. b >>= λ _. c >>= λ _. d >>= f)
unfolding IsErr
fails (err x) b c d f h = (x, refl)
fails (ok _) (err x) c d f h = (x, refl)
fails (ok _) (ok _) (err x) d f h = (x, refl)
fails (ok _) (ok _) (ok _) d f (e, p) = (e, ap (λ r. r >>= f) p)

read_only_fails : (p : Profile) → p.read_only ≡ true → IsErr (ensure_writable p)
unfolding IsErr ensure_writable
read_only_fails p h = (WriteError.read_only, rw h refl)

no_delete_fails :
    (p : Profile)
    → (p.read_only ≡ true) ⊎ (p.allow_delete ≡ false)
    → IsErr (ensure_delete_allowed p)
unfolding IsErr ensure_delete_allowed
no_delete_fails p (inl h) = (WriteError.read_only, rw h refl)
no_delete_fails p (inr h) = elim (Bool-cases p.read_only) [
  | inl r ↦ (WriteError.read_only, rw r refl)
  | inr r ↦ (WriteError.delete_not_allowed, rw (r, h) refl)
]

check_fails : (p : Profile) (args : WriteArgs) → Forbids p args → IsErr (check p args)
unfolding Forbids check check_topics_delete check_offsets_reset check_records_clear
check_fails p (topics_delete connection topics) h =
    fails
      (missing_required
        (("connectionId", is_present connection) ∷ ("topics", is_present topics) ∷ []))
      (require "connectionId" (trim_space (value connection)))
      (require_some "topics" (string_slice (list_value topics))) (ensure_delete_allowed p)
      (λ _. ok (
        delete_topics
          (delete_request (trim_space (value connection)) (string_slice (list_value topics)))))
      (no_delete_fails p h)
check_fails p (groups_offsets_reset connection group reset_to topics ms parsed) h =
    fails
      (missing_required (
        ("connectionId", is_present connection)
        ∷ ("group", is_present group)
        ∷ ("resetTo", is_present reset_to)
        ∷ []))
      (require "connectionId" (trim_space (value connection)))
      (require "group" (trim_space (value group))) (ensure_writable p) _ (read_only_fails p h)
check_fails p (topics_records_clear connection topic) h =
    fails
      (missing_required
        (("connectionId", is_present connection) ∷ ("topic", is_present topic) ∷ []))
      (require "connectionId" (trim_space (value connection)))
      (require "topic" (trim_space (value topic))) (ensure_delete_allowed p)
      (λ _. ok (
        clear_records (record {
          connection_id = trim_space (value connection);
          topic = trim_space (value topic);
        })))
      (no_delete_fails p h)

-- A call that the connection's policy forbids is refused, and leaves the tokens as they are: it
-- neither previews nor executes anything, whatever token it shows.
pub forbidden_refused :
    (hash : WriteRequest → String) (c : WriteCall) (s : ConfirmStore)
    → Forbids c.profile c.args
    → (e : WriteError) × (write hash c s ≡ (s, refused e))
unfolding write IsErr
forbidden_refused hash c s h =
    let (e, p) = check_fails c.profile c.args h in (e, rw (p, write) refl)
