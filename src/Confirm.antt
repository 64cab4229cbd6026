-- ===== src/Confirm.antt =====
-- backend/internal/mcp/confirm.go: the one-time tokens of two-phase writes. A method returns the new
-- store beside its result. Times are nanoseconds as plain numbers, a token is the text that
-- `randomHex` drew, and the mutex is not modelled: every method runs under it from start to end.

pub mod Laws
mod Tests
pub mod History
use dbx_plugin_kafka.Base.{
  ℕ, ◌+◌, ◌*◌, String, Bool, Option, none, some, List, [], ◌∷◌, if◌then◌else◌, ltb, leb, not, ◌==◌,
  string_eq,
}
use dbx_plugin_kafka.Base.Int.{ℤ, pos_part, is_positive}
use dbx_plugin_kafka.Base.Dict.{Dict, lookup, insert, delete, retain}

abbrev pub second : ℕ
second = 1000000000

-- `ConfirmTTL`
abbrev pub confirm_ttl : ℕ
confirm_ttl = 60 * second

pub data ConfirmResult : Type 0 where
  ok unknown expired hash_mismatch : ConfirmResult

pub record ConfirmEntry : Type 0 where
  pub param_hash : String
  pub expires_at : ℕ

pub record ConfirmStore : Type 0 where
  pub ttl : ℕ
  pub items : Dict String ConfirmEntry

unfoldable pub new_confirm_store : ConfirmStore
new_confirm_store = record { ttl = confirm_ttl; items = [] }

-- A `ttl` that is not positive is ignored.
unfoldable pub set_ttl : ℤ → ConfirmStore → ConfirmStore
set_ttl ttl s = if is_positive ttl then record s { ttl = pos_part ttl } else s

-- `now.Before(entry.ExpiresAt)`
abbrev pub is_live : ℕ → ConfirmEntry → Bool
is_live now e = ltb now e.expires_at

unfoldable pub prune_locked : ℕ → ConfirmStore → ConfirmStore
prune_locked now s = record s { items = retain (is_live now) s.items }

unfoldable pub issue : String → String → ℕ → ConfirmStore → ConfirmStore × ℕ
unfolding prune_locked
issue token param_hash now s =
    let pruned = prune_locked now s in
    let expires_at = now + pruned.ttl in
    let entry : ConfirmEntry = record { param_hash = param_hash; expires_at = expires_at } in
    (record pruned { items = insert token entry pruned.items }, expires_at)

-- The verdict on an entry that was found; the entry is deleted whatever the verdict.
unfoldable pub check_entry : ConfirmEntry → String → ℕ → ConfirmResult
check_entry e param_hash now =
    if not (is_live now e)
    then expired
    else if not (e.param_hash == param_hash)
    then hash_mismatch
    else ok

unfoldable pub consume : String → String → ℕ → ConfirmStore → ConfirmStore × ConfirmResult
unfolding check_entry
consume token param_hash now s = elim (lookup token s.items) [
  | none ↦ (s, unknown)
  | some e ↦ (record s { items = delete token s.items }, check_entry e param_hash now)
]
