-- ===== src/Confirm/Laws.antt =====
-- What one call of a method of the token store promises.
use dbx_plugin_kafka.Base.{
  ℕ, ap, ◌∙◌, ◌+◌, ◌<◌, String, ◌≡◌, none, some, arith, if◌then◌else◌, leb, ◌==◌, string_eq,
  beq_refl, Option-cases, inl, inr,
}
use dbx_plugin_kafka.Base.Dict.{filter_opt, lookup, lookup-insert, lookup-delete, lookup-retain}
use dbx_plugin_kafka.Confirm.{
  ConfirmStore, ConfirmEntry, ok, unknown, expired, hash_mismatch, is_live, issue, consume,
  check_entry,
}

-- What `consume` answers for a stored token, as a decision on its entry.
pub consume_found :
    (token h : String) (now : ℕ) (s : ConfirmStore) (e : ConfirmEntry)
    → lookup token s.items ≡ some e
    → (consume token h now s).1 ≡ check_entry e h now
unfolding consume
consume_found token h now s e found = rw (found, consume)

pub consume_missing :
    (token h : String) (now : ℕ) (s : ConfirmStore)
    → lookup token s.items ≡ none
    → consume token h now s ≡ (s, unknown)
unfolding consume
consume_missing token h now s missing = rw (missing, consume)

-- The table after `consume`: the token is gone, and every other entry stays.
pub lookup-consume :
    (token h other : String) (now : ℕ) (s : ConfirmStore)
    → lookup other (consume token h now s).0.items
      ≡ (if token == other then none else lookup other s.items)
unfolding consume
lookup-consume token h other now s = elim (Option-cases (lookup token s.items)) [
  | inl e ↦ rw (e, consume) (ground (arith, string_eq.same_iff token other))
  | inr (a, e) ↦ rw (e, consume) (lookup-delete other token s.items)
]

-- The table after `issue`: the new token, and of the rest what has not expired.
pub lookup-issue :
    (token h other : String) (now : ℕ) (s : ConfirmStore)
    → lookup other (issue token h now s).0.items ≡ (
        if token == other
        then some (record { param_hash = h; expires_at = now + s.ttl })
        else filter_opt (is_live now) (lookup other s.items))
unfolding issue
lookup-issue token h other now s = rw (lookup-insert, lookup-retain)

-- A token that `issue` gave out is accepted just when it is shown before its time runs out with the
-- hash that it was issued for; expiry is reported before a wrong hash.
pub consume-issue :
    (token h shown : String) (now later : ℕ) (s : ConfirmStore)
    → (consume token shown later (issue token h now s).0).1
      ≡ (if leb (now + s.ttl) later then expired else if h == shown then ok else hash_mismatch)
unfolding check_entry
consume-issue token h shown now later s =
    consume_found token shown later (issue token h now s).0
      (record { param_hash = h; expires_at = now + s.ttl }) issued
    ∙ ground (arith, string_eq.same_iff h shown)
  where
    issued :
        lookup token (issue token h now s).0.items
        ≡ some (record { param_hash = h; expires_at = now + s.ttl })
    issued = rw (lookup-issue, beq_refl token)

-- Whatever the first call answered, a second `consume` of the same token is told `unknown`.
pub consume_twice :
    (token h h' : String) (now later : ℕ) (s : ConfirmStore)
    → (consume token h' later (consume token h now s).0).1 ≡ unknown
consume_twice token h h' now later s =
    ap (λ r. r.1)
      (consume_missing token h' later (consume token h now s).0
        (rw (lookup-consume, beq_refl token)))

-- After `issue` no stored token has expired, provided that the time to live is positive.
pub issue_prunes :
    (token h other : String) (now : ℕ) (s : ConfirmStore) (e : ConfirmEntry)
    → 0 < s.ttl
    → lookup other (issue token h now s).0.items ≡ some e
    → now < e.expires_at
issue_prunes token h other now s e positive found = ground (arith, lookup-issue token h other now s)
