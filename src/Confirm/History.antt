-- ===== src/Confirm/History.antt =====
-- What holds of the token store over any sequence of calls.
use mathlib.Core.List.{Memᴰ}
use dbx_plugin_kafka.Base.{
  ℕ, ap, ◌+◌, ◌≤◌, ◌<◌, ◌⊎◌, String, ◌≡◌, subst, ◌*◌, Bool, true, false, none, some, List, [], ◌∷◌,
  arith, if◌then◌else◌, ◌==◌, string_eq, Bool-cases, Option-cases, inl, inr,
}
use dbx_plugin_kafka.Base.Int.{ℤ, pos_part}
use dbx_plugin_kafka.Base.Dict.{lookup}
use dbx_plugin_kafka.Confirm.{
  ConfirmStore, ConfirmEntry, ConfirmResult, ok, new_confirm_store, set_ttl, is_live, issue,
  consume, check_entry,
}
use dbx_plugin_kafka.Confirm.Laws.{lookup-consume, lookup-issue, consume_found, consume_missing}

-- A call of a method, with what the caller and the clock put in.
pub data Call : Type 0 where
  issues : String → String → ℕ → Call
  consumes : String → String → ℕ → Call
  sets_ttl : ℤ → Call

unfoldable pub step : Call → ConfirmStore → ConfirmStore
step (issues token h now) s = (issue token h now s).0
step (consumes token h now) s = (consume token h now s).0
step (sets_ttl ttl) s = set_ttl ttl s

unfoldable pub run : List Call → ConfirmStore → ConfirmStore
run [] s = s
run (c ∷ cs) s = run cs (step c s)

abbrev pub is_ok : ConfirmResult → Bool
is_ok ok = true
is_ok _ = false

-- 1 if the call is a `consume` of the token that is answered by `ok`.
unfoldable pub grants : String → Call → ConfirmStore → ℕ
grants t (consumes token h now) s =
    if token == t then if is_ok (consume token h now s).1 then 1 else 0 else 0
grants t _ s = 0

-- How often a history of calls lets a write through on the token.
unfoldable pub granted : String → List Call → ConfirmStore → ℕ
unfolding grants
granted t [] s = 0
granted t (c ∷ cs) s = grants t c s + granted t cs (step c s)

-- How often a history issues the token.
unfoldable pub issued : String → List Call → ℕ
issued t [] = 0
issued t (issues token h now ∷ cs) = (if token == t then 1 else 0) + issued t cs
issued t (_ ∷ cs) = issued t cs

abbrev pub stored : String → ConfirmStore → ℕ
stored t s = elim (lookup t s.items) [ none ↦ 0 | some _ ↦ 1 ]

lookup-set_ttl : (t : String) (ttl : ℤ) (s : ConfirmStore) → (set_ttl ttl s).items ≡ s.items
unfolding set_ttl
lookup-set_ttl t ttl s = ground arith

step-granted :
    (t : String) (c : Call) (cs : List Call) (s : ConfirmStore)
    → grants t c s + issued t cs + stored t (step c s) ≤ issued t (c ∷ cs) + stored t s
unfolding grants issued step
step-granted t (issues token h now) cs s = ground (arith, lookup-issue token h t now s)
step-granted t (consumes token h now) cs s = elim (Option-cases (lookup token s.items)) [
  | inl e ↦ ground (arith, lookup-consume token h t now s, consume_missing token h now s e)
  | inr (a, e) ↦ ground (arith, lookup-consume token h t now s, string_eq.same_iff token t)
]
step-granted t (sets_ttl ttl) cs s = ground (arith, lookup-set_ttl t ttl s)

granted-le-from :
    (t : String) (cs : List Call) (s : ConfirmStore) → granted t cs s ≤ issued t cs + stored t s
unfolding granted
granted-le-from t [] s = omega arith
granted-le-from t (c ∷ cs) s = omega (arith, step-granted t c cs s, granted-le-from t cs (step c s))

-- From an empty store, no sequence of calls lets more writes through on a token than times it was
-- issued: one issue is good for one write at most, whatever calls come between.
pub granted-le-issued : (t : String) (cs : List Call) → granted t cs new_confirm_store ≤ issued t cs
unfolding new_confirm_store lookup
granted-le-issued t cs = omega (arith, granted-le-from t cs new_confirm_store)

-- Every time to live that the calls set is at most the bound.
abbrev pub TtlsBelow : ℕ → List Call → Type 0
TtlsBelow bound [] = Unit
TtlsBelow bound (sets_ttl ttl ∷ cs) = (pos_part ttl ≤ bound) × TtlsBelow bound cs
TtlsBelow bound (_ ∷ cs) = TtlsBelow bound cs

-- The call that put an entry there.
abbrev pub Origin : ℕ → String → ConfirmEntry → List Call → Type 0
Origin bound t e cs = (n : ℕ) × Memᴰ (issues t e.param_hash n) cs × (e.expires_at ≤ n + bound)

issue-Origin :
    (bound : ℕ) (t : String) (e : ConfirmEntry) (token h : String) (now : ℕ) (s : ConfirmStore)
    → s.ttl ≤ bound
    → lookup t (issue token h now s).0.items ≡ some e
    → (lookup t s.items ≡ some e) ⊎ Origin bound t e (issues token h now ∷ [])
issue-Origin bound t e token h now s fits found = elim (Bool-cases (token == t)) [
  | inl same ↦ inr (
    now,
    Memᴰ.head (ground (arith, string_eq.same_iff token t, lookup-issue token h t now s)),
    ground (arith, lookup-issue token h t now s),
  )
  | inr differ ↦ inl (ground (arith, lookup-issue token h t now s, is_live now e))
]

step-Origin :
    (bound : ℕ) (t : String) (e : ConfirmEntry) (c : Call) (s : ConfirmStore)
    → s.ttl ≤ bound
    → lookup t (step c s).items ≡ some e
    → (lookup t s.items ≡ some e) ⊎ Origin bound t e (c ∷ [])
unfolding step
step-Origin bound t e (issues token h now) s fits found =
    issue-Origin bound t e token h now s fits found
step-Origin bound t e (consumes token h now) s fits found =
    inl (ground (arith, lookup-consume token h t now s))
step-Origin bound t e (sets_ttl ttl) s fits found = inl (rw (lookup-set_ttl t ttl s) at found)

step-ttl :
    (bound : ℕ) (c : Call) (cs : List Call) (s : ConfirmStore)
    → s.ttl ≤ bound
    → TtlsBelow bound (c ∷ cs)
    → ((step c s).ttl ≤ bound) × TtlsBelow bound cs
unfolding step set_ttl issue consume
step-ttl bound (issues token h now) cs s fits below = (fits, below)
step-ttl bound (consumes token h now) cs s fits below = (ground arith, below)
step-ttl bound (sets_ttl ttl) cs s fits below = (ground arith, below.1)

Origin-cons :
    (bound : ℕ) (t : String) (e : ConfirmEntry) (c : Call) (cs : List Call)
    → Origin bound t e cs
    → Origin bound t e (c ∷ cs)
Origin-cons bound t e c cs (n, m, b) = (n, Memᴰ.tail m, b)

Origin-head :
    (bound : ℕ) (t : String) (e : ConfirmEntry) (c : Call) (cs : List Call)
    → Origin bound t e (c ∷ [])
    → Origin bound t e (c ∷ cs)
Origin-head bound t e c cs (n, Memᴰ.head p, b) = (n, Memᴰ.head p, b)
Origin-head bound t e c cs (n, Memᴰ.tail m, b) = elim m [ ]

origin :
    (bound : ℕ) (t : String) (e : ConfirmEntry) (cs : List Call) (s : ConfirmStore)
    → s.ttl ≤ bound
    → TtlsBelow bound cs
    → lookup t (run cs s).items ≡ some e
    → (lookup t s.items ≡ some e) ⊎ Origin bound t e cs
unfolding run
origin bound t e [] s fits below found = inl found
origin bound t e (c ∷ cs) s fits below found =
    let (fits', below') = step-ttl bound c cs s fits below in
    elim (origin bound t e cs (step c s) fits' below' found) [
      | inr o ↦ inr (Origin-cons bound t e c cs o)
      | inl kept ↦ elim (step-Origin bound t e c s fits kept) [
        | inl old ↦ inl old
        | inr o ↦ inr (Origin-head bound t e c cs o)
      ]
    ]

consume_ok_entry :
    (token h : String) (now : ℕ) (s : ConfirmStore)
    → (consume token h now s).1 ≡ ok
    → (e : ConfirmEntry) × (lookup token s.items ≡ some e)
      × (e.param_hash ≡ h)
      × (now < e.expires_at)
unfolding consume check_entry
consume_ok_entry token h now s accepted = elim (Option-cases (lookup token s.items)) [
  | inl e ↦ absurd (ground (arith, ap (λ r. r.1) (consume_missing token h now s e)))
  | inr (e, found) ↦ (
    e,
    found,
    ground (arith, string_eq.same_iff e.param_hash h, consume_found token h now s e found),
    ground (arith, consume_found token h now s e found),
  )
]

from_Origin :
    (bound : ℕ) (cs : List Call) (token h : String) (now : ℕ) (e : ConfirmEntry)
    → e.param_hash ≡ h
    → now < e.expires_at
    → (lookup token new_confirm_store.items ≡ some e) ⊎ Origin bound token e cs
    → (n : ℕ) × Memᴰ (issues token h n) cs × (now < n + bound)
unfolding new_confirm_store lookup
from_Origin bound cs token h now e same live (inl none_stored) = cc
from_Origin bound cs token h now e same live (inr (n, m, b)) =
    (n, subst (λ x. Memᴰ (issues token x n) cs) same m, omega arith)

-- A token is accepted only if an earlier call of the history issued it for the very hash that is
-- shown, less than the longest time to live ago, where no call set one above the bound.
pub consume_ok_was_issued :
    (bound : ℕ) (cs : List Call) (token h : String) (now : ℕ)
    → 60 * 1000000000 ≤ bound
    → TtlsBelow bound cs
    → (consume token h now (run cs new_confirm_store)).1 ≡ ok
    → (n : ℕ) × Memᴰ (issues token h n) cs × (now < n + bound)
consume_ok_was_issued bound cs token h now fits below accepted =
    let (e, found, same, live) = consume_ok_entry token h now (run cs new_confirm_store) accepted in
    from_Origin bound cs token h now e same live
      (origin bound token e cs new_confirm_store (unfold new_confirm_store in fits) below found)
