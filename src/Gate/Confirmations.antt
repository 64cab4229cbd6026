-- ===== src/Gate/Confirmations.antt =====
-- What a history of calls of the write tools has executed.
use mathlib.Core.List.{Memᴰ}
use dbx_plugin_kafka.Base.{
  ℕ, ◌+◌, ◌*◌, ◌≤◌, ◌<◌, ◌≡◌, refl, sym, ap, subst, ◌∙◌, ◌⊎◌, inl, inr, String, false, List, [],
  ◌∷◌, if◌then◌else◌, ◌==◌, string_eq, arith, Bool-cases,
}
use dbx_plugin_kafka.Base.Int.{ℤ, pos_part}
use dbx_plugin_kafka.Base.Result.{ok, err, Result-cases}
use dbx_plugin_kafka.Base.Strings.{trim_space}
use dbx_plugin_kafka.Confirm
use dbx_plugin_kafka.Confirm.{ConfirmStore, ConfirmResult, new_confirm_store}
use dbx_plugin_kafka.Confirm.History
use dbx_plugin_kafka.Confirm.History.{
  Call, issues, consumes, sets_ttl, TtlsBelow, consume_ok_was_issued, granted-le-issued,
}
use dbx_plugin_kafka.Gate.{
  WriteRequest, WriteError, WriteCall, executed, refused, check, two_phase, write,
}

-- A step of the server's life: a write tool, or new settings for the tokens.
pub data Step : Type 0 where
  writes : WriteCall → Step
  configures : ℤ → Step

module _ (hash : WriteRequest → String) where
  unfoldable pub apply : Step → ConfirmStore → ConfirmStore
  apply (writes c) s = (write hash c s).0
  apply (configures ttl) s = Confirm.set_ttl ttl s

  unfoldable pub serve : List Step → ConfirmStore → ConfirmStore
  unfolding apply
  serve [] s = s
  serve (c ∷ cs) s = serve cs (apply c s)

  -- The call of the token store that a request makes.
  abbrev phase : WriteRequest → WriteCall → Call
  phase req c =
      if trim_space c.confirm_token == ""
      then issues c.drawn (hash req) c.now
      else consumes (trim_space c.confirm_token) (hash req) c.now

  -- The calls of the token store that a history makes.
  token_calls : List Step → List Call
  token_calls [] = []
  token_calls (configures ttl ∷ cs) = sets_ttl ttl ∷ token_calls cs
  token_calls (writes c ∷ cs) = elim (check c.profile c.args) [
    | err e ↦ token_calls cs
    | ok req ↦ phase req c ∷ token_calls cs
  ]

  two_phase-store :
      (req : WriteRequest) (c : WriteCall) (s : ConfirmStore)
      → (two_phase hash req c s).0 ≡ History.step (phase req c) s
  unfolding two_phase History.step
  two_phase-store req c s = elim (Bool-cases (trim_space c.confirm_token == "")) [
    | inl e ↦ rw (e, two_phase) refl
    | inr e ↦ rw (e, two_phase) refl
  ]

  write_refused :
      (c : WriteCall) (e : WriteError) (s : ConfirmStore)
      → check c.profile c.args ≡ err e
      → write hash c s ≡ (s, refused e)
  unfolding write
  write_refused c e s p = rw (p, write) refl

  write_passed :
      (c : WriteCall) (req : WriteRequest) (s : ConfirmStore)
      → check c.profile c.args ≡ ok req
      → write hash c s ≡ two_phase hash req c s
  unfolding write
  write_passed c req s p = rw (p, write) refl

  serve-run : (cs : List Step) (s : ConfirmStore) → serve cs s ≡ History.run (token_calls cs) s
  unfolding serve apply token_calls History.run History.step
  serve-run [] s = refl
  serve-run (configures ttl ∷ cs) s = serve-run cs (Confirm.set_ttl ttl s)
  serve-run (writes c ∷ cs) s = elim (Result-cases (check c.profile c.args)) [
    | inl (e, p) ↦
        rw (p, token_calls) (ap (λ r. serve cs r.0) (write_refused c e s p) ∙ serve-run cs s)
    | inr (req, p) ↦
        rw (p, token_calls)
          (ap (λ r. serve cs r.0) (write_passed c req s p)
            ∙ serve-run cs (two_phase hash req c s).0
            ∙ ap (History.run (token_calls cs)) (two_phase-store req c s))
  ]

  -- Every time to live that the history configures is at most the bound.
  abbrev pub ConfiguresBelow : ℕ → List Step → Type 0
  ConfiguresBelow bound [] = Unit
  ConfiguresBelow bound (configures ttl ∷ cs) = (pos_part ttl ≤ bound) × ConfiguresBelow bound cs
  ConfiguresBelow bound (writes c ∷ cs) = ConfiguresBelow bound cs

  TtlsBelow-phase :
      (bound : ℕ) (req : WriteRequest) (c : WriteCall) (cs : List Call)
      → TtlsBelow bound cs
      → TtlsBelow bound (phase req c ∷ cs)
  TtlsBelow-phase bound req c cs h = elim (Bool-cases (trim_space c.confirm_token == "")) [
    | inl e ↦ rw e h
    | inr e ↦ rw e h
  ]

  TtlsBelow-token_calls :
      (bound : ℕ) (cs : List Step) → ConfiguresBelow bound cs → TtlsBelow bound (token_calls cs)
  unfolding token_calls
  TtlsBelow-token_calls bound [] h = tt
  TtlsBelow-token_calls bound (configures ttl ∷ cs) h = (h.0, TtlsBelow-token_calls bound cs h.1)
  TtlsBelow-token_calls bound (writes c ∷ cs) h =
      let rest = TtlsBelow-token_calls bound cs h in
      elim (Result-cases (check c.profile c.args)) [
        | inl (e, p) ↦ rw (p, token_calls) rest
        | inr (req, p) ↦ rw (p, token_calls) (TtlsBelow-phase bound req c (token_calls cs) rest)
      ]

  -- The call previewed the request, or one of the same hash, and drew the token for it at that time.
  pub record Previewed (token h : String) (n : ℕ) (c : WriteCall) : Type 0 where
    pub req : WriteRequest
    pub allowed : check c.profile c.args ≡ ok req
    pub same_hash : hash req ≡ h
    pub no_token : trim_space c.confirm_token ≡ ""
    pub drawn : c.drawn ≡ token
    pub at_time : c.now ≡ n

  -- The history has a preview of a request of that hash.
  abbrev pub WasPreviewed : String → String → ℕ → List Step → Type 0
  WasPreviewed token h n [] = ⊥
  WasPreviewed token h n (configures ttl ∷ cs) = WasPreviewed token h n cs
  WasPreviewed token h n (writes c ∷ cs) = Previewed token h n c ⊎ WasPreviewed token h n cs

  phase_issues :
      (token h : String) (n : ℕ) (req : WriteRequest) (c : WriteCall)
      → check c.profile c.args ≡ ok req
      → issues token h n ≡ phase req c
      → Previewed token h n c
  phase_issues token h n req c p e = elim (Bool-cases (trim_space c.confirm_token == "")) [
    | inl none_shown ↦ record {
      req = req;
      allowed = p;
      same_hash = ground arith;
      no_token = (string_eq.same_iff (trim_space c.confirm_token) "").0 none_shown;
      drawn = ground arith;
      at_time = ground arith;
    }
    | inr shown ↦ absurd (ground arith)
  ]

  issues-WasPreviewed :
      (token h : String) (n : ℕ) (cs : List Step)
      → Memᴰ (issues token h n) (token_calls cs)
      → WasPreviewed token h n cs
  unfolding token_calls
  issues-WasPreviewed token h n [] m = elim m [ ]
  issues-WasPreviewed token h n (configures ttl ∷ cs) (Memᴰ.head p) = absurd (ground arith)
  issues-WasPreviewed token h n (configures ttl ∷ cs) (Memᴰ.tail m) =
      issues-WasPreviewed token h n cs m
  issues-WasPreviewed token h n (writes c ∷ cs) m = elim (Result-cases (check c.profile c.args)) [
    | inl (e, p) ↦ inr (issues-WasPreviewed token h n cs (rw (p, token_calls) at m))
    | inr (req, p) ↦ elim (rw (p, token_calls) at m) [
      | Memᴰ.head q ↦ inl (phase_issues token h n req c p q)
      | Memᴰ.tail k ↦ inr (issues-WasPreviewed token h n cs k)
    ]
  ]

  two_phase-executed :
      (req r : WriteRequest) (c : WriteCall) (s : ConfirmStore)
      → (two_phase hash r c s).1 ≡ executed req
      → (r ≡ req)
        × ((trim_space c.confirm_token == "") ≡ false)
        × ((Confirm.consume (trim_space c.confirm_token) (hash r) c.now s).1 ≡ ConfirmResult.ok)
  unfolding two_phase
  two_phase-executed req r c s h = elim (Bool-cases (trim_space c.confirm_token == "")) [
    | inl none_shown ↦ absurd (ground (arith, h))
    | inr shown ↦ ground (arith, h)
  ]

  write-executed :
      (req : WriteRequest) (c : WriteCall) (s : ConfirmStore)
      → (write hash c s).1 ≡ executed req
      → (check c.profile c.args ≡ ok req)
        × ((trim_space c.confirm_token == "") ≡ false)
        × ((Confirm.consume (trim_space c.confirm_token) (hash req) c.now s).1 ≡ ConfirmResult.ok)
  write-executed req c s h = elim (Result-cases (check c.profile c.args)) [
    | inl (e, p) ↦ absurd (ground (arith, ap (λ r. r.1) (write_refused c e s p)))
    | inr (r, p) ↦
        let (same, shown, accepted) =
          two_phase-executed req r c s (sym (ap (λ r. r.1) (write_passed c r s p)) ∙ h) in
        (
          p ∙ ap ok same,
          shown,
          subst
              (λ k.
                (Confirm.consume (trim_space c.confirm_token) (hash k) c.now s).1
                ≡ ConfirmResult.ok)
              same accepted,
        )
  ]

  -- In every history of the server from its start, a write is executed only if the connection's policy
  -- allows it at that moment and an earlier call of the history, allowed as well, previewed a request of
  -- the same hash under that very token, less than the bound on the tokens' life before.
  pub executed-WasPreviewed :
      (bound : ℕ) (cs : List Step) (c : WriteCall) (req : WriteRequest)
      → 60 * 1000000000 ≤ bound
      → ConfiguresBelow bound cs
      → (write hash c (serve cs new_confirm_store)).1 ≡ executed req
      → (check c.profile c.args ≡ ok req)
        × ((n : ℕ) × WasPreviewed (trim_space c.confirm_token) (hash req) n cs
            × (c.now < n + bound))
  executed-WasPreviewed bound cs c req fits below h =
      let (p, shown, accepted) = write-executed req c (serve cs new_confirm_store) h in
      let token = trim_space c.confirm_token in
      let (n, m, b) =
        consume_ok_was_issued bound (token_calls cs) token (hash req) c.now fits
          (TtlsBelow-token_calls bound cs below)
          (subst (λ s. (Confirm.consume token (hash req) c.now s).1 ≡ ConfirmResult.ok)
            (serve-run cs new_confirm_store) accepted) in
      (p, (n, issues-WasPreviewed token (hash req) n cs m, b))
