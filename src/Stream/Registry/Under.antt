-- ===== src/Stream/Registry/Under.antt =====
-- The steps of the registry of backend/internal/kafkaconn/stream.go, by the ids of its table.
use dbx_plugin_kafka.Base.{
  ℕ, ◌≡◌, refl, sym, ap, ◌∙◌, inl, inr, String, Bool, Option, none, some, List, [], ◌∷◌,
  if◌then◌else◌, ◌==◌, string_eq, nat_eq, arith, Bool-cases, Option-cases,
}
use dbx_plugin_kafka.Base.Dict.{lookup, lookup-insert}
use dbx_plugin_kafka.Stream.Registry.{
  StreamSession, StreamRegistry, stop, stop_all, stop_if, set_paused, ids, shutdown_session,
}
use dbx_plugin_kafka.Stream.Registry.Closing.{lookup-stop, lookup-stop_all_if, after}
use dbx_plugin_kafka.Stream.Registry.Limit.{shutdown_session-sessions}

module _ {A : Type 0} where
  -- Each session of the first table stands for one of the second under the same id.
  unfoldable pub Under : StreamRegistry A → StreamRegistry A → Type 0
  Under r s =
      (id : String) (new : StreamSession A)
      → lookup id r.sessions ≡ some new
      → (old : StreamSession A) × (lookup id s.sessions ≡ some old)

  pub stop-Under : (id : String) (r : StreamRegistry A) → Under (stop id r) r
  unfolding Under
  stop-Under id r other new h = elim (Bool-cases (id == other)) [
    | inl same ↦ absurd (ground (arith, lookup-stop id other r, same, h))
    | inr away ↦ (
      new,
      sym (lookup-stop id other r ∙ ap (λ b. if b then none else lookup other r.sessions) away) ∙ h,
    )
  ]

  after-some :
      (test : StreamSession A → Bool) (o : Option (StreamSession A)) (new : StreamSession A)
      → after test o ≡ some new
      → (old : StreamSession A) × (o ≡ some old)
  after-some test none new h = absurd (ground arith)
  after-some test (some old) new h = (old, refl)

  pub stop_if-Under :
      (test : StreamSession A → Bool) (r : StreamRegistry A) → Under (stop_if test (ids r) r) r
  unfolding Under
  stop_if-Under test r id new h =
      after-some test (lookup id r.sessions) new (sym (lookup-stop_all_if test id r) ∙ h)

  pub set_paused-Under :
      (id : String) (paused : Bool) (r : StreamRegistry A) → Under (set_paused id paused r).0 r
  unfolding Under set_paused
  set_paused-Under id paused r other new h = elim (Option-cases (lookup id r.sessions)) [
    | inl missing ↦ (new, rw (missing, set_paused) at h)
    | inr (session, there) ↦ elim (Bool-cases (id == other)) [
      | inl same ↦ (
        session,
        ap (λ k. lookup k r.sessions) (sym ((string_eq.same_iff id other).0 same)) ∙ there,
      )
      | inr away ↦ (
        new,
        sym (
              lookup-insert other id (record session { paused = paused }) r.sessions
              ∙ ap
                  (λ b.
                    if b
                    then some (record session { paused = paused })
                    else lookup other r.sessions)
                  away)
            ∙ (rw (there, set_paused) at h),
      )
    ]
  ]

  pub stop_if-next :
      (test : StreamSession A → Bool) (is : List String) (r : StreamRegistry A)
      → (stop_if test is r).next ≡ r.next
  unfolding stop_if stop
  stop_if-next test [] r = refl
  stop_if-next test (i ∷ is) r = elim (Option-cases (lookup i r.sessions)) [
    | inl missing ↦ rw (missing, stop_if) (stop_if-next test is r)
    | inr (session, there) ↦ elim (Bool-cases (test session)) [
      | inl passes ↦
          rw (there, passes, stop_if) (stop_if-next test is (stop i r) ∙ rw (there, stop) refl)
      | inr fails ↦ rw (there, fails, stop_if) (stop_if-next test is r)
    ]
  ]

  pub stop-next : (id : String) (r : StreamRegistry A) → (stop id r).next ≡ r.next
  unfolding stop
  stop-next id r = elim (Option-cases (lookup id r.sessions)) [
    | inl missing ↦ rw (missing, stop) refl
    | inr (session, there) ↦ rw (there, stop) refl
  ]

  pub set_paused-next :
      (id : String) (paused : Bool) (r : StreamRegistry A)
      → (set_paused id paused r).0.next ≡ r.next
  unfolding set_paused
  set_paused-next id paused r = elim (Option-cases (lookup id r.sessions)) [
    | inl missing ↦ rw (missing, set_paused) refl
    | inr (session, there) ↦ rw (there, set_paused) refl
  ]

  pub stop_all-Under : (r : StreamRegistry A) → Under (stop_all r) r
  unfolding stop_all Under lookup
  stop_all-Under r id new h = absurd (ground (arith, h))

  pub stop_all-next : (r : StreamRegistry A) → (stop_all r).next ≡ r.next
  unfolding stop_all
  stop_all-next r = refl

  pub shutdown_session-Under :
      (client : ℕ) (r : StreamRegistry A) → Under (shutdown_session client r) r
  unfolding Under
  shutdown_session-Under client r id new h =
      (new, sym (ap (lookup id) (shutdown_session-sessions client r)) ∙ h)

  pub shutdown_session-next :
      (client : ℕ) (r : StreamRegistry A) → (shutdown_session client r).next ≡ r.next
  unfolding shutdown_session
  shutdown_session-next client r = ground arith
