-- ===== src/Stream/Registry/Closing.antt =====
-- Sessions that leave the table.
use dbx_plugin_kafka.Base.{
  ℕ, ◌+◌, ◌≡◌, refl, ap, inl, inr, String, Bool, true, Option, none, some, List, [], ◌∷◌, map,
  if◌then◌else◌, ltb, contains, ◌==◌, string_eq, arith, Bool-cases, Option-cases,
}
use dbx_plugin_kafka.Base.Dict.{Dict, lookup, lookup-delete}
use dbx_plugin_kafka.Stream.Registry.{
  StreamSession, StreamRegistry, stop, ids, stop_if, is_idle, evict_idle,
}

module _ {A : Type 0} where
  -- What a session that passes the test leaves behind.
  abbrev pub after : (StreamSession A → Bool) → Option (StreamSession A) → Option (StreamSession A)
  after test none = none
  after test (some session) = if test session then none else some session

  pub lookup-stop :
      (id other : String) (r : StreamRegistry A)
      → lookup other (stop id r).sessions ≡ (if id == other then none else lookup other r.sessions)
  unfolding stop
  lookup-stop id other r = elim (Option-cases (lookup id r.sessions)) [
    | inl missing ↦ rw (missing, stop) (ground (arith, string_eq.same_iff id other, missing))
    | inr (session, there) ↦ rw (there, stop) (lookup-delete other id r.sessions)
  ]

  lookup-stop_if :
      (test : StreamSession A → Bool) (is : List String) (id : String) (r : StreamRegistry A)
      → lookup id (stop_if test is r).sessions
        ≡ (if contains id is then after test (lookup id r.sessions) else lookup id r.sessions)
  unfolding stop_if contains
  lookup-stop_if test [] id r = refl
  lookup-stop_if test (i ∷ is) id r = elim (Option-cases (lookup i r.sessions)) [
    | inl missing ↦
        rw (missing, stop_if)
          (ground (
            arith,
            lookup-stop_if test is id r,
            missing,
            string_eq.same_iff i id,
            λ (e : i ≡ id). ap (λ k. lookup k r.sessions) e,
          ))
    | inr (session, there) ↦ elim (Bool-cases (test session)) [
      | inl passes ↦
          rw (there, passes, stop_if)
            (ground (
              arith,
              lookup-stop_if test is id (stop i r),
              lookup-stop i id r,
              there,
              passes,
              string_eq.same_iff i id,
              λ (e : i ≡ id). ap (λ k. lookup k r.sessions) e,
            ))
      | inr fails ↦
          rw (there, fails, stop_if)
            (ground (
              arith,
              lookup-stop_if test is id r,
              there,
              fails,
              string_eq.same_iff i id,
              λ (e : i ≡ id). ap (λ k. lookup k r.sessions) e,
            ))
    ]
  ]

  lookup-ids :
      (id : String) (m : Dict String (StreamSession A)) (session : StreamSession A)
      → lookup id m ≡ some session
      → contains id (map (λ e. e.0) m) ≡ true
  unfolding lookup contains
  lookup-ids id [] session h = absurd (ground arith)
  lookup-ids id ((k, v) ∷ m) session h = ground (arith, lookup-ids id m session)

  -- The loop over the whole table.
  pub lookup-stop_all_if :
      (test : StreamSession A → Bool) (id : String) (r : StreamRegistry A)
      → lookup id (stop_if test (ids r) r).sessions ≡ after test (lookup id r.sessions)
  lookup-stop_all_if test id r = elim (Option-cases (lookup id r.sessions)) [
    | inl missing ↦ ground (arith, lookup-stop_if test (ids r) id r, missing)
    | inr (session, there) ↦
        ground (arith, lookup-stop_if test (ids r) id r, lookup-ids id r.sessions session there)
  ]

  -- The reclaiming of idle sessions takes out of the table the sessions without a flush for more than
  -- 30 minutes, and no other; the sessions that stay are as they were.
  pub lookup-evict_idle :
      (now : ℕ) (id : String) (r : StreamRegistry A)
      → lookup id (evict_idle now r).sessions ≡ elim (lookup id r.sessions) [
        | none ↦ none
        | some session ↦ if ltb (session.last_activity + 1800000) now then none else some session
      ]
  unfolding evict_idle
  lookup-evict_idle now id r = elim (Option-cases (lookup id r.sessions)) [
    | inl missing ↦ ground (arith, lookup-stop_all_if (is_idle now) id r, missing)
    | inr (session, there) ↦ ground (arith, lookup-stop_all_if (is_idle now) id r, there)
  ]
