-- ===== src/Stream/Registry/Limit.antt =====
-- The table of the sessions over any interleaving of starts, stops and reclaiming.
use dbx_plugin_kafka.Base.{
  ℕ, suc, ◌+◌, ◌-◌, ◌≤◌, ◌<◌, ◌≡◌, refl, ap, subst, ◌∙◌, inl, inr, String, Bool, true, false,
  Option, none, some, List, [], ◌∷◌, if◌then◌else◌, leb, length, ◌==◌, string_eq, arith, Bool-cases,
  Option-cases,
}
use dbx_plugin_kafka.Base.Dict.{Dict, lookup, insert, length-insert-le, length-delete-le}
use dbx_plugin_kafka.Stream.Registry.{
  StreamSession, StreamRegistry, new_stream_registry, reserve, enter, stop, ids, stop_all, stop_if,
  stop_all_for_connection, is_idle, evict_idle, set_paused, shutdown_session,
}

-- A turn of the registry's lock, or a shutdown behind it; a start that cannot build its client ends without
-- entering.
pub data Step (A : Type 0) : Type 0 where
  reserves : Step A
  enters : String → StreamSession A → Step A
  abandons : Step A
  stops : String → Step A
  stops_all : Step A
  stops_for : String → Step A
  evicts : ℕ → Step A
  pauses : String → Bool → Step A
  shuts : ℕ → Step A

module _ {A : Type 0} where
  unfoldable pub step : Step A → StreamRegistry A → StreamRegistry A
  step reserves r = (reserve r).0
  step (enters id session) r = enter id session r
  step abandons r = r
  step (stops id) r = stop id r
  step stops_all r = stop_all r
  step (stops_for connection_id) r = stop_all_for_connection connection_id r
  step (evicts now) r = evict_idle now r
  step (pauses id paused) r = (set_paused id paused r).0
  step (shuts client) r = shutdown_session client r

  unfoldable pub run : List (Step A) → StreamRegistry A → StreamRegistry A
  run [] r = r
  run (c ∷ cs) r = run cs (step c r)

  -- The starts between their two parts, after the step.
  abbrev pub pending_after : Step A → StreamRegistry A → ℕ → ℕ
  pending_after reserves r pending = elim (reserve r).1 [ none ↦ pending | some n ↦ suc pending ]
  pending_after (enters id session) r pending = pending - 1
  pending_after abandons r pending = pending - 1
  pending_after _ r pending = pending

  -- A part of a start that needs one under way.
  abbrev pub needs : Step A → ℕ
  needs (enters id session) = 1
  needs abandons = 1
  needs _ = 0

  -- At most so many starts are under way at a time.
  abbrev pub Concurrent : ℕ → List (Step A) → StreamRegistry A → ℕ → Type 0
  Concurrent most [] r pending = pending ≤ most
  Concurrent most (c ∷ cs) r pending =
      (pending ≤ most)
      × (needs c ≤ pending)
      × Concurrent most cs (step c r) (pending_after c r pending)

  length-stop :
      (id : String) (r : StreamRegistry A) → length (stop id r).sessions ≤ length r.sessions
  unfolding stop
  length-stop id r = elim (Option-cases (lookup id r.sessions)) [
    | inl missing ↦ rw (missing, stop) (omega arith)
    | inr (session, there) ↦ rw (there, stop) (length-delete-le id r.sessions)
  ]

  length-stop_if :
      (test : StreamSession A → Bool) (is : List String) (r : StreamRegistry A)
      → length (stop_if test is r).sessions ≤ length r.sessions
  unfolding stop_if
  length-stop_if test [] r = omega arith
  length-stop_if test (i ∷ is) r = elim (Option-cases (lookup i r.sessions)) [
    | inl missing ↦ rw (missing, stop_if) (length-stop_if test is r)
    | inr (session, there) ↦ elim (Bool-cases (test session)) [
      | inl passes ↦
          rw (there, passes, stop_if)
            (omega (arith, length-stop_if test is (stop i r), length-stop i r))
      | inr fails ↦ rw (there, fails, stop_if) (length-stop_if test is r)
    ]
  ]

  pub reserve_full :
      (r : StreamRegistry A) → leb 20 (length r.sessions) ≡ true → reserve r ≡ (r, none)
  unfolding reserve
  reserve_full r h =
      ap (λ b. if b then (r, none) else (record r { next = suc r.next }, some (suc r.next))) h

  pub reserve_room :
      (r : StreamRegistry A)
      → leb 20 (length r.sessions) ≡ false
      → reserve r ≡ (record r { next = suc r.next }, some (suc r.next))
  unfolding reserve
  reserve_room r h =
      ap (λ b. if b then (r, none) else (record r { next = suc r.next }, some (suc r.next))) h

  -- The sessions and the starts under way, after the first part of a start.
  abbrev load : ℕ → StreamRegistry A × Option ℕ → ℕ
  load pending (r, none) = length r.sessions + pending
  load pending (r, some n) = length r.sessions + suc pending

  load_lem :
      (pending : ℕ) (x : StreamRegistry A × Option ℕ)
      → length x.0.sessions + elim x.1 [ none ↦ pending | some n ↦ suc pending ] ≡ load pending x
  load_lem pending (r, none) = refl
  load_lem pending (r, some n) = refl

  reserve-length :
      (most pending : ℕ) (r : StreamRegistry A)
      → pending_after reserves r pending ≤ most
      → length r.sessions + pending ≤ 19 + most
      → length (reserve r).0.sessions + pending_after reserves r pending ≤ 19 + most
  reserve-length most pending r fits h = elim (Bool-cases (leb 20 (length r.sessions))) [
    | inl full ↦
        let same = load_lem pending (reserve r) ∙ ap (load pending) (reserve_full r full) in
        omega (arith, same, h)
    | inr room ↦
        let same = load_lem pending (reserve r) ∙ ap (load pending) (reserve_room r room) in
        let more : suc pending ≤ most =
          subst (λ x. elim x.1 [ none ↦ pending | some n ↦ suc pending ] ≤ most)
            (reserve_room r room) fits in
        let few : length r.sessions < 20 = ground arith in omega (arith, same, more, few)
  ]

  length-insert_there :
      (id : String) (old new : StreamSession A) (m : Dict String (StreamSession A))
      → lookup id m ≡ some old
      → length (insert id new m) ≡ length m
  unfolding lookup insert
  length-insert_there id old new [] h = absurd (ground arith)
  length-insert_there id old new ((k, v) ∷ m) h = ground (arith, length-insert_there id old new m)

  length-set_paused :
      (id : String) (paused : Bool) (r : StreamRegistry A)
      → length (set_paused id paused r).0.sessions ≡ length r.sessions
  unfolding set_paused
  length-set_paused id paused r = elim (Option-cases (lookup id r.sessions)) [
    | inl missing ↦ rw (missing, set_paused) refl
    | inr (session, there) ↦
        rw (there, set_paused)
          (length-insert_there id session (record session { paused = paused }) r.sessions there)
  ]

  pub shutdown_session-sessions :
      (client : ℕ) (r : StreamRegistry A) → (shutdown_session client r).sessions ≡ r.sessions
  unfolding shutdown_session
  shutdown_session-sessions client r = ground arith

  step-length :
      (most pending : ℕ) (c : Step A) (r : StreamRegistry A)
      → needs c ≤ pending
      → pending_after c r pending ≤ most
      → length r.sessions + pending ≤ 19 + most
      → length (step c r).sessions + pending_after c r pending ≤ 19 + most
  unfolding step enter stop_all stop_all_for_connection evict_idle
  step-length most pending reserves r need fits h = reserve-length most pending r fits h
  step-length most pending (enters id session) r need fits h =
      omega (arith, length-insert-le id session r.sessions)
  step-length most pending abandons r need fits h = omega arith
  step-length most pending (stops id) r need fits h = omega (arith, length-stop id r)
  step-length most pending stops_all r need fits h = omega arith
  step-length most pending (stops_for connection_id) r need fits h =
      omega (arith, length-stop_if (λ session. session.connection_id == connection_id) (ids r) r)
  step-length most pending (evicts now) r need fits h =
      omega (arith, length-stop_if (is_idle now) (ids r) r)
  step-length most pending (pauses id paused) r need fits h =
      omega (arith, length-set_paused id paused r)
  step-length most pending (shuts client) r need fits h =
      omega (arith, ap length (shutdown_session-sessions client r))

  bounded-run :
      (most pending : ℕ) (cs : List (Step A)) (r : StreamRegistry A)
      → Concurrent most cs r pending
      → length r.sessions + pending ≤ 19 + most
      → length (run cs r).sessions ≤ 19 + most
  unfolding run
  bounded-run most pending [] r within h = omega arith
  bounded-run most pending (c ∷ cs) r within h =
      bounded-run most (pending_after c r pending) cs (step c r) within.2 (
        step-length most pending c r within.1
          (first most (pending_after c r pending) cs (step c r) within.2) h)
    where
      first :
          (most pending : ℕ) (cs : List (Step A)) (r : StreamRegistry A)
          → Concurrent most cs r pending
          → pending ≤ most
      first most pending [] r w = w
      first most pending (c ∷ cs) r w = w.0

  -- From an empty table, through any steps in any order, the table holds at most 19 sessions more than
  -- there are starts under way at a time: 20 if one start is done after the other, and more if not.
  pub length-run-le :
      (most : ℕ) (cs : List (Step A))
      → Concurrent most cs new_stream_registry 0
      → length (run cs new_stream_registry).sessions ≤ 19 + most
  unfolding new_stream_registry
  length-run-le most cs within = bounded-run most 0 cs new_stream_registry within (omega arith)
