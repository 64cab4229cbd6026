-- ===== src/Stream/Registry/Numbers.antt =====
-- The numbers that starts draw, and the ids that carry them: that a session is not entered in place of another.
use dbx_plugin_kafka.Base.{
  ℕ, ◌≤◌, ◌≡◌, ◌≢◌, sym, ap, subst, ◌∙◌, ◌⊎◌, inl, inr, String, Bool, true, false, ◌||◌, none, some,
  List, [], ◌∷◌, if◌then◌else◌, leb, length, contains, ◌==◌, string_eq, nat_eq, arith, Bool-cases,
}
use dbx_plugin_kafka.Base.Dict.{lookup, lookup-insert}
use dbx_plugin_kafka.Stream.Registry.{
  StreamSession, StreamRegistry, new_stream_registry, reserve, enter, stop, stop_all, without,
  stop_if, stop_all_for_connection, evict_idle, set_paused, ids, is_idle, shutdown_session,
}
use dbx_plugin_kafka.Stream.Registry.Limit.{
  Step, reserves, enters, abandons, stops, stops_all, stops_for, evicts, pauses, shuts, step, run,
  reserve_full, reserve_room,
}
use dbx_plugin_kafka.Stream.Registry.Accounts.{
  Accounted, contains-without, stop-Accounted, stop_if-Accounted, stop_all-Accounted,
  shutdown_session-Accounted, insert-Accounted, set_paused-Accounted, reserve-Accounted,
}
use dbx_plugin_kafka.Stream.Registry.Under.{
  Under, stop-Under, stop_if-Under, set_paused-Under, stop_if-next, stop-next, set_paused-next,
  stop_all-Under, stop_all-next, shutdown_session-Under, shutdown_session-next,
}

abbrev sum_map : {P Q R : Type 0} → (P → Q) → P ⊎ R → Q ⊎ R
sum_map f (inl p) = inl (f p)
sum_map f (inr r) = inr r

module _ {A : Type 0} where
  -- A session with that client is entered by a step.
  unfoldable pub entered : ℕ → List (Step A) → Bool
  entered client [] = false
  entered client (enters id session ∷ cs) = session.client == client || entered client cs
  entered client (_ ∷ cs) = entered client cs

  enter-entered :
      (client : ℕ) (id : String) (session : StreamSession A) (cs : List (Step A))
      (r : StreamRegistry A)
      → ((old : StreamSession A) → lookup id r.sessions ≢ some old)
      → Accounted client r ⊎ (entered client (enters id session ∷ cs) ≡ true)
      → Accounted client (enter id session r) ⊎ (entered client cs ≡ true)
  unfolding enter entered
  enter-entered client id session cs r fresh (inl h) =
      inl (insert-Accounted client id session r (λ old there. absurd (fresh old there)) (inl h))
  enter-entered client id session cs r fresh (inr h) =
      elim (Bool-cases (session.client == client)) [
        | inl mine ↦ inl (
            insert-Accounted client id session r (λ old there. absurd (fresh old there))
              (inr ((nat_eq.same_iff session.client client).0 mine)))
        | inr other ↦ inr (ground (arith, h, other))
      ]

  -- `id_of` is the text of a time and a number.
  module _ (id_of : ℕ → ℕ → String) where
    -- Each session is entered under an id with a number that its start has drawn; `drawn` are the numbers that
    -- were drawn and not yet used.
    unfoldable pub Drawn : List (Step A) → StreamRegistry A → List ℕ → Type 0
    Drawn [] r drawn = Unit
    Drawn (reserves ∷ cs) r drawn =
        Drawn cs (step reserves r) (elim (reserve r).1 [ none ↦ drawn | some n ↦ n ∷ drawn ])
    Drawn (enters id session ∷ cs) r drawn =
        (t : ℕ) × (n : ℕ) × (id ≡ id_of t n)
        × (contains n drawn ≡ true)
        × Drawn cs (step (enters id session) r) (without n drawn)
    Drawn (c ∷ cs) r drawn = Drawn cs (step c r) drawn

    -- The ids of the table carry numbers that are used.
    Numbered : StreamRegistry A → List ℕ → Type 0
    Numbered r drawn =
        ((id : String) (session : StreamSession A)
          → lookup id r.sessions ≡ some session
          → (t : ℕ) × (n : ℕ) × (id ≡ id_of t n) × (contains n drawn ≡ false) × (n ≤ r.next))
        × ((n : ℕ) → contains n drawn ≡ true → n ≤ r.next)

    Numbered-Under :
        (r s : StreamRegistry A) (drawn : List ℕ)
        → Under r s
        → r.next ≡ s.next
        → Numbered s drawn
        → Numbered r drawn
    unfolding Numbered Under
    Numbered-Under r s drawn under same (used, waiting) = (
      λ id new h.
          let (old, there) = under id new h in
          let (t, n, e, gone, low) = used id old there in (t, n, e, gone, omega (arith, low, same)),
      λ n h. omega (arith, waiting n h, same),
    )

    reserve-Numbered :
        (r : StreamRegistry A) (drawn : List ℕ)
        → Numbered r drawn
        → Numbered (reserve r).0 (elim (reserve r).1 [ none ↦ drawn | some n ↦ n ∷ drawn ])
    unfolding Numbered contains
    reserve-Numbered r drawn (used, waiting) = elim (Bool-cases (leb 20 (length r.sessions))) [
      | inl full ↦
          subst (λ x. Numbered x.0 (elim x.1 [ none ↦ drawn | some n ↦ n ∷ drawn ]))
            (sym (reserve_full r full)) (used, waiting)
      | inr room ↦
          subst (λ x. Numbered x.0 (elim x.1 [ none ↦ drawn | some n ↦ n ∷ drawn ]))
            (sym (reserve_room r room))
            (
              λ id session h.
                  let (t, n, e, gone, low) = used id session h in
                  (t, n, e, ground (arith, gone, low), omega (arith, low)),
              λ n h. ground (arith, waiting n, h),
            )
    ]

    module _ (different : (t n u m : ℕ) → id_of t n ≡ id_of u m → n ≡ m) where
      -- A number that is drawn and not yet used is in no id of the table.
      id-missing :
          (r : StreamRegistry A) (drawn : List ℕ) (t n : ℕ) (old : StreamSession A)
          → Numbered r drawn
          → contains n drawn ≡ true
          → lookup (id_of t n) r.sessions ≢ some old
      unfolding Numbered
      id-missing r drawn t n old (used, waiting) mine there =
          let (u, m, e, gone, low) = used (id_of t n) old there in
          ground (arith, mine, gone, ap (λ k. contains k drawn) (different t n u m e))

      enter-Numbered :
          (r : StreamRegistry A) (drawn : List ℕ) (t n : ℕ) (session : StreamSession A)
          → Numbered r drawn
          → contains n drawn ≡ true
          → Numbered (enter (id_of t n) session r) (without n drawn)
      unfolding Numbered enter
      enter-Numbered r drawn t n session (used, waiting) mine = (
        λ id new h. elim (Bool-cases (id_of t n == id)) [
          | inl same ↦ (
            t,
            n,
            sym ((string_eq.same_iff (id_of t n) id).0 same),
            ground (arith, contains-without n n drawn, nat_eq.same_iff n n),
            waiting n mine,
          )
          | inr away ↦
              let (u, m, e, gone, low) = used id new (
                sym (
                  lookup-insert id (id_of t n) session r.sessions
                  ∙ ap (λ b. if b then some session else lookup id r.sessions) away)
                ∙ h) in
              (u, m, e, ground (arith, contains-without m n drawn, gone), low)
        ],
        λ m h. waiting m (ground (arith, contains-without m n drawn, h)),
      )

      -- What a history needs of the registry that it starts from.
      Sound : ℕ → List (Step A) → StreamRegistry A → List ℕ → Type 0
      Sound client cs r drawn =
          Drawn cs r drawn × Numbered r drawn × (Accounted client r ⊎ (entered client cs ≡ true))

      run_from-Accounted :
          (client : ℕ) (cs : List (Step A)) (r : StreamRegistry A) (drawn : List ℕ)
          → Sound client cs r drawn
          → Accounted client (run cs r)
      unfolding run step stop_all_for_connection evict_idle Sound Drawn entered
      run_from-Accounted client [] r drawn (_, _, inl h) = h
      run_from-Accounted client [] r drawn (_, _, inr h) = absurd (ground (arith, h))
      run_from-Accounted client (reserves ∷ cs) r drawn (rest, numbered, h) =
          run_from-Accounted client cs (reserve r).0
            (elim (reserve r).1 [ none ↦ drawn | some n ↦ n ∷ drawn ])
            (rest, reserve-Numbered r drawn numbered, sum_map (reserve-Accounted client r) h)
      run_from-Accounted client (enters id session ∷ cs) r drawn
            ((t, n, e, mine, rest), numbered, h) =
          run_from-Accounted client cs (enter id session r) (without n drawn) (
            rest,
            subst (λ k. Numbered (enter k session r) (without n drawn)) (sym e)
                (enter-Numbered r drawn t n session numbered mine),
            enter-entered client id session cs r
                (λ old there.
                  id-missing r drawn t n old numbered mine
                    (ap (λ k. lookup k r.sessions) (sym e) ∙ there))
                h,
          )
      run_from-Accounted client (abandons ∷ cs) r drawn (rest, numbered, h) =
          run_from-Accounted client cs r drawn (rest, numbered, h)
      run_from-Accounted client (stops id ∷ cs) r drawn (rest, numbered, h) =
          run_from-Accounted client cs (stop id r) drawn (
            rest,
            Numbered-Under (stop id r) r drawn (stop-Under id r) (stop-next id r) numbered,
            sum_map (stop-Accounted client id r) h,
          )
      run_from-Accounted client (stops_all ∷ cs) r drawn (rest, numbered, h) =
          run_from-Accounted client cs (stop_all r) drawn (
            rest,
            Numbered-Under (stop_all r) r drawn (stop_all-Under r) (stop_all-next r) numbered,
            sum_map (stop_all-Accounted client r) h,
          )
      run_from-Accounted client (stops_for connection_id ∷ cs) r drawn (rest, numbered, h) =
          let test = λ (session : StreamSession A). session.connection_id == connection_id in
          run_from-Accounted client cs (stop_if test (ids r) r) drawn (
            rest,
            Numbered-Under (stop_if test (ids r) r) r drawn (stop_if-Under test r)
                (stop_if-next test (ids r) r) numbered,
            sum_map (stop_if-Accounted client test (ids r) r) h,
          )
      run_from-Accounted client (evicts now ∷ cs) r drawn (rest, numbered, h) =
          run_from-Accounted client cs (stop_if (is_idle now) (ids r) r) drawn (
            rest,
            Numbered-Under (stop_if (is_idle now) (ids r) r) r drawn (stop_if-Under (is_idle now) r)
                (stop_if-next (is_idle now) (ids r) r) numbered,
            sum_map (stop_if-Accounted client (is_idle now) (ids r) r) h,
          )
      run_from-Accounted client (pauses id paused ∷ cs) r drawn (rest, numbered, h) =
          run_from-Accounted client cs (set_paused id paused r).0 drawn (
            rest,
            Numbered-Under (set_paused id paused r).0 r drawn (set_paused-Under id paused r)
                (set_paused-next id paused r) numbered,
            sum_map (set_paused-Accounted client id paused r) h,
          )
      run_from-Accounted client (shuts gone ∷ cs) r drawn (rest, numbered, h) =
          run_from-Accounted client cs (shutdown_session gone r) drawn (
            rest,
            Numbered-Under (shutdown_session gone r) r drawn (shutdown_session-Under gone r)
                (shutdown_session-next gone r) numbered,
            sum_map (shutdown_session-Accounted client gone r) h,
          )

      -- Through any steps in any order, from an empty table and with ids that differ where their numbers
      -- differ, the client of a session that was entered is at the end that of a session in the table, or
      -- of one that was taken out of it and waits for its shutdown, or closed: no session is lost.
      pub run-Accounted :
          (client : ℕ) (cs : List (Step A))
          → Drawn cs new_stream_registry []
          → entered client cs ≡ true
          → Accounted client (run cs new_stream_registry)
      unfolding new_stream_registry Sound Numbered lookup contains
      run-Accounted client cs drawn h = run_from-Accounted client cs new_stream_registry [] (
        drawn,
        (
          λ id session there. absurd (ground (arith, there)),
          λ n mine. absurd (ground (arith, mine)),
        ),
        inr h,
      )
