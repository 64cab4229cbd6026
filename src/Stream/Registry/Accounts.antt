-- ===== src/Stream/Registry/Accounts.antt =====
-- Where the client of a session can be, over any interleaving of starts, stops, reclaiming and shutdowns.
use dbx_plugin_kafka.Base.{
  ℕ, ◌≡◌, refl, sym, ap, subst, ◌∙◌, ◌⊎◌, inl, inr, String, Bool, true, not, ◌&&◌, none, some, List,
  [], ◌∷◌, map, if◌then◌else◌, leb, length, contains, contains-append, ◌==◌, string_eq, nat_eq,
  arith, Bool-cases, Option-cases,
}
use dbx_plugin_kafka.Base.Dict.{Dict, lookup, insert, delete, lookup-insert, lookup-delete}
use dbx_plugin_kafka.Stream.Registry.{
  StreamSession, StreamRegistry, reserve, stop, stop_all, shutdown_session, without, stop_if,
  set_paused,
}

pub contains-without :
    (m n : ℕ) (ns : List ℕ) → contains m (without n ns) ≡ (contains m ns && not (m == n))
unfolding contains without
contains-without m n [] = refl
contains-without m n (k ∷ ns) =
    ground (
      arith,
      contains-without m n ns,
      nat_eq.same_iff k n,
      nat_eq.same_iff k m,
      nat_eq.same_iff m n,
    )

module _ {A : Type 0} where
  -- A session of the table has the client.
  pub InTable : ℕ → StreamRegistry A → Type 0
  InTable client r =
      (id : String) × (session : StreamSession A) × (lookup id r.sessions ≡ some session)
      × (session.client ≡ client)

  -- The client is that of a session in the table, or of one that waits for its shutdown, or closed.
  pub Accounted : ℕ → StreamRegistry A → Type 0
  Accounted client r =
      InTable client r ⊎ (contains client r.leaving ≡ true) ⊎ (contains client r.closed ≡ true)

  stop_there :
      (id : String) (session : StreamSession A) (r : StreamRegistry A)
      → lookup id r.sessions ≡ some session
      → stop id r
        ≡ record r { sessions = delete id r.sessions; leaving = session.client ∷ r.leaving }
  unfolding stop
  stop_there id session r there = rw (there, stop) refl

  stop_missing : (id : String) (r : StreamRegistry A) → lookup id r.sessions ≡ none → stop id r ≡ r
  unfolding stop
  stop_missing id r missing = rw (missing, stop) refl

  pub stop-Accounted :
      (client : ℕ) (id : String) (r : StreamRegistry A)
      → Accounted client r
      → Accounted client (stop id r)
  unfolding Accounted InTable contains
  stop-Accounted client id r h = elim (Option-cases (lookup id r.sessions)) [
    | inl missing ↦ subst (Accounted client) (sym (stop_missing id r missing)) h
    | inr (session, there) ↦
        subst (Accounted client) (sym (stop_there id session r there)) (elim h [
          | inr (inl waits) ↦ inr (inl (ground (arith, waits)))
          | inr (inr done) ↦ inr (inr done)
          | inl (other, s, found, same) ↦ elim (Bool-cases (id == other)) [
            | inl here ↦
                let one =
                  sym there
                  ∙ ap (λ k. lookup k r.sessions) ((string_eq.same_iff id other).0 here)
                  ∙ found in
                let held : session.client ≡ client =
                  ap (λ o. elim o [ none ↦ 0 | some t ↦ t.client ]) one ∙ same in
                inr (inl (ground (arith, held)))
            | inr away ↦ inl (
              other,
              s,
              lookup-delete other id r.sessions
                  ∙ ap (λ b. if b then none else lookup other r.sessions) away
                  ∙ found,
              same,
            )
          ]
        ])
  ]

  pub stop_if-Accounted :
      (client : ℕ) (test : StreamSession A → Bool) (is : List String) (r : StreamRegistry A)
      → Accounted client r
      → Accounted client (stop_if test is r)
  unfolding stop_if
  stop_if-Accounted client test [] r h = h
  stop_if-Accounted client test (i ∷ is) r h = elim (Option-cases (lookup i r.sessions)) [
    | inl missing ↦ rw (missing, stop_if) (stop_if-Accounted client test is r h)
    | inr (session, there) ↦ elim (Bool-cases (test session)) [
      | inl passes ↦
          rw (there, passes, stop_if)
            (stop_if-Accounted client test is (stop i r) (stop-Accounted client i r h))
      | inr fails ↦ rw (there, fails, stop_if) (stop_if-Accounted client test is r h)
    ]
  ]

  contains-clients :
      (client : ℕ) (id : String) (session : StreamSession A) (m : Dict String (StreamSession A))
      → lookup id m ≡ some session
      → session.client ≡ client
      → contains client (map (λ e. e.1.client) m) ≡ true
  unfolding lookup contains
  contains-clients client id session [] there same = absurd (ground arith)
  contains-clients client id session ((k, v) ∷ m) there same = elim (Bool-cases (k == id)) [
    | inl here ↦
        let held : v.client ≡ client =
          ap (λ o. elim o [ none ↦ 0 | some t ↦ t.client ]) (rw (here) at there) ∙ same in
        ground (arith, held)
    | inr away ↦
        let more = contains-clients client id session m (rw (away) at there) same in
        ground (arith, more)
  ]

  pub stop_all-Accounted :
      (client : ℕ) (r : StreamRegistry A) → Accounted client r → Accounted client (stop_all r)
  unfolding stop_all Accounted InTable
  stop_all-Accounted client r (inr (inr done)) = inr (inr done)
  stop_all-Accounted client r (inr (inl waits)) = inr (
      inl (
        ground (arith, contains-append client (map (λ e. e.1.client) r.sessions) r.leaving, waits)))
  stop_all-Accounted client r (inl (id, session, there, same)) = inr (
      inl (
        ground (
          arith,
          contains-append client (map (λ e. e.1.client) r.sessions) r.leaving,
          contains-clients client id session r.sessions there same,
        )))

  pub shutdown_session-Accounted :
      (client gone : ℕ) (r : StreamRegistry A)
      → Accounted client r
      → Accounted client (shutdown_session gone r)
  unfolding shutdown_session Accounted InTable contains
  shutdown_session-Accounted client gone r h = elim (Bool-cases (contains gone r.leaving)) [
    | inr stays ↦ rw (stays, shutdown_session) h
    | inl waits ↦
        rw (waits, shutdown_session)
          (elim h [
            | inl there ↦ inl there
            | inr (inr done) ↦ inr (inr (ground (arith, done)))
            | inr (inl mine) ↦ elim (Bool-cases (gone == client)) [
              | inl same ↦ inr (inr (ground (arith, same)))
              | inr other ↦ inr (
                  inl (
                    ground (
                      arith,
                      contains-without client gone r.leaving,
                      mine,
                      other,
                      nat_eq.same_iff client gone,
                    )))
            ]
          ])
  ]

  -- A session is put under an id that the table does not have, or in place of one with the same client.
  pub insert-Accounted :
      (client : ℕ) (id : String) (session : StreamSession A) (r : StreamRegistry A)
      → ((old : StreamSession A) → lookup id r.sessions ≡ some old → old.client ≡ session.client)
      → Accounted client r ⊎ (session.client ≡ client)
      → Accounted client (record r { sessions = insert id session r.sessions })
  unfolding Accounted InTable
  insert-Accounted client id session r kept h =
      let here : lookup id (insert id session r.sessions) ≡ some session =
        lookup-insert id id session r.sessions
        ∙ ap (λ b. if b then some session else lookup id r.sessions)
            ((string_eq.same_iff id id).1 refl) in
      elim h [
        | inr new ↦ inl (id, session, here, new)
        | inl (inr more) ↦ inr more
        | inl (inl (other, s, there, same)) ↦ elim (Bool-cases (id == other)) [
          | inl e ↦ inl (
            id,
            session,
            here,
            sym (kept s (ap (λ k. lookup k r.sessions) ((string_eq.same_iff id other).0 e) ∙ there))
                ∙ same,
          )
          | inr away ↦ inl (
            other,
            s,
            lookup-insert other id session r.sessions
                ∙ ap (λ b. if b then some session else lookup other r.sessions) away
                ∙ there,
            same,
          )
        ]
      ]

  pub set_paused-Accounted :
      (client : ℕ) (id : String) (paused : Bool) (r : StreamRegistry A)
      → Accounted client r
      → Accounted client (set_paused id paused r).0
  unfolding set_paused
  set_paused-Accounted client id paused r h = elim (Option-cases (lookup id r.sessions)) [
    | inl missing ↦ rw (missing, set_paused) h
    | inr (session, there) ↦
        rw (there, set_paused)
          (insert-Accounted client id (record session { paused = paused }) r
            (λ old found. ap (λ o. elim o [ none ↦ 0 | some t ↦ t.client ]) (sym found ∙ there))
            (inl h))
  ]

  pub reserve-Accounted :
      (client : ℕ) (r : StreamRegistry A) → Accounted client r → Accounted client (reserve r).0
  unfolding reserve Accounted InTable
  reserve-Accounted client r h = elim (Bool-cases (leb 20 (length r.sessions))) [
    | inl full ↦ rw (full, reserve) h
    | inr room ↦ rw (room, reserve) h
  ]
