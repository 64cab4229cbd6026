-- ===== src/Stream/Ring/Append.antt =====
-- Appending to the buffer.
use dbx_plugin_kafka.Base.{
  ℕ, zero, suc, ◌+◌, ◌-◌, ◌%◌, ◌<◌, ◌≡◌, refl, sym, ap, ap₂, ◌∙◌, inl, inr, List, [], ◌∷◌, ◌++◌,
  if◌then◌else◌, ltb, length, get_or, set, drop, replicate, arith, Bool-cases, ltb→lt,
  get_or-set_self, get_or-set_ne, length-set, length-append, append_assoc, drop-append, drop-add,
  length-drop, append-nil,
}
use native.Mathlib.Nat.{mod-lt}
use dbx_plugin_kafka.Base.Int.{ℤ, pos_part, is_positive}
use dbx_plugin_kafka.Stream.Ring.{RingBuffer, new_ring_buffer, append, append_batch, at, collect}
use dbx_plugin_kafka.Stream.Ring.Contents.{
  IsRing, contents, length-collect, collect-snoc, collect-ext,
}
use dbx_plugin_kafka.Stream.Ring.Places.{
  place_last, place_ne, base_grow, place_full, full_ne, full_last,
}

module _ {A : Type 0} where
  length-replicate : (n : ℕ) (a : A) → length (replicate n a) ≡ n
  length-replicate zero a = refl
  length-replicate (suc n) a = ap suc (length-replicate n a)

  pub append-IsRing : (msg : A) (rb : RingBuffer A) → IsRing rb → IsRing (append msg rb)
  unfolding append
  append-IsRing msg rb h = record {
    places = length-set rb.data_ rb.head msg ∙ h.places;
    positive = h.positive;
    head_fits = mod-lt (rb.head + 1) h.positive;
    size_fits = ground (arith, h.size_fits);
  }

  -- There is room.
  at-append_grow :
      (blank msg : A) (rb : RingBuffer A) (i : ℕ)
      → IsRing rb
      → rb.size < rb.capacity
      → i < rb.size
      → at blank (append msg rb) i ≡ at blank rb i
  unfolding append
  at-append_grow blank msg rb i h room small =
      let grown : (if ltb rb.size rb.capacity then rb.size + 1 else rb.size) ≡ rb.size + 1 =
        ground arith in
      let same = base_grow rb.head rb.capacity rb.size h.head_fits room in
      let differ = place_ne rb.head rb.capacity rb.size i h.head_fits room small in
      ap
        (λ s.
          get_or (set rb.data_ rb.head msg)
            ((((rb.head + 1) % rb.capacity + rb.capacity - s) % rb.capacity + i) % rb.capacity)
            blank)
        grown
      ∙ ap (λ b. get_or (set rb.data_ rb.head msg) ((b + i) % rb.capacity) blank) same
      ∙ get_or-set_ne rb.data_ msg blank (λ e. differ (sym e))

  at-append_last :
      (blank msg : A) (rb : RingBuffer A)
      → IsRing rb
      → rb.size < rb.capacity
      → at blank (append msg rb) rb.size ≡ msg
  unfolding append
  at-append_last blank msg rb h room =
      let grown : (if ltb rb.size rb.capacity then rb.size + 1 else rb.size) ≡ rb.size + 1 =
        ground arith in
      let same = base_grow rb.head rb.capacity rb.size h.head_fits room in
      ap
        (λ s.
          get_or (set rb.data_ rb.head msg)
            ((((rb.head + 1) % rb.capacity + rb.capacity - s) % rb.capacity + rb.size)
              % rb.capacity)
            blank)
        grown
      ∙ ap (λ b. get_or (set rb.data_ rb.head msg) ((b + rb.size) % rb.capacity) blank) same
      ∙ ap (λ k. get_or (set rb.data_ rb.head msg) k blank)
          (place_last rb.head rb.capacity rb.size h.head_fits room)
      ∙ get_or-set_self rb.data_ rb.head msg blank (omega (arith, h.places, h.head_fits))

  at-append_full :
      (blank msg : A) (rb : RingBuffer A) (i : ℕ)
      → IsRing rb
      → rb.capacity ≡ rb.size
      → i + 1 < rb.size
      → at blank (append msg rb) i ≡ at blank rb (1 + i)
  unfolding append
  at-append_full blank msg rb i h full small =
      let kept : (if ltb rb.size rb.capacity then rb.size + 1 else rb.size) ≡ rb.capacity =
        ground arith in
      let moved = place_full rb.head rb.capacity i h.head_fits (omega arith) in
      let differ = full_ne rb.head rb.capacity (suc i) h.head_fits (omega arith) (omega arith) in
      ap
        (λ s.
          get_or (set rb.data_ rb.head msg)
            ((((rb.head + 1) % rb.capacity + rb.capacity - s) % rb.capacity + i) % rb.capacity)
            blank)
        kept
      ∙ ap (λ k. get_or (set rb.data_ rb.head msg) k blank) moved
      ∙ get_or-set_ne rb.data_ msg blank (λ e. differ (sym e))
      ∙ ap₂
          (λ s k.
            get_or rb.data_ (((rb.head + rb.capacity - s) % rb.capacity + k) % rb.capacity) blank)
          full (omega arith)

  at-append_full_last :
      (blank msg : A) (rb : RingBuffer A) (k : ℕ)
      → IsRing rb
      → rb.capacity ≡ rb.size
      → rb.size ≡ suc k
      → at blank (append msg rb) k ≡ msg
  unfolding append
  at-append_full_last blank msg rb k h full e =
      let kept : (if ltb rb.size rb.capacity then rb.size + 1 else rb.size) ≡ rb.capacity =
        ground arith in
      let moved = place_full rb.head rb.capacity k h.head_fits (omega arith) in
      let round : suc k ≡ rb.capacity = omega arith in
      ap
        (λ s.
          get_or (set rb.data_ rb.head msg)
            ((((rb.head + 1) % rb.capacity + rb.capacity - s) % rb.capacity + k) % rb.capacity)
            blank)
        kept
      ∙ ap (λ k. get_or (set rb.data_ rb.head msg) k blank) moved
      ∙ ap
          (λ j.
            get_or (set rb.data_ rb.head msg)
              (((rb.head + rb.capacity - rb.capacity) % rb.capacity + j) % rb.capacity) blank)
          round
      ∙ ap (λ k. get_or (set rb.data_ rb.head msg) k blank)
          (full_last rb.head rb.capacity h.head_fits)
      ∙ get_or-set_self rb.data_ rb.head msg blank (omega (arith, h.places, h.head_fits))

  -- The last messages of a list, as many as there are places.
  abbrev pub newest : ℕ → List A → List A
  newest capacity msgs = drop (length msgs - capacity) msgs

  contents-append_grow :
      (blank msg : A) (rb : RingBuffer A)
      → IsRing rb
      → rb.size < rb.capacity
      → contents blank (append msg rb) ≡ contents blank rb ++ (msg ∷ [])
  unfolding append
  contents-append_grow blank msg rb h room =
      let grown : (if ltb rb.size rb.capacity then rb.size + 1 else rb.size) ≡ suc rb.size =
        ground arith in
      ap (collect blank (append msg rb) 0) grown
      ∙ collect-snoc blank (append msg rb) 0 rb.size
      ∙ ap₂ (λ xs x. xs ++ (x ∷ []))
          (collect-ext blank (append msg rb) rb 0 0 rb.size (λ k small.
            ap (at blank (append msg rb)) (omega arith)
            ∙ at-append_grow blank msg rb k h room small
            ∙ ap (at blank rb) (omega arith)))
          (ap (at blank (append msg rb)) (omega arith) ∙ at-append_last blank msg rb h room)

  contents-append_full :
      (blank msg : A) (rb : RingBuffer A) (k : ℕ)
      → IsRing rb
      → rb.capacity ≡ rb.size
      → rb.size ≡ suc k
      → contents blank (append msg rb) ≡ drop 1 (contents blank rb ++ (msg ∷ []))
  unfolding append collect
  contents-append_full blank msg rb k h full e =
      let kept : (if ltb rb.size rb.capacity then rb.size + 1 else rb.size) ≡ suc k =
        ground arith in
      ap (collect blank (append msg rb) 0) kept
      ∙ collect-snoc blank (append msg rb) 0 k
      ∙ ap₂ (λ xs x. xs ++ (x ∷ []))
          (collect-ext blank (append msg rb) rb 0 1 k (λ j small.
            ap (at blank (append msg rb)) (omega arith)
            ∙ at-append_full blank msg rb j h full (omega arith)))
          (ap (at blank (append msg rb)) (omega arith)
            ∙ at-append_full_last blank msg rb k h full e)
      ∙ ap (λ n. drop 1 (collect blank rb 0 n ++ (msg ∷ []))) (sym e)

  length-snoc :
      (blank msg : A) (rb : RingBuffer A) → length (contents blank rb ++ (msg ∷ [])) ≡ rb.size + 1
  length-snoc blank msg rb =
      length-append (contents blank rb) (msg ∷ [])
      ∙ ap (λ n. n + 1) (length-collect blank rb 0 rb.size)

  contents-append :
      (blank msg : A) (rb : RingBuffer A)
      → IsRing rb
      → contents blank (append msg rb) ≡ newest rb.capacity (contents blank rb ++ (msg ∷ []))
  contents-append blank msg rb h = elim (Bool-cases (ltb rb.size rb.capacity)) [
    | inl room ↦
        let none_lost : 0 ≡ length (contents blank rb ++ (msg ∷ [])) - rb.capacity =
          omega (arith, length-snoc blank msg rb, ltb→lt rb.size rb.capacity room) in
        contents-append_grow blank msg rb h (ltb→lt rb.size rb.capacity room)
        ∙ ap (λ n. drop n (contents blank rb ++ (msg ∷ []))) none_lost
    | inr no_room ↦
        let full : rb.capacity ≡ rb.size = ground (arith, h.size_fits) in
        let one_lost : 1 ≡ length (contents blank rb ++ (msg ∷ [])) - rb.capacity =
          omega (arith, length-snoc blank msg rb) in
        contents-append_full blank msg rb (rb.size - 1) h full (omega (arith, h.positive))
        ∙ ap (λ n. drop n (contents blank rb ++ (msg ∷ []))) one_lost
  ]

  newest-newest-append :
      (c : ℕ) (xs ys : List A) → newest c (newest c xs ++ ys) ≡ newest c (xs ++ ys)
  newest-newest-append c xs ys =
      let lost = length xs - c in
      let again = length (drop lost xs ++ ys) - c in
      let total : lost + again ≡ length (xs ++ ys) - c =
        omega (arith, length-append (drop lost xs) ys, length-append xs ys, length-drop lost xs) in
      ap (drop again) (sym (drop-append lost xs ys (omega arith)))
      ∙ sym (drop-add lost again (xs ++ ys))
      ∙ ap (λ n. drop n (xs ++ ys)) total

  contents-append_batch :
      (blank : A) (msgs : List A) (rb : RingBuffer A)
      → IsRing rb
      → contents blank (append_batch msgs rb) ≡ newest rb.capacity (contents blank rb ++ msgs)
  unfolding append_batch append
  contents-append_batch blank [] rb h =
      let none_lost : 0 ≡ length (contents blank rb ++ []) - rb.capacity = omega (
        arith,
        length-append (contents blank rb) [],
        length-collect blank rb 0 rb.size,
        h.size_fits,
      ) in
      ap₂ drop none_lost (sym (append-nil (contents blank rb)))
  contents-append_batch blank (msg ∷ msgs) rb h =
      contents-append_batch blank msgs (append msg rb) (append-IsRing msg rb h)
      ∙ ap (λ xs. newest rb.capacity (xs ++ msgs)) (contents-append blank msg rb h)
      ∙ newest-newest-append rb.capacity (contents blank rb ++ (msg ∷ [])) msgs
      ∙ ap (newest rb.capacity) (append_assoc (contents blank rb) (msg ∷ []) msgs)

  new_ring_buffer-IsRing : (blank : A) (capacity : ℤ) → IsRing (new_ring_buffer blank capacity)
  unfolding new_ring_buffer
  new_ring_buffer-IsRing blank capacity = record {
    places = length-replicate _ blank;
    positive = ground arith;
    head_fits = ground arith;
    size_fits = omega arith;
  }

  -- A buffer that took any messages holds the newest of them, as many as it has places, in the order
  -- in which they came; it was made for 10000 where the capacity asked for is not positive.
  pub contents-append_batch-new :
      (blank : A) (capacity : ℤ) (msgs : List A)
      → contents blank (append_batch msgs (new_ring_buffer blank capacity))
        ≡ newest (if is_positive capacity then pos_part capacity else 10000) msgs
  unfolding new_ring_buffer collect
  contents-append_batch-new blank capacity msgs =
      contents-append_batch blank msgs (new_ring_buffer blank capacity)
        (new_ring_buffer-IsRing blank capacity)
