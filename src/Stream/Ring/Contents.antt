-- ===== src/Stream/Ring/Contents.antt =====
-- The buffer as the list of its messages, the oldest first.
use native.Mathlib.Nat.{mod-eq_of_lt, mod-eq-sub-mod}
use dbx_plugin_kafka.Base.{
  ℕ, zero, suc, ◌+◌, ◌-◌, ◌%◌, ◌≤◌, ◌<◌, ◌≡◌, refl, ap, ap₂, ◌∙◌, ◌⊎◌, inl, inr, List, [], ◌∷◌,
  ◌++◌, ltb, length, take, drop, arith, Bool-cases, ltb→lt,
}
use dbx_plugin_kafka.Stream.Ring.{RingBuffer, at, collect}

mod_past : (a c : ℕ) → c ≤ a → a < c + c → a % c + c ≡ a
mod_past a c h below =
    let small : a - c < c = omega arith in
    let same : a % c ≡ a - c = mod-eq-sub-mod h ∙ mod-eq_of_lt small in omega arith

-- One turn at most around the buffer.
pub mod_once : (a c : ℕ) → a < c + c → ((a < c) × (a % c ≡ a)) ⊎ ((c ≤ a) × (a % c + c ≡ a))
mod_once a c h = elim (Bool-cases (ltb a c)) [
  | inl below ↦ inl (ltb→lt a c below, mod-eq_of_lt (ltb→lt a c below))
  | inr past ↦ (let fits : c ≤ a = ground arith in inr (fits, mod_past a c fits h))
]

module _ {A : Type 0} where
  pub record IsRing (rb : RingBuffer A) : Type 0 where
    pub places : length rb.data_ ≡ rb.capacity
    pub positive : 0 < rb.capacity
    pub head_fits : rb.head < rb.capacity
    pub size_fits : rb.size ≤ rb.capacity

  abbrev pub contents : A → RingBuffer A → List A
  contents blank rb = collect blank rb 0 rb.size

  pub length-collect : (blank : A) (rb : RingBuffer A) (i n : ℕ) → length (collect blank rb i n) ≡ n
  unfolding collect
  length-collect blank rb i zero = refl
  length-collect blank rb i (suc n) = ap suc (length-collect blank rb (suc i) n)

  -- The last message that is collected.
  pub collect-snoc :
      (blank : A) (rb : RingBuffer A) (i n : ℕ)
      → collect blank rb i (suc n) ≡ collect blank rb i n ++ (at blank rb (i + n) ∷ [])
  unfolding collect
  collect-snoc blank rb i zero = ap (λ k. at blank rb k ∷ []) (omega arith)
  collect-snoc blank rb i (suc n) =
      ap (λ xs. at blank rb i ∷ xs)
        (collect-snoc blank rb (suc i) n
          ∙ ap (λ k. collect blank rb (suc i) n ++ (at blank rb k ∷ [])) (omega arith))

  pub collect-ext :
      (blank : A) (rb rb' : RingBuffer A) (i j n : ℕ)
      → ((k : ℕ) → k < n → at blank rb (i + k) ≡ at blank rb' (j + k))
      → collect blank rb i n ≡ collect blank rb' j n
  unfolding collect
  collect-ext blank rb rb' i j zero h = refl
  collect-ext blank rb rb' i j (suc n) h =
      ap₂ (λ x xs. x ∷ xs)
        (ap (at blank rb) (omega arith) ∙ h 0 (omega arith) ∙ ap (at blank rb') (omega arith))
        (collect-ext blank rb rb' (suc i) (suc j) n (λ k small.
          ap (at blank rb) (omega arith)
          ∙ h (suc k) (omega arith)
          ∙ ap (at blank rb') (omega arith)))

  pub drop-collect :
      (blank : A) (rb : RingBuffer A) (i n k : ℕ)
      → k ≤ n
      → drop k (collect blank rb i n) ≡ collect blank rb (i + k) (n - k)
  unfolding collect
  drop-collect blank rb i n zero h = ap₂ (collect blank rb) (omega arith) (omega arith)
  drop-collect blank rb i zero (suc k) h = absurd (omega arith)
  drop-collect blank rb i (suc n) (suc k) h =
      drop-collect blank rb (suc i) n k (omega arith)
      ∙ ap₂ (collect blank rb) (omega arith) (omega arith)

  pub take-collect :
      (blank : A) (rb : RingBuffer A) (i n k : ℕ)
      → k ≤ n
      → take k (collect blank rb i n) ≡ collect blank rb i k
  unfolding collect
  take-collect blank rb i n zero h = refl
  take-collect blank rb i zero (suc k) h = absurd (omega arith)
  take-collect blank rb i (suc n) (suc k) h =
      ap (λ xs. at blank rb i ∷ xs) (take-collect blank rb (suc i) n k (omega arith))
