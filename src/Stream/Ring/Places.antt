-- ===== src/Stream/Ring/Places.antt =====
-- Where the places of the buffer are: the arithmetic of its positions.
use dbx_plugin_kafka.Base.{ℕ, suc, ◌+◌, ◌-◌, ◌%◌, ◌≤◌, ◌<◌, ◌≡◌, ◌≢◌, ◌⊎◌, arith}
use native.Mathlib.Nat.{mod-lt}
use dbx_plugin_kafka.Stream.Ring.Contents.{mod_once}

-- Where an index below the capacity lands, from any place.
turn :
    (a c i : ℕ)
    → a < c + c
    → i ≤ c
    → ((a % c + i < c) × ((a % c + i) % c ≡ a % c + i))
      ⊎ ((c ≤ a % c + i) × ((a % c + i) % c + c ≡ a % c + i))
turn a c i h ic = mod_once (a % c + i) c (omega (arith, mod-lt a {m = c} (omega arith)))

-- The place after the last message is the head.
pub place_last : (h c s : ℕ) → h < c → s < c → ((h + c - s) % c + s) % c ≡ h
place_last h c s hc sc =
    let first = mod_once (h + c - s) c (omega arith) in
    omega (
      arith,
      first,
      mod_once ((h + c - s) % c + s) c (omega (arith, mod-lt (h + c - s) {m = c} (omega arith))),
    )

pub place_ne : (h c s i : ℕ) → h < c → s < c → i < s → ((h + c - s) % c + i) % c ≢ h
place_ne h c s i hc sc small e =
    omega (
      arith,
      mod_once (h + c - s) c (omega arith),
      turn (h + c - s) c i (omega arith) (omega arith),
    )

pub base_grow : (h c s : ℕ) → h < c → s < c → ((h + 1) % c + c - (s + 1)) % c ≡ (h + c - s) % c
base_grow h c s hc sc =
    let next = mod_once (h + 1) c (omega arith) in
    let after = mod_once ((h + 1) % c + c - (s + 1)) c (omega arith) in
    omega (arith, next, after, mod_once (h + c - s) c (omega arith))

pub place_full :
    (h c i : ℕ)
    → h < c
    → i < c
    → (((h + 1) % c + c - c) % c + i) % c ≡ ((h + c - c) % c + suc i) % c
place_full h c i hc ic =
    let next = mod_once (h + 1) c (omega arith) in
    let after = mod_once ((h + 1) % c + c - c) c (omega arith) in
    omega (
      arith,
      next,
      after,
      turn ((h + 1) % c + c - c) c i (omega arith) (omega arith),
      mod_once (h + c - c) c (omega arith),
      turn (h + c - c) c (suc i) (omega arith) (omega arith),
    )

pub full_ne : (h c i : ℕ) → h < c → 0 < i → i < c → ((h + c - c) % c + i) % c ≢ h
full_ne h c i hc ip ic e =
    omega (
      arith,
      mod_once (h + c - c) c (omega arith),
      turn (h + c - c) c i (omega arith) (omega arith),
    )

pub full_last : (h c : ℕ) → h < c → ((h + c - c) % c + c) % c ≡ h
full_last h c hc =
    omega (
      arith,
      mod_once (h + c - c) c (omega arith),
      turn (h + c - c) c c (omega arith) (omega arith),
    )
