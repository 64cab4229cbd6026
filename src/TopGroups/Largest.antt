-- ===== src/TopGroups/Largest.antt =====
-- Which groups are kept.
use dbx_plugin_kafka.Base.{
  ℕ, suc, ◌≤◌, ◌<◌, ◌≡◌, refl, sym, ap, subst, ◌∙◌, inl, inr, min, String, Bool, true, false, ◌||◌,
  List, [], ◌∷◌, ◌++◌, All, if◌then◌else◌, ltb, nat_beq, length, take, drop, length-take,
  take-append-drop, take_all, lt→ltb, ◌==◌, contains, contains-append, nat_eq, string_eq, pair_eq,
  arith, Bool-cases,
}
use dbx_plugin_kafka.Base.Int.{ℤ, pos_part}
use dbx_plugin_kafka.Base.Dict.{Dict}
use dbx_plugin_kafka.TopGroups.{before, insert_group, sort_groups, top_groups}

abbrev Group : Type 0
Group = String × ℕ

-- No count is above one that stands before it.
IsDescending : List Group → Type 0
IsDescending [] = Unit
IsDescending (g ∷ gs) = All (λ h. h.1 ≤ g.1) gs × IsDescending gs

or_swap : (a b c : Bool) → (a || (b || c)) ≡ (b || (a || c))
or_swap a b c = ground arith

contains-insert_group :
    (x g : Group) (hs : List Group) → contains x (insert_group g hs) ≡ (g == x || contains x hs)
unfolding insert_group contains
contains-insert_group x g [] = refl
contains-insert_group x g (h ∷ hs) = elim (Bool-cases (before h g)) [
  | inl first ↦
      rw (first, insert_group)
        (ap (λ b. h == x || b) (contains-insert_group x g hs)
          ∙ or_swap (h == x) (g == x) (contains x hs))
  | inr last ↦ rw (last, insert_group) refl
]

contains-sort_groups : (x : Group) (gs : List Group) → contains x (sort_groups gs) ≡ contains x gs
unfolding sort_groups contains
contains-sort_groups x [] = refl
contains-sort_groups x (g ∷ gs) =
    contains-insert_group x g (sort_groups gs) ∙ ap (λ b. g == x || b) (contains-sort_groups x gs)

length-insert_group : (g : Group) (hs : List Group) → length (insert_group g hs) ≡ suc (length hs)
unfolding insert_group
length-insert_group g [] = refl
length-insert_group g (h ∷ hs) = elim (Bool-cases (before h g)) [
  | inl first ↦ rw (first, insert_group) (ap suc (length-insert_group g hs))
  | inr last ↦ rw (last, insert_group) refl
]

length-sort_groups : (gs : List Group) → length (sort_groups gs) ≡ length gs
unfolding sort_groups
length-sort_groups [] = refl
length-sort_groups (g ∷ gs) =
    length-insert_group g (sort_groups gs) ∙ ap suc (length-sort_groups gs)

before-le : (g h : Group) → before h g ≡ true → g.1 ≤ h.1
before-le (a, m) (b, n) e = elim (Bool-cases (nat_beq n m)) [
  | inl same ↦ ground arith
  | inr differ ↦ ground (arith, rw differ at e)
]

after-le : (g h : Group) → before h g ≡ false → h.1 ≤ g.1
after-le (a, m) (b, n) e = elim (Bool-cases (nat_beq n m)) [
  | inl same ↦ ground arith
  | inr differ ↦ ground (arith, rw differ at e)
]

All-insert_group :
    (k : ℕ) (g : Group) (hs : List Group)
    → g.1 ≤ k
    → All (λ h. h.1 ≤ k) hs
    → All (λ h. h.1 ≤ k) (insert_group g hs)
unfolding insert_group
All-insert_group k g [] b all = (b, tt)
All-insert_group k g (h ∷ hs) b (first, all) = elim (Bool-cases (before h g)) [
  | inl e ↦ rw (e, insert_group) (first, All-insert_group k g hs b all)
  | inr e ↦ rw (e, insert_group) (b, (first, all))
]

All-trans : (j k : ℕ) (hs : List Group) → j ≤ k → All (λ h. h.1 ≤ j) hs → All (λ h. h.1 ≤ k) hs
All-trans j k [] b all = tt
All-trans j k (h ∷ hs) b (first, all) = (omega arith, All-trans j k hs b all)

insert_group-IsDescending :
    (g : Group) (hs : List Group) → IsDescending hs → IsDescending (insert_group g hs)
unfolding insert_group IsDescending
insert_group-IsDescending g [] d = (tt, tt)
insert_group-IsDescending g (h ∷ hs) (all, d) = elim (Bool-cases (before h g)) [
  | inl e ↦
      rw (e, insert_group)
        (All-insert_group h.1 g hs (before-le g h e) all, insert_group-IsDescending g hs d)
  | inr e ↦
      rw (e, insert_group) ((after-le g h e, All-trans h.1 g.1 hs (after-le g h e) all), (all, d))
]

sort_groups-IsDescending : (gs : List Group) → IsDescending (sort_groups gs)
unfolding sort_groups IsDescending
sort_groups-IsDescending [] = tt
sort_groups-IsDescending (g ∷ gs) =
    insert_group-IsDescending g (sort_groups gs) (sort_groups-IsDescending gs)

below_head :
    (k : ℕ) (x : Group) (xs ys : List Group)
    → All (λ h. h.1 ≤ k) (xs ++ ys)
    → contains x ys ≡ true
    → x.1 ≤ k
unfolding contains
below_head k x [] [] all m = absurd (ground arith)
below_head k x [] (y ∷ ys) (first, all) m = elim (Bool-cases (y == x)) [
  | inl same ↦ subst (λ z. z.1 ≤ k) ((pair_eq.same_iff y x).0 same) first
  | inr differ ↦ below_head k x [] ys all (ap (λ b. b || contains x ys) (sym differ) ∙ m)
]
below_head k x (z ∷ xs) ys (first, all) m = below_head k x xs ys all m

-- What stands after a prefix is not above anything in it.
below_prefix :
    (x : Group) (xs ys : List Group)
    → IsDescending (xs ++ ys)
    → contains x ys ≡ true
    → All (λ k. x.1 ≤ k.1) xs
unfolding IsDescending
below_prefix x [] ys d m = tt
below_prefix x (k ∷ xs) ys (all, d) m = (below_head k.1 x xs ys all m, below_prefix x xs ys d m)

in_rest : (a b : Bool) → (a || b) ≡ true → a ≡ false → b ≡ true
in_rest a b h e = ground arith

top_groups_kept :
    (counts : List Group) (limit : ℤ)
    → 0 < pos_part limit
    → top_groups counts limit ≡ (
      take (pos_part limit) (sort_groups counts),
      ltb (pos_part limit) (length (sort_groups counts)),
    )
unfolding top_groups sort_groups
top_groups_kept [] limit h =
    let nothing : [] ≡ take {A = Group} (pos_part limit) [] =
      sym (take_all (pos_part limit) [] (omega arith)) in
    let none_lost : false ≡ ltb (pos_part limit) 0 = ground arith in λ i. (nothing i, none_lost i)
top_groups_kept (g ∷ gs) limit h =
    let sorted = sort_groups (g ∷ gs) in
    ap
      (λ b.
        if b
        then (take (pos_part limit) sorted, ltb (pos_part limit) (length sorted))
        else ([], false))
      (lt→ltb 0 (pos_part limit) h)

sorted_parts :
    (x : Group) (n : ℕ) (gs : List Group)
    → (contains x (take n (sort_groups gs)) || contains x (drop n (sort_groups gs))) ≡ contains x gs
sorted_parts x n gs =
    sym (contains-append x (take n (sort_groups gs)) (drop n (sort_groups gs)))
    ∙ ap (contains x) (take-append-drop n (sort_groups gs))
    ∙ contains-sort_groups x gs

or_left : (a b c : Bool) → (a || b) ≡ c → a ≡ true → c ≡ true
or_left a b c h e = ground arith

-- With a positive limit as many groups are kept as there are, up to the limit, and the flag says whether
-- there are more; each kept group is one of the counts, and no group that was left out has a larger
-- count than a kept one.
pub top_groups_largest :
    (counts : Dict String ℕ) (limit : ℤ)
    → 0 < pos_part limit
    → (length (top_groups counts limit).0 ≡ min (pos_part limit) (length counts))
      × ((top_groups counts limit).1 ≡ ltb (pos_part limit) (length counts))
      × ((k : String × ℕ)
          → contains k (top_groups counts limit).0 ≡ true
          → contains k counts ≡ true)
      × ((g : String × ℕ)
          → contains g counts ≡ true
          → contains g (top_groups counts limit).0 ≡ false
          → All (λ k. g.1 ≤ k.1) (top_groups counts limit).0)
top_groups_largest counts limit h =
    let n = pos_part limit in
    let sorted = sort_groups counts in
    let same = top_groups_kept counts limit h in
    let whole = take-append-drop n sorted in
    rw (same) (
      length-take n sorted ∙ ap (min n) (length-sort_groups counts),
      ap (ltb n) (length-sort_groups counts),
      λ k m.
          or_left (contains k (take n sorted)) (contains k (drop n sorted)) (contains k counts)
            (sorted_parts k n counts) m,
      λ g m out.
          below_prefix g (take n sorted) (drop n sorted)
            (subst IsDescending (sym whole) (sort_groups-IsDescending counts))
            (in_rest (contains g (take n sorted)) (contains g (drop n sorted))
              (sorted_parts g n counts ∙ m) out),
    )
