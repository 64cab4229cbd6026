-- ===== src/Stream/Ring/Page.antt =====
-- What a page of the buffer is.
use dbx_plugin_kafka.Base.{
  ℕ, zero, suc, ◌+◌, ◌-◌, ◌^◌, min, ◌≤◌, ◌<◌, ◌≡◌, refl, sym, ap, ◌∙◌, inl, inr, true, false, none,
  some, List, [], ◌∷◌, if◌then◌else◌, leb, length, take, drop, take_clip, length-drop, arith,
  Bool-cases, leb→le,
}
use dbx_plugin_kafka.Base.Int.{ℤ, pos, negsuc, pos_part, is_positive}
use dbx_plugin_kafka.Stream.Ring.{
  RingBuffer, collect, add_int64, sub_int64, too_long, clip, collect_to, page, stream_messages,
}
use dbx_plugin_kafka.Stream.Ring.Contents.{contents, length-collect, drop-collect, take-collect}

-- The number of messages in a page.
abbrev page_size : ℤ → ℕ
page_size limit = if is_positive limit then pos_part limit else 100

clip_lem :
    (start limit size : ℕ)
    → start + limit < 2 ^ 63
    → clip (add_int64 start (pos limit)) size ≡ pos (min (start + limit) size)
clip_lem start limit size h = ground arith

clip_wraps :
    (start limit size : ℕ)
    → 2 ^ 63 ≤ start + limit
    → clip (add_int64 start (pos limit)) size ≡ negsuc (2 ^ 64 - 1 - (start + limit))
clip_wraps start limit size h = ground arith

-- The difference of an end that has wrapped around is the limit again.
count_wraps :
    (start limit : ℕ)
    → start < 2 ^ 63
    → limit < 2 ^ 63
    → 2 ^ 63 ≤ start + limit
    → sub_int64 (negsuc (2 ^ 64 - 1 - (start + limit))) start ≡ pos limit
count_wraps start limit small bounded h = ground arith

wanted_limit : (limit : ℤ) → (if is_positive limit then limit else pos 100) ≡ pos (page_size limit)
wanted_limit limit = ground arith

module _ {A : Type 0} where
  take-drop-contents :
      (blank : A) (rb : RingBuffer A) (start limit : ℕ)
      → start < rb.size
      → take limit (drop start (contents blank rb))
        ≡ collect blank rb start (min limit (rb.size - start))
  take-drop-contents blank rb start limit h =
      let rest = drop start (contents blank rb) in
      let left : length rest ≡ rb.size - start =
        length-drop start (contents blank rb)
        ∙ ap (λ n. n - start) (length-collect blank rb 0 rb.size) in
      let dropped : rest ≡ collect blank rb start (rb.size - start) =
        drop-collect blank rb 0 rb.size start (omega arith)
        ∙ ap (λ k. collect blank rb k (rb.size - start)) (omega arith) in
      sym (take_clip limit rest)
      ∙ ap (λ n. take (min limit n) rest) left
      ∙ ap (take (min limit (rb.size - start))) dropped
      ∙ take-collect blank rb start (rb.size - start) (min limit (rb.size - start)) (omega arith)

  page_inside :
      (blank : A) (offset limit : ℤ) (rb : RingBuffer A)
      → pos_part offset < rb.size
      → page blank offset limit rb
        ≡ collect_to blank rb (pos_part offset) (clip (add_int64 (pos_part offset) limit) rb.size)
  unfolding page
  page_inside blank offset limit rb inside =
      let more : leb rb.size (pos_part offset) ≡ false = ground arith in
      ap
        (λ b.
          if b
          then some []
          else collect_to blank rb (pos_part offset)
              (clip (add_int64 (pos_part offset) limit) rb.size))
        more

  page_outside :
      (blank : A) (offset limit : ℤ) (rb : RingBuffer A)
      → rb.size ≤ pos_part offset
      → page blank offset limit rb ≡ some []
  unfolding page
  page_outside blank offset limit rb outside =
      let none_left : leb rb.size (pos_part offset) ≡ true = ground arith in
      ap
        (λ b.
          if b
          then some []
          else collect_to blank rb (pos_part offset)
              (clip (add_int64 (pos_part offset) limit) rb.size))
        none_left

  collect_to_lem :
      (blank : A) (rb : RingBuffer A) (start end : ℕ)
      → start ≤ end
      → end ≤ rb.size
      → collect_to blank rb start (pos end) ≡ some (collect blank rb start (end - start))
  unfolding collect_to
  collect_to_lem blank rb start end h within =
      let count : sub_int64 (pos end) start ≡ pos (end - start) = ground arith in
      let short : too_long rb.size (end - start) ≡ false = ground arith in
      rw (count, short, collect_to) refl

  page_lem :
      (blank : A) (offset : ℤ) (limit : ℕ) (rb : RingBuffer A)
      → pos_part offset < rb.size
      → pos_part offset + limit < 2 ^ 63
      → page blank offset (pos limit) rb
        ≡ some (take limit (drop (pos_part offset) (contents blank rb)))
  page_lem blank offset limit rb inside fits =
      let start = pos_part offset in
      let count : min (start + limit) rb.size - start ≡ min limit (rb.size - start) = omega arith in
      page_inside blank offset (pos limit) rb inside
      ∙ ap (collect_to blank rb start) (clip_lem start limit rb.size fits)
      ∙ collect_to_lem blank rb start (min (start + limit) rb.size) (omega arith) (omega arith)
      ∙ ap (λ n. some (collect blank rb start n)) count
      ∙ ap some (sym (take-drop-contents blank rb start limit inside))

  stream_messages-page :
      (blank : A) (offset limit : ℤ) (rb : RingBuffer A) (msgs : List A)
      → page blank offset (if is_positive limit then limit else pos 100) rb ≡ some msgs
      → stream_messages blank offset limit rb ≡ some (rb.size, msgs)
  unfolding stream_messages
  stream_messages-page blank offset limit rb msgs e =
      ap (λ p. elim p [ none ↦ none | some m ↦ some (rb.size, m) ]) e

  past_end :
      (blank : A) (rb : RingBuffer A) (start limit : ℕ)
      → rb.size ≤ start
      → take limit (drop start (contents blank rb)) ≡ []
  past_end blank rb start limit h = nothing limit (drop start (contents blank rb)) (
      length-drop start (contents blank rb)
      ∙ ap (λ n. n - start) (length-collect blank rb 0 rb.size)
      ∙ omega arith)
    where
      nothing : (n : ℕ) (xs : List A) → length xs ≡ 0 → take n xs ≡ []
      nothing zero [] e = refl
      nothing (suc n) [] e = refl
      nothing n (x ∷ xs) e = absurd (omega arith)

  -- A request for messages is answered by the total and the wanted part of the buffer, the oldest first,
  -- where the page ends below 2^63: a limit that is not positive stands for 100, a negative offset for 0.
  pub stream_messages_lem :
      (blank : A) (offset limit : ℤ) (rb : RingBuffer A)
      → pos_part offset + page_size limit < 2 ^ 63
      → stream_messages blank offset limit rb
        ≡ some (rb.size, take (page_size limit) (drop (pos_part offset) (contents blank rb)))
  stream_messages_lem blank offset limit rb fits = stream_messages-page blank offset limit rb _ (
      ap (λ l. page blank offset l rb) (wanted_limit limit)
      ∙ elim (Bool-cases (leb rb.size (pos_part offset))) [
        | inl outside ↦
            page_outside blank offset (pos (page_size limit)) rb
              (leb→le rb.size (pos_part offset) outside)
            ∙ ap some (
                sym (
                  past_end blank rb (pos_part offset) (page_size limit)
                    (leb→le rb.size (pos_part offset) outside)))
        | inr inside ↦ page_lem blank offset (page_size limit) rb (ground arith) fits
      ])

  -- With an offset inside the buffer and a page that ends at 2^63 or above, the end wraps around and the
  -- page is not cut at the end of the buffer: its length is the limit, which is too great to be made, and the
  -- answer is a panic.
  pub stream_messages_panics :
      (blank : A) (offset : ℤ) (limit : ℕ) (rb : RingBuffer A)
      → pos_part offset < rb.size
      → rb.size ≤ 2 ^ 48
      → limit < 2 ^ 63
      → 2 ^ 63 ≤ pos_part offset + limit
      → stream_messages blank offset (pos limit) rb ≡ none
  unfolding stream_messages collect_to
  stream_messages_panics blank offset limit rb inside small bounded overflows =
      let start = pos_part offset in
      let wrapped = clip_wraps start limit rb.size overflows in
      let count = count_wraps start limit (omega arith) bounded overflows in
      let too_great : too_long rb.size limit ≡ true = ground arith in
      let refused : collect_to blank rb start (negsuc (2 ^ 64 - 1 - (start + limit))) ≡ none =
        rw (count, too_great, collect_to) refl in
      let same : (if is_positive (pos limit) then pos limit else pos 100) ≡ pos limit =
        ground arith in
      ap (λ p. elim p [ none ↦ none | some m ↦ some (rb.size, m) ])
        (ap (λ l. page blank offset l rb) same
          ∙ page_inside blank offset (pos limit) rb inside
          ∙ ap (collect_to blank rb start) wrapped
          ∙ refused)
