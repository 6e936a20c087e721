-- ===== src/Gateway/Chunks.antt =====
-- Reading a request of src-tauri/src/coding_agent_gateway.rs from a stream in any pieces.
use mathlib.Core.Option.{some-injective}
use mathlib.Core.List.{append-nil, append_assoc}
use open_mind_ai.Base.{
  ℕ, zero, suc, ◌+◌, ◌≤◌, ◌≡◌, refl, sym, ◌∙◌, ap, true, false, Option, none, some, List, [], ◌∷◌,
  ◌++◌, ltb, leb, length, take, length-append, any, inl, inr, Bool-cases, Option-cases, arith,
}
use open_mind_ai.Base.Text.{Text, text, starts_with}
use open_mind_ai.Gateway.{
  Read, received, max_header_bytes, max_body_bytes, crlf, drop, map_suc, find_head_end,
  header_value, length_of, is_chunked, read_body, with_length, after_head, parse_head, split_head,
  read_head, read_request,
}

-- Pieces with one byte at least.
abbrev pub sent : List (ℕ × List ℕ) → List Read
sent [] = []
sent ((b, bs) ∷ chunks) = received (b ∷ bs) ∷ sent chunks

abbrev pub joined : List (ℕ × List ℕ) → List ℕ
joined [] = []
joined ((b, bs) ∷ chunks) = (b ∷ bs) ++ joined chunks

starts_with-append :
    (b x w : List ℕ) → length w ≤ length b → starts_with (b ++ x) w ≡ starts_with b w
starts_with-append [] x [] h = refl
starts_with-append [] x (d ∷ w) h = ground arith
starts_with-append (c ∷ b) x [] h = refl
starts_with-append (c ∷ b) x (d ∷ w) h = rw (starts_with-append b x w (omega arith)) refl

map_suc-some : (r : Option ℕ) (p : ℕ) → map_suc r ≡ some p → (q : ℕ) × (r ≡ some q) × (p ≡ suc q)
map_suc-some none p h = absurd (cc h)
map_suc-some (some q) p h = (q, refl, sym (some-injective _ _ h))

starts_with-le : (b w : List ℕ) → starts_with b w ≡ true → length w ≤ length b
starts_with-le b [] h = omega arith
starts_with-le [] (d ∷ w) h = ground arith
starts_with-le (c ∷ b) (d ∷ w) h = ground (arith, starts_with-le b w)

find_head_end-le : (b : List ℕ) (p : ℕ) → find_head_end b ≡ some p → p + 4 ≤ length b
unfolding find_head_end
find_head_end-le [] p h = absurd (cc h)
find_head_end-le (c ∷ b) p h = elim (Bool-cases (starts_with (c ∷ b) (crlf ++ crlf))) [
  | inl e ↦
      let is : some 0 ≡ some p = rw e at h in
      let first : 0 ≡ p = some-injective _ _ is in
      omega (arith, starts_with-le (c ∷ b) (crlf ++ crlf) e)
  | inr e ↦
      let is : map_suc (find_head_end b) ≡ some p = rw e at h in
      let (q, found, next) = map_suc-some (find_head_end b) p is in
      omega (arith, find_head_end-le b q found)
]

-- What is found in more bytes is found in those that reach behind it, and the other way round.
find_head_end-cut :
    (b x : List ℕ) (p : ℕ)
    → find_head_end (b ++ x) ≡ some p
    → p + 4 ≤ length b
    → find_head_end b ≡ some p
unfolding find_head_end
find_head_end-cut [] x p h le = absurd (omega arith)
find_head_end-cut (c ∷ b) x p h le =
    let same = starts_with-append (c ∷ b) x (crlf ++ crlf) (omega arith) in
    elim (Bool-cases (starts_with (c ∷ b) (crlf ++ crlf))) [
      | inl e ↦ let is : some 0 ≡ some p = rw (same, e) at h in rw e is
      | inr e ↦
          let is : map_suc (find_head_end (b ++ x)) ≡ some p = rw (same, e) at h in
          let (q, found, next) = map_suc-some (find_head_end (b ++ x)) p is in
          rw (e, find_head_end-cut b x q found (omega arith), next) refl
    ]

find_head_end-append :
    (b x : List ℕ) (p : ℕ) → find_head_end b ≡ some p → find_head_end (b ++ x) ≡ some p
unfolding find_head_end
find_head_end-append [] x p h = absurd (cc h)
find_head_end-append (c ∷ b) x p h =
    let le = find_head_end-le (c ∷ b) p h in
    let same = starts_with-append (c ∷ b) x (crlf ++ crlf) (omega arith) in
    elim (Bool-cases (starts_with (c ∷ b) (crlf ++ crlf))) [
      | inl e ↦ let is : some 0 ≡ some p = rw e at h in rw (same, e) is
      | inr e ↦
          let is : map_suc (find_head_end b) ≡ some p = rw e at h in
          let (q, found, next) = map_suc-some (find_head_end b) p is in
          rw (same, e, find_head_end-append b x q found, next) refl
    ]

take-append : (n : ℕ) (b x : List ℕ) → n ≤ length b → take n (b ++ x) ≡ take n b
take-append zero b x h = refl
take-append (suc n) [] x h = absurd (omega arith)
take-append (suc n) (c ∷ b) x h = ap (λ t. c ∷ t) (take-append n b x (omega arith))

drop-append : (n : ℕ) (b x : List ℕ) → n ≤ length b → drop n (b ++ x) ≡ drop n b ++ x
drop-append zero b x h = refl
drop-append (suc n) [] x h = absurd (omega arith)
drop-append (suc n) (c ∷ b) x h = drop-append n b x (omega arith)

read_body-sent :
    (head : Text × Text × List (Text × Text)) (size : ℕ) (chunks : List (ℕ × List ℕ))
    (body : List ℕ)
    → read_body head size (sent chunks) body ≡ read_body head size [] (body ++ joined chunks)
unfolding read_body
read_body-sent head size [] body = rw (append-nil body) refl
read_body-sent head size ((b, bs) ∷ chunks) body = elim (Bool-cases (leb size (length body))) [
  | inl e ↦
      let more : leb size (length (body ++ ((b ∷ bs) ++ joined chunks))) ≡ true =
        ground (arith, length-append body ((b ∷ bs) ++ joined chunks)) in
      rw (e, more, take-append size body ((b ∷ bs) ++ joined chunks) (ground arith)) refl
  | inr e ↦
      rw (e, ← append_assoc body (b ∷ bs) (joined chunks))
        (read_body-sent head size chunks (body ++ (b ∷ bs)))
]

with_length-sent :
    (head : Text × Text × List (Text × Text)) (size : Option ℕ) (chunks : List (ℕ × List ℕ))
    (body : List ℕ)
    → with_length head size (sent chunks) body ≡ with_length head size [] (body ++ joined chunks)
with_length-sent head none chunks body = refl
with_length-sent head (some size) chunks body = elim (Bool-cases (ltb max_body_bytes size)) [
  | inl e ↦ rw e refl
  | inr e ↦ rw e (read_body-sent head size chunks body)
]

after_head-sent :
    (head : Option (Text × Text × List (Text × Text))) (chunks : List (ℕ × List ℕ)) (body : List ℕ)
    → after_head head (sent chunks) body ≡ after_head head [] (body ++ joined chunks)
unfolding after_head
after_head-sent none chunks body = refl
after_head-sent (some (method, path, headers)) chunks body =
    elim (Bool-cases (any is_chunked headers)) [
      | inl e ↦ rw e refl
      | inr e ↦ rw e (
          with_length-sent (method, path, headers)
            (length_of (header_value (text "content-length") headers)) chunks body)
    ]

module _ (from_utf8 : List ℕ → Option Text) where
  split_head-sent :
      (p : ℕ) (chunks : List (ℕ × List ℕ)) (buffer : List ℕ)
      → find_head_end buffer ≡ some p
      → split_head from_utf8 p (sent chunks) buffer
        ≡ split_head from_utf8 p [] (buffer ++ joined chunks)
  split_head-sent p chunks buffer found =
      let le = find_head_end-le buffer p found in
      rw
        (
          take-append p buffer (joined chunks) (omega arith),
          drop-append (p + 4) buffer (joined chunks) (omega arith),
        )
        (after_head-sent (parse_head from_utf8 (take p buffer)) chunks (drop (p + 4) buffer))

  not_found-small :
      (p : ℕ) (rest buffer : List ℕ)
      → find_head_end (buffer ++ rest) ≡ some p
      → find_head_end buffer ≡ none
      → length buffer ≤ p + 3
  not_found-small p rest buffer found h = elim (Bool-cases (leb (p + 4) (length buffer))) [
    | inr e ↦ ground arith
    | inl e ↦
        let here = find_head_end-cut buffer rest p found (ground arith) in
        absurd (cc (sym here ∙ h))
  ]

  read_head-sent :
      (p : ℕ) (chunks : List (ℕ × List ℕ)) (buffer : List ℕ)
      → find_head_end (buffer ++ joined chunks) ≡ some p
      → p + 4 ≤ max_header_bytes
      → read_head from_utf8 (sent chunks) buffer
        ≡ split_head from_utf8 p [] (buffer ++ joined chunks)
  unfolding read_head
  read_head-sent p [] buffer found small =
      let here : find_head_end buffer ≡ some p = rw (append-nil buffer) at found in
      rw (append-nil buffer) (rw (read_head, here) refl)
  read_head-sent p ((b, bs) ∷ chunks) buffer found small =
      elim (Option-cases (find_head_end buffer)) [
        | inr (q, e) ↦
            let more = find_head_end-append buffer ((b ∷ bs) ++ joined chunks) q e in
            let same : q ≡ p = some-injective _ _ (sym more ∙ found) in
            let here : find_head_end buffer ≡ some p = e ∙ ap some same in
            rw (read_head, here) (split_head-sent p ((b, bs) ∷ chunks) buffer here)
        | inl e ↦
            let short = not_found-small p ((b ∷ bs) ++ joined chunks) buffer found e in
            let allowed : ltb max_header_bytes (length buffer) ≡ false = ground arith in
            let assoc = append_assoc buffer (b ∷ bs) (joined chunks) in
            rw (read_head, e, allowed, ← assoc)
              (read_head-sent p chunks (buffer ++ (b ∷ bs)) (ap find_head_end assoc ∙ found) small)
      ]

  -- When the head of a request ends within the first 32768 bytes, the result of reading it does not
  -- depend on how the bytes arrive: it is that of splitting all of them, at the first empty line, into
  -- a head and a body.
  pub read_request-sent :
      (chunks : List (ℕ × List ℕ)) (p : ℕ)
      → find_head_end (joined chunks) ≡ some p
      → p + 4 ≤ max_header_bytes
      → read_request from_utf8 (sent chunks)
        ≡ after_head
            (parse_head from_utf8 (take p (joined chunks)))
            []
            (drop (p + 4) (joined chunks))
  unfolding read_request
  read_request-sent chunks p found small = read_head-sent p chunks [] found small
