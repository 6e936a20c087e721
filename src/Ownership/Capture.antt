-- ===== src/Ownership/Capture.antt =====
-- The captured output of a renderer in src-tauri/src/process_ownership.rs.
use mathlib.Core.List.{append-nil, append_assoc}
use open_mind_ai.Base.{
  ℕ, zero, suc, ◌+◌, ◌-◌, ◌≤◌, ◌≡◌, refl, sym, ◌∙◌, ap, ap₂, ◌||◌, List, [], ◌∷◌, ◌++◌, ltb, ◌==◌,
  length, length-append, Bool-cases, inl, inr, arith,
}
use open_mind_ai.Ownership.{
  max_renderer_log_bytes, max_renderer_line_bytes, drop, keep_last, Progress, pass_parts, pass_line,
  read_byte, read_bytes, capture_loop, capture_renderer_stream,
}

abbrev pub joined : List (List ℕ) → List ℕ
joined [] = []
joined (chunk ∷ chunks) = chunk ++ joined chunks

length-drop : (n : ℕ) (bs : List ℕ) → length (drop n bs) ≡ length bs - n
length-drop zero bs = omega arith
length-drop (suc n) [] = omega arith
length-drop (suc n) (b ∷ bs) = omega (arith, length-drop n bs)

drop-append : (n : ℕ) (a b : List ℕ) → n ≤ length a → drop n a ++ b ≡ drop n (a ++ b)
drop-append zero a b h = refl
drop-append (suc n) [] b h = absurd (omega arith)
drop-append (suc n) (x ∷ a) b h = drop-append n a b (omega arith)

drop-nil : (n : ℕ) → drop n [] ≡ []
drop-nil zero = refl
drop-nil (suc n) = refl

drop-drop : (m n : ℕ) (s : List ℕ) → drop m (drop n s) ≡ drop (n + m) s
drop-drop m zero s = ap (λ k. drop k s) (omega arith)
drop-drop m (suc n) [] = drop-nil m ∙ sym (drop-nil (suc n + m))
drop-drop m (suc n) (x ∷ s) =
    let e : suc n + m ≡ suc (n + m) = omega arith in rw e (drop-drop m n s)

keep_last-append : (n : ℕ) (a b : List ℕ) → keep_last n (keep_last n a ++ b) ≡ keep_last n (a ++ b)
keep_last-append n a b =
    let k : ℕ = length a - n in
    let bytes = length-append a b in
    let left = length-drop k (a ++ b) in
    let same : k + (length (drop k (a ++ b)) - n) ≡ length (a ++ b) - n = omega arith in
    ap (keep_last n) (drop-append k a b (omega arith))
    ∙ drop-drop (length (drop k (a ++ b)) - n) k (a ++ b)
    ∙ ap (λ m. drop m (a ++ b)) same

read_bytes-append :
    (a b : List ℕ) (p : Progress) → read_bytes (a ++ b) p ≡ read_bytes b (read_bytes a p)
read_bytes-append [] b p = refl
read_bytes-append (x ∷ a) b p = read_bytes-append a b (read_byte x p)

abbrev none_read : Progress
none_read = record { partial_line = []; lines = [] }

capture_loop-joined :
    (chunks : List (List ℕ)) (before : List ℕ) (p : Progress)
    → capture_loop chunks (keep_last max_renderer_log_bytes before) p ≡ (
      keep_last max_renderer_log_bytes (before ++ joined chunks),
      pass_line (read_bytes (joined chunks) p),
    )
unfolding capture_loop
capture_loop-joined [] before p = rw (append-nil before) refl
capture_loop-joined (chunk ∷ chunks) before p =
    ap (λ captured. capture_loop chunks captured (read_bytes chunk p))
      (keep_last-append max_renderer_log_bytes before chunk)
    ∙ capture_loop-joined chunks (before ++ chunk) (read_bytes chunk p)
    ∙ ap₂ (λ bytes progress. (keep_last max_renderer_log_bytes bytes, pass_line progress))
        (append_assoc before chunk (joined chunks))
        (sym (read_bytes-append chunk (joined chunks) p))

-- A line has 1 to 2048 bytes.
abbrev pub AllShort : List (List ℕ) → Type 0
AllShort [] = Unit {0}
AllShort (line ∷ lines) =
    (1 ≤ length line) × (length line ≤ max_renderer_line_bytes) × AllShort lines

pass_parts-AllShort :
    (bs : List ℕ) (ls : List (List ℕ))
    → length bs ≤ max_renderer_line_bytes
    → AllShort ls
    → AllShort (pass_parts bs ls).lines
      × (length (pass_parts bs ls).partial_line ≤ max_renderer_line_bytes)
pass_parts-AllShort [] ls h all = (all, omega arith)
pass_parts-AllShort (b ∷ bs) ls h all = ((omega arith, h, all), omega arith)

read_byte-AllShort :
    (byte : ℕ) (p : Progress)
    → AllShort p.lines
    → length p.partial_line ≤ max_renderer_line_bytes
    → AllShort (read_byte byte p).lines
      × (length (read_byte byte p).partial_line ≤ max_renderer_line_bytes)
read_byte-AllShort byte p all h = elim (Bool-cases (byte == 13 || byte == 10)) [
  | inl e ↦ rw e (pass_parts-AllShort p.partial_line p.lines h all)
  | inr e ↦ elim (Bool-cases (ltb (length p.partial_line) max_renderer_line_bytes)) [
    | inl f ↦ rw (e, f) (all, ground (arith, length-append p.partial_line (byte ∷ [])))
    | inr f ↦ rw (e, f) (all, omega arith)
  ]
]

read_bytes-AllShort :
    (bs : List ℕ) (p : Progress)
    → AllShort p.lines
    → length p.partial_line ≤ max_renderer_line_bytes
    → AllShort (pass_line (read_bytes bs p)).lines
read_bytes-AllShort [] p all h = (pass_parts-AllShort p.partial_line p.lines h all).0
read_bytes-AllShort (b ∷ bs) p all h =
    let (all', h') = read_byte-AllShort b p all h in read_bytes-AllShort bs (read_byte b p) all' h'

-- However the output arrives, what is captured of it are its last 32768 bytes, and the lines passed on
-- are those of the whole output, of 1 to 2048 bytes each.
pub capture_renderer_stream_lem :
    (chunks : List (List ℕ))
    → let r = capture_renderer_stream chunks in
      (r.0 ≡ keep_last max_renderer_log_bytes (joined chunks))
      × (length r.0 ≤ max_renderer_log_bytes)
      × (r.1 ≡ pass_line (read_bytes (joined chunks) (record { partial_line = []; lines = [] })))
      × AllShort r.1.lines
unfolding capture_renderer_stream
capture_renderer_stream_lem chunks =
    let whole = capture_loop-joined chunks [] none_read in
    let bytes = ap (λ r. r.0) whole in
    let passed = ap (λ r. r.1) whole in
    let kept = length-drop (length (joined chunks) - max_renderer_log_bytes) (joined chunks) in
    (
      bytes,
      rw bytes (omega arith),
      passed,
      rw passed (read_bytes-AllShort (joined chunks) none_read tt (omega arith)),
    )
