-- ===== src/PromptContext/Compress.antt =====
-- A text that is cut is never longer than its limit.
use mathlib.Core.List.{reverse-cons}
use open_mind_ai.Base.{
  ℕ, zero, suc, ◌-◌, ◌*◌, ◌/◌, ◌≤◌, ◌≡◌, refl, [], ◌∷◌, ◌++◌, reverse, arith, length, take,
  length-append,
}
use open_mind_ai.Base.Text.{Text}
use open_mind_ai.PromptContext.{
  take_last, cut_head, cut_tail, cut_middle, compress_head, compress_tail, compress_middle,
  head_marker, tail_marker, middle_marker,
}

pub length-reverse : (s : Text) → length (reverse s) ≡ length s
length-reverse [] = refl
length-reverse (x ∷ s) =
    rw reverse-cons (omega (arith, length-append (reverse s) (x ∷ []), length-reverse s))

pub length-take : (n : ℕ) (s : Text) → length (take n s) ≤ n
length-take zero s = omega arith
length-take (suc n) [] = omega arith
length-take (suc n) (x ∷ s) = omega (arith, length-take n s)

length-take_last : (n : ℕ) (s : Text) → length (take_last n s) ≤ n
length-take_last n s = omega (arith, length-reverse (take n (reverse s)), length-take n (reverse s))

cut_head-le : (m v : Text) (limit : ℕ) → length (cut_head m v limit) ≤ limit
cut_head-le m v limit = ground (
  arith,
  length-take limit v,
  length-append (take (limit - length m) v) m,
  length-take (limit - length m) v,
)

cut_tail-le : (m v : Text) (limit : ℕ) → length (cut_tail m v limit) ≤ limit
cut_tail-le m v limit = ground (
  arith,
  length-take_last limit v,
  length-append m (take_last (limit - length m) v),
  length-take_last (limit - length m) v,
)

cut_middle-le : (m v : Text) (limit : ℕ) → length (cut_middle m v limit) ≤ limit
cut_middle-le m v limit =
    let payload : ℕ = limit - length m in
    let head_len : ℕ = payload * 2 / 3 in
    ground (
      arith,
      length-take limit v,
      length-append (take head_len v) (m ++ take_last (payload - head_len) v),
      length-append m (take_last (payload - head_len) v),
      length-take head_len v,
      length-take_last (payload - head_len) v,
    )

pub compress_head-le : (v : Text) (limit : ℕ) → length (compress_head v limit) ≤ limit
unfolding compress_head
compress_head-le v limit = cut_head-le head_marker v limit

pub compress_tail-le : (v : Text) (limit : ℕ) → length (compress_tail v limit) ≤ limit
unfolding compress_tail
compress_tail-le v limit = cut_tail-le tail_marker v limit

pub compress_middle-le : (v : Text) (limit : ℕ) → length (compress_middle v limit) ≤ limit
unfolding compress_middle
compress_middle-le v limit = cut_middle-le middle_marker v limit
