-- ===== src/Gateway/Budget.antt =====
-- src-tauri/src/coding_agent_gateway.rs: how many tokens an answer may have, and the retries of a request
-- to the model server. Token counts are not negative; a field of the request's JSON is absent, not an
-- integer, or an integer.
use open_mind_ai.Base.{
  ℕ, zero, suc, ◌+◌, ◌-◌, ◌/◌, ◌≤◌, ◌<◌, ◌≡◌, ◌≢◌, ◌⊎◌, refl, ap, min, max, true, false, ◌&&◌,
  Option, none, some, List, [], ◌∷◌, if◌then◌else◌, ltb, ◌==◌, length, inl, inr, Bool-cases, arith,
}
use open_mind_ai.Base.Int.{ℤ, pos, negsuc}
use open_mind_ai.Base.Text.{Text}

abbrev pub default_output_tokens : ℕ
default_output_tokens = 2048

abbrev pub min_output_tokens : ℕ
min_output_tokens = 16

abbrev pub max_output_tokens : ℕ
max_output_tokens = 8192

abbrev pub context_safety_margin : ℕ
context_safety_margin = 64

abbrev pub clamp_output : ℕ → ℕ
clamp_output n =
    if ltb n min_output_tokens
    then min_output_tokens
    else if ltb max_output_tokens n
    then max_output_tokens
    else n

unfoldable pub estimate_tokens : Text → ℕ
estimate_tokens t = max ((length t + 3) / 4) 1

-- The contents of the messages, one that is not a text being printed as JSON.
unfoldable pub estimate_prompt_tokens : List Text → ℕ
unfolding estimate_tokens
estimate_prompt_tokens [] = 0
estimate_prompt_tokens (content ∷ contents) =
    estimate_tokens content + 8 + estimate_prompt_tokens contents

abbrev pub or_else : Option (Option ℤ) → Option (Option ℤ) → Option (Option ℤ)
or_else none other = other
or_else (some value) other = some value

abbrev pub positive_of : Option (Option ℤ) → ℕ
positive_of none = default_output_tokens
positive_of (some none) = default_output_tokens
positive_of (some (some (pos n))) = if n == 0 then default_output_tokens else n
positive_of (some (some (negsuc n))) = default_output_tokens

unfoldable pub requested_max_tokens : Option (Option ℤ) → Option (Option ℤ) → ℕ
requested_max_tokens max_tokens max_completion_tokens =
    clamp_output (positive_of (or_else max_tokens max_completion_tokens))

unfoldable pub output_budget : ℕ → ℕ → ℕ → Option ℕ
output_budget requested slot_context prompt_tokens =
    let available = slot_context - prompt_tokens - context_safety_margin in
    if ltb available min_output_tokens then none else some (min (clamp_output requested) available)

-- A request is refused exactly if the prompt leaves less than 80 tokens of the context. Else the
-- answer gets 16 to 8192 tokens, which fit beside the prompt and 64 tokens: as many as are requested,
-- or all that fit.
pub output_budget_lem :
    (max_tokens max_completion_tokens : Option (Option ℤ)) (slot_context prompt_tokens : ℕ)
    → let requested = requested_max_tokens max_tokens max_completion_tokens in
      let budget = output_budget requested slot_context prompt_tokens in
      ((budget ≡ none) × (slot_context < prompt_tokens + 80))
      ⊎ ((b : ℕ) × (budget ≡ some b)
          × (16 ≤ b)
          × (b ≤ 8192)
          × (prompt_tokens + b + 64 ≤ slot_context)
          × ((b ≡ requested) ⊎ (prompt_tokens + b + 64 ≡ slot_context)))
unfolding requested_max_tokens output_budget
output_budget_lem max_tokens max_completion_tokens slot_context prompt_tokens =
    from_wish (positive_of (or_else max_tokens max_completion_tokens))
  where
    from_wish :
        (wish : ℕ)
        → let requested = clamp_output wish in
          let budget = output_budget requested slot_context prompt_tokens in
          ((budget ≡ none) × (slot_context < prompt_tokens + 80))
          ⊎ ((b : ℕ) × (budget ≡ some b)
              × (16 ≤ b)
              × (b ≤ 8192)
              × (prompt_tokens + b + 64 ≤ slot_context)
              × ((b ≡ requested) ⊎ (prompt_tokens + b + 64 ≡ slot_context)))
    from_wish wish =
        elim (Bool-cases
          (ltb (slot_context - prompt_tokens - context_safety_margin) min_output_tokens)) [
            | inl e ↦ inl (rw e refl, ground arith)
            | inr e ↦ inr (
              min (clamp_output (clamp_output wish))
                  (slot_context - prompt_tokens - context_safety_margin),
              rw e refl,
              ground arith,
              ground arith,
              ground arith,
              ground arith,
            )
          ]

-- The answers of the model server to the posts, in order: a failure to connect, or a status.
pub data Posted : Type 0 where
  unreachable : Posted
  answered : ℕ → Posted

pub data Outcome : Type 0 where
  unreachable_error : Outcome
  final_status : ℕ → Outcome

abbrev pub service_unavailable : ℕ
service_unavailable = 503

abbrev pub raised : ℕ → ℕ
raised status = if ltb status 200 then 502 else status

-- The outcome, or `none` while an answer is awaited.
unfoldable pub post_with_retry : ℕ → List Posted → Option Outcome
post_with_retry retry [] = none
post_with_retry retry (unreachable ∷ posts) = some unreachable_error
post_with_retry retry (answered status ∷ posts) =
    let again = post_with_retry (suc retry) posts in
    if status == service_unavailable && ltb retry 10
    then again
    else some (final_status (raised status))

-- The first answers are all 503.
abbrev pub AllBusy : ℕ → List Posted → Type 0
AllBusy zero posts = Unit {0}
AllBusy (suc n) [] = ⊥
AllBusy (suc n) (unreachable ∷ posts) = ⊥
AllBusy (suc n) (answered status ∷ posts) = (status ≡ 503) × AllBusy n posts

final-busy : (status : ℕ) → final_status (raised status) ≡ final_status 503 → status ≡ 503
final-busy status h = let e : raised status ≡ 503 = ap status_of h in ground arith
  where
    status_of : Outcome → ℕ
    status_of unreachable_error = 0
    status_of (final_status n) = n

not_unreachable : (n : ℕ) → unreachable_error ≢ final_status n
not_unreachable n h = cc h

retries_end :
    (left retry : ℕ) (posts : List Posted)
    → retry + left ≡ 10
    → left < length posts
    → (o : Outcome) × (post_with_retry retry posts ≡ some o)
      × ((o ≡ final_status 503) → AllBusy (suc left) posts)
unfolding post_with_retry
retries_end left retry [] e h = absurd (omega arith)
retries_end left retry (unreachable ∷ posts) e h =
    (unreachable_error, refl, λ busy. absurd (not_unreachable 503 busy))
retries_end zero retry (answered status ∷ posts) e h =
    let last : ltb retry 10 ≡ false = ground arith in
    let after_last : post_with_retry retry (answered status ∷ posts)
        ≡ some (final_status (raised status)) =
      elim (Bool-cases (status == 503)) [ inl k ↦ rw (k, last) refl | inr k ↦ rw k refl ] in
    (final_status (raised status), after_last, λ busy. (final-busy status busy, tt))
retries_end (suc left) retry (answered status ∷ posts) e h =
    let more : ltb retry 10 ≡ true = ground arith in
    elim (Bool-cases (status == 503)) [
      | inr k ↦ (
        final_status (raised status),
        rw k refl,
        λ busy. absurd (let same = final-busy status busy in ground arith),
      )
      | inl k ↦
          let (o, again, all) = retries_end left (suc retry) posts (omega arith) (omega arith) in
          (o, rw (k, more) again, λ busy. (ground arith, all busy))
    ]

-- A request is posted 11 times at most: with 11 answers there is an outcome, and the status 503 is the
-- outcome only if all 11 answers were 503.
pub post_with_retry-ends :
    (posts : List Posted)
    → 11 ≤ length posts
    → (o : Outcome) × (post_with_retry 0 posts ≡ some o)
      × ((o ≡ final_status 503) → AllBusy 11 posts)
post_with_retry-ends posts h = retries_end 10 0 posts refl (omega arith)
