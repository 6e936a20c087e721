-- ===== src/Launch/Context.antt =====
-- The context window that the planner chooses.
use mathlib.Core.List.{Memᴰ}
use open_mind_ai.Base.{ℕ, ◌+◌, ◌*◌, ◌≤◌, ◌≡◌, max, ◌⊎◌, inl, inr, gib, arith}
use native.Mathlib.Decide.{dec_lt}
use open_mind_ai.Launch.{candidates, choose_context_window}

-- The window lies between 4096 and 32768 and does not pass the model's limit, unless that is below
-- 4096; a window other than 4096 leaves room for the model and 2 GiB in the available memory.
pub choose_context_window_bounds :
    (model_limit model_bytes available_ram : ℕ)
    → let c = choose_context_window model_limit model_bytes available_ram in
      (4096 ≤ c)
      × (c ≤ 32768)
      × (c ≤ max 4096 model_limit)
      × ((c ≡ 4096) ⊎ (c * 196608 + model_bytes + 2 * gib ≤ available_ram))
unfolding choose_context_window
choose_context_window_bounds model_limit model_bytes available_ram =
    (ground arith, ground arith, ground arith, ground arith)

-- No larger supported window would do: each of the four sizes that is within the model's limit and
-- leaves room for the model and 2 GiB is at most the window chosen.
pub choose_context_window_largest :
    (model_limit model_bytes available_ram d : ℕ)
    → Memᴰ d candidates
    → d ≤ max 4096 model_limit
    → d * 196608 + model_bytes + 2 * gib ≤ available_ram
    → d ≤ choose_context_window model_limit model_bytes available_ram
unfolding choose_context_window
choose_context_window_largest l m r d (Memᴰ.head e) h k = ground arith
choose_context_window_largest l m r d (Memᴰ.tail (Memᴰ.head e)) h k = ground arith
choose_context_window_largest l m r d (Memᴰ.tail (Memᴰ.tail (Memᴰ.head e))) h k = ground arith
choose_context_window_largest l m r d (Memᴰ.tail (Memᴰ.tail (Memᴰ.tail (Memᴰ.head e)))) h k =
    ground arith
choose_context_window_largest l m r d (Memᴰ.tail (Memᴰ.tail (Memᴰ.tail (Memᴰ.tail h')))) h k =
    elim h' [ ]

choose_context_window-candidate :
    (l m r : ℕ)
    → let c = choose_context_window l m r in (c ≡ 32768) ⊎ ((c ≡ 16384) ⊎ ((c ≡ 8192) ⊎ (c ≡ 4096)))
unfolding choose_context_window
choose_context_window-candidate l m r = ground arith

Memᴰ-candidates :
    {d : ℕ} → (d ≡ 32768) ⊎ ((d ≡ 16384) ⊎ ((d ≡ 8192) ⊎ (d ≡ 4096))) → Memᴰ d candidates
Memᴰ-candidates (inl e) = Memᴰ.head e
Memᴰ-candidates (inr (inl e)) = Memᴰ.tail (Memᴰ.head e)
Memᴰ-candidates (inr (inr (inl e))) = Memᴰ.tail (Memᴰ.tail (Memᴰ.head e))
Memᴰ-candidates (inr (inr (inr e))) = Memᴰ.tail (Memᴰ.tail (Memᴰ.tail (Memᴰ.head e)))

-- A larger limit, a smaller model and more memory never shrink the window.
choose_context_window_mono :
    (l l' m m' r r' : ℕ)
    → l ≤ l'
    → m' ≤ m
    → r ≤ r'
    → choose_context_window l m r ≤ choose_context_window l' m' r'
choose_context_window_mono l l' m m' r r' hl hm hr =
    let c : ℕ = choose_context_window l m r in
    let (_, _, limited, fits) = choose_context_window_bounds l m r in
    elim (dec_lt 4096 c) [
      | yes large ↦
          choose_context_window_largest l' m' r' c
            (Memᴰ-candidates (choose_context_window-candidate l m r)) (omega arith)
            (ground (arith, fits))
      | no small ↦ omega (arith, (choose_context_window_bounds l' m' r').0)
    ]
