-- ===== src/Placement/Budget.antt =====
-- What a dedicated runtime next to Core promises.
use open_mind_ai.Base.{
  ℕ, ◌+◌, ◌*◌, ◌/◌, ◌≤◌, ◌<◌, ◌≡◌, ◌≢◌, ◌⊎◌, ◌↔◌, gib, u64_max, Bool, true, false, Option, some,
  arith,
}
use open_mind_ai.Launch.{ModelLaunchConfig, LaunchPlan}
use open_mind_ai.Placement.{
  RuntimeMode, automatic, only_shared, prefer_dedicated, dedicated, no_gpu, partial, Footprint,
  PlacementDecision, on_gpu, from_config, decide_placement, confirm_available_memory,
  plan_placement,
}

-- With Core installed, a dedicated runtime is chosen only if both models fit together in three
-- fifths of the RAM; unless the agent is moved to the CPU, neither model is offloaded partly and
-- what both put on the adapter is within its budget.
pub decide_placement-dedicated :
    (mode : RuntimeMode) (core agent : Footprint) (total : ℕ) (vram : Option ℕ)
    → total ≤ u64_max
    → (decide_placement mode (some core) agent total vram).placement ≡ dedicated
    → (core.bytes + agent.bytes ≤ total / 5 * 3)
      × (mode ≢ only_shared)
      × (((decide_placement mode (some core) agent total vram).agent_on_cpu ≡ true)
          ⊎ ((core.gpu ≢ partial)
              × (agent.gpu ≢ partial)
              × (((core.gpu ≡ no_gpu) × (agent.gpu ≡ no_gpu))
                  ⊎ ((budget : ℕ) × (vram ≡ some budget) × (on_gpu core + on_gpu agent ≤ budget)))))
unfolding decide_placement
decide_placement-dedicated mode core agent total vram h e = ground arith

-- In automatic mode with Core installed the agent gets its own runtime exactly when the RAM is known
-- and takes both models in three fifths of it, neither is offloaded partly, and what they put on the
-- adapter, if anything, is within a known budget or the budget is the largest u64.
pub decide_placement-automatic :
    (core agent : Footprint) (total : ℕ) (vram : Option ℕ)
    → total ≤ u64_max
    → ((decide_placement automatic (some core) agent total vram).placement ≡ dedicated) ↔ (
        (0 < total)
        × (core.bytes + agent.bytes ≤ total / 5 * 3)
        × (core.gpu ≢ partial)
        × (agent.gpu ≢ partial)
        × (((core.gpu ≡ no_gpu) × (agent.gpu ≡ no_gpu))
            ⊎ ((budget : ℕ) × (vram ≡ some budget)
                × ((on_gpu core + on_gpu agent ≤ budget) ⊎ (u64_max ≤ budget)))))
unfolding decide_placement
decide_placement-automatic core agent total vram h = (λ e. ground arith, λ e. ground arith)

confirm-dedicated :
    (d : PlacementDecision) (bytes : ℕ) (available : Option ℕ) (resident : Bool)
    → (confirm_available_memory d bytes available resident).placement ≡ dedicated
    → resident ≡ false
    → (a : ℕ) × (available ≡ some a) × ((bytes + gib ≤ a) ⊎ (u64_max ≤ a))
unfolding confirm_available_memory
confirm-dedicated d bytes available resident e f = ground arith

confirm-on_cpu :
    (d : PlacementDecision) (bytes : ℕ) (available : Option ℕ) (resident : Bool)
    → (confirm_available_memory d bytes available resident).agent_on_cpu ≡ true
    → confirm_available_memory d bytes available resident ≡ d
unfolding confirm_available_memory
confirm-on_cpu d bytes available resident e = ground arith

decide_placement-on_cpu :
    (mode : RuntimeMode) (core : Option Footprint) (agent : Footprint) (total : ℕ) (vram : Option ℕ)
    → (decide_placement mode core agent total vram).agent_on_cpu ≡ true
    → (mode ≡ prefer_dedicated)
      × ((decide_placement mode core agent total vram).placement ≡ dedicated)
unfolding decide_placement
decide_placement-on_cpu mode core agent total vram e = ground arith

confirmed-on_cpu :
    (mode : RuntimeMode) (core : Option Footprint) (agent : Footprint) (total : ℕ) (vram : Option ℕ)
    (bytes : ℕ) (available : Option ℕ) (resident : Bool)
    → let d =
        confirm_available_memory
          (decide_placement mode core agent total vram)
          bytes
          available
          resident in
      d.agent_on_cpu ≡ true → (mode ≡ prefer_dedicated) × (d.placement ≡ dedicated)
confirmed-on_cpu mode core agent total vram bytes available resident e =
    let first : PlacementDecision = decide_placement mode core agent total vram in
    let same : confirm_available_memory first bytes available resident ≡ first =
      confirm-on_cpu first bytes available resident e in
    let on_cpu : first.agent_on_cpu ≡ true = rw same at e in
    let (chosen, own) = decide_placement-on_cpu mode core agent total vram on_cpu in
    (chosen, rw same own)

-- A plan for a dedicated runtime that is not resident leaves 1 GiB of the memory that is available
-- now, unless that is the largest u64 or more.
pub plan_placement-memory :
    (mode : RuntimeMode) (core_plan : Option LaunchPlan) (model_bytes : ℕ)
    (config : ModelLaunchConfig) (total : ℕ) (available : Option ℕ) (resident : Bool)
    → (plan_placement mode core_plan model_bytes config total available resident).runtime.placement
      ≡ dedicated
    → resident ≡ false
    → (a : ℕ) × (available ≡ some a)
      × (((from_config model_bytes config).bytes + gib ≤ a) ⊎ (u64_max ≤ a))
unfolding plan_placement
plan_placement-memory mode core_plan model_bytes config total available resident e f =
    confirm-dedicated _ _ available resident e f
