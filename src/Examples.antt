-- ===== src/Examples.antt =====
-- Tests of the definitions, and the theorems at concrete inputs.
mod ConcreteJson
mod SamplingExamples
mod LaunchExamples
mod PlacementExamples
mod SecurityExamples
mod PatchExamples
mod StartupExamples
mod GlobExamples
mod GatewayExamples
mod OwnershipExamples
mod ImageJobsExamples
mod GuardsExamples
mod ControlExamples
mod PromptContextExamples
