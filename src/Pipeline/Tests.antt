-- ===== src/Pipeline/Tests.antt =====
-- A tick of the small catalog, applied.
use honeypot_fyp.Prelude.{ℕ, String, List, some, ◌≡◌, ◌⊎◌, refl, true, member, string_eq}
use honeypot_fyp.Common.Dict.{get, of_pairs}
use honeypot_fyp.Common.Floats.{micro_floats}
use honeypot_fyp.Binding.Repository.{get_by_binding}
use honeypot_fyp.Binding.Service.{ok}
use honeypot_fyp.Controller.Tick.{tick}
use honeypot_fyp.Controller.Tests.{service, request}
use honeypot_fyp.Orchestrator.Runtime.{OrchestratorApplyResponse}
use honeypot_fyp.Orchestrator.Steps.{World}
use honeypot_fyp.Orchestrator.Service.{apply}
use honeypot_fyp.Orchestrator.Tests.{orchestrator, world, bound}
use honeypot_fyp.Pipeline.Entitled.{IsGained, apply-tick}

apply-tick_example :
    let actions = (tick service request).actions in
    (response : OrchestratorApplyResponse ℕ) × (w' : World (List String)) × (apply orchestrator
        (record { binding_id = "b-1"; actions = actions })
        world
      ≡ ok (response, w'))
    × (get_by_binding "b-1" w'.records ≡ some response.binding)
    × ((x : String)
        → member x response.binding.unlocked_assets ≡ true
        → (member x bound.unlocked_assets ≡ true)
          ⊎ IsGained service request bound.unlocked_assets x actions)
unfolding get_by_binding of_pairs get
apply-tick_example = apply-tick service request orchestrator world bound refl refl
