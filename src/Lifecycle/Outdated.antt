-- ===== src/Lifecycle/Outdated.antt =====
-- Reports of a process that has been followed by another one (fact/lifecycle.go), in any run.
use chat_wire.Common.{
  ℕ, ◌≡◌, Bool, false, ◌==◌, Option, none, some, List, [], ◌∷◌, if◌then◌else◌, ◌⊎◌,
}
use chat_wire.Lifecycle.State.{World}
use chat_wire.Lifecycle.Execute.{next_generation}
use chat_wire.Lifecycle.Run.{
  Input, ready_event, goodbye_event, exit_event, progress_event, health_event, soft_mod_hello,
  request, round, shut_down,
}

-- The generation that an input reports of.
abbrev pub generation_of : Input → Option ℕ
generation_of (ready_event now gen) = some gen
generation_of (goodbye_event gen) = some gen
generation_of (exit_event now gen err) = some gen
generation_of (progress_event evt) = some evt.generation
generation_of (health_event now alive evt) = some evt.generation
generation_of (soft_mod_hello gen) = some gen
generation_of (request r) = none
generation_of (round env) = none
generation_of shut_down = none

abbrev pub is_report : ℕ → Option ℕ → Bool
is_report g none = false
is_report g (some gen) = gen == g

-- The inputs that are no report of a generation.
unfoldable pub without_reports : ℕ → List Input → List Input
without_reports g [] = []
without_reports g (i ∷ is) =
    let rest = without_reports g is in if is_report g (generation_of i) then rest else i ∷ rest

-- The generation is the same, or the next one.
abbrev Near : ℕ → World → Type 0
Near gen w = (w.current_generation ≡ gen) ⊎ (w.current_generation ≡ next_generation gen)
