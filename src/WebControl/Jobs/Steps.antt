-- ===== src/WebControl/Jobs/Steps.antt =====
-- The requests and the work that reach the jobs of the web control panel (webcontrol/jobs.go).
use chat_wire.Common.{ℕ, ◌≡◌, String, Bool, none, List, [], ◌∷◌, string_eq}
use chat_wire.Common.Assoc.{lookup}
use chat_wire.WebControl.Jobs.{Jobs, Ask, StartWith, start_job, new_job, work, Ending}

-- What happens to the jobs: a request, or the work on a job up to its end.
pub data Step : Type 0 where
  asked : StartWith → Ask → Step
  worked : Bool → Bool → String → Ending → ℕ → Step

unfoldable pub step : (String → String) → Step → Jobs → Jobs
step digest (asked env a) j = (start_job digest env a j).0
step digest (worked started ended id ending now) j = (work started ended id ending now j).0

unfoldable pub steps : (String → String) → List Step → Jobs → Jobs
unfolding step
steps digest [] j = j
steps digest (s ∷ ss) j = steps digest ss (step digest s j)

-- The random token of a request is not that of a job.
abbrev pub NewToken : Step → Jobs → Type 0
NewToken (asked env a) j = lookup (new_job (λ s. s) env.token env.now a).id j.items ≡ none
NewToken (worked started ended id ending now) j = Unit {0}

abbrev pub NewTokens : (String → String) → List Step → Jobs → Type 0
NewTokens digest [] j = Unit {0}
NewTokens digest (s ∷ ss) j = NewToken s j × NewTokens digest ss (step digest s j)
