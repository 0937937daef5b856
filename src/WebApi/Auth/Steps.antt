-- ===== src/WebApi/Auth/Steps.antt =====
-- What happens to the state of the web control panel's sign-in (webapi/auth.go), from one lock to the next.
use chat_wire.Common.{ℕ, Bool, List, [], ◌∷◌, Bytes}
use chat_wire.WebApi.Auth.{
  Auth, Session, SignIn, prune, issue_locked, landing, exchange_locked, check_locked, revoke,
  logout,
}

-- `looking` is the first half of `exchange` or `check`; `exchanging` and `checking` are the second halves, with what
-- the first half has found and what Discord has answered.
pub data Step : Type 0 where
  issuing : Bytes → Bytes → Bytes → ℕ → ℕ → Step
  landed : Bytes → ℕ → ℕ → Step
  looking : ℕ → Step
  exchanging : SignIn → ℕ → ℕ → Step
  checking : Bytes → Session → Bool → ℕ → ℕ → Step
  revoking : Bytes → Step
  logging_out : Bytes → Step

unfoldable pub step : Step → Auth → Auth
step (issuing token user interaction pruned now) a =
    (issue_locked token user interaction pruned now a).0
step (landed token pruned now) a = (landing token pruned now a).0
step (looking now) a = prune now a
step (exchanging s pruned now) a = (exchange_locked s pruned now a).0
step (checking key s touch pruned now) a = (check_locked key s touch pruned now a).0
step (revoking user) a = revoke user a
step (logging_out key) a = logout key a

unfoldable pub steps : List Step → Auth → Auth
unfolding step
steps [] a = a
steps (s ∷ ss) a = steps ss (step s a)

-- What is so of a state and stays so under every step is so after any steps.
pub steps-Invariant :
    (P : Auth → Type 0)
    → ((s : Step) (a : Auth) → P a → P (step s a))
    → (ss : List Step) (a : Auth) → P a
    → P (steps ss a)
unfolding steps
steps-Invariant P keep [] a h = h
steps-Invariant P keep (s ∷ ss) a h = steps-Invariant P keep ss (step s a) (keep s a h)
