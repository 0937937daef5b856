-- ===== src/OperationStatus/Replaced.antt =====
-- Calls of an operation that another one has replaced (fact/operation_status.go).
use chat_wire.Common.{
  ◌≡◌, refl, String, str_eq, string_eq, Bool, true, false, Option, none, some, List, [], ◌∷◌,
  if◌then◌else◌, Bool-cases, inl, inr, arith, All,
}
use chat_wire.OperationStatus.State.{Notices, Discord, is_blank}
use chat_wire.OperationStatus.Steps.{Call, step, steps, step_stale, token_of}
use chat_wire.OperationStatus.Counting.{Ahead, Ahead-other}
use chat_wire.OperationStatus.Superseded.{begins_other, Ahead-step}

-- The call, or the goroutine, is for the operation.
abbrev pub is_token : String → Option String → Bool
is_token token none = false
is_token token (some t) = str_eq t token

-- The calls that are not for the operation.
unfoldable pub without : String → List Call → List Call
without token [] = []
without token (c ∷ cs) =
    let rest = without token cs in if is_token token (token_of c) then rest else c ∷ rest

module _ (trim_space : String → String) (d : Discord) (token : String)
    (blank : is_blank token ≡ false) where
  -- No call but the one that begins it makes the operation the current one.
  replaced_step :
      (c : Call) (n : Notices)
      → begins_other token c ≡ true
      → str_eq n.status.token token ≡ false
      → str_eq (step trim_space d c n).status.token token ≡ false
  unfolding Ahead
  replaced_step c n o h =
      let after =
        Ahead-step trim_space d token 0 blank 2 0 c n o
          (Ahead-other trim_space d token 0 2 0 n h) in
      elim (Bool-cases (str_eq (step trim_space d c n).status.token token)) [
        | inl e ↦
            let k = after ((string_eq.beq_iff (step trim_space d c n).status.token token).0 e) in
            absurd (omega (arith, k.1, k.2))
        | inr e ↦ e
      ]

  idle_call :
      (c : Call) (n : Notices) (o : Option String)
      → token_of c ≡ o
      → is_token token o ≡ true
      → str_eq n.status.token token ≡ false
      → step trim_space d c n ≡ n
  idle_call c n none e i h = absurd (ground arith)
  idle_call c n (some t) e i h = step_stale trim_space d t c n e (
      ground (
        arith,
        string_eq.beq_iff t token,
        string_eq.beq_iff n.status.token token,
        string_eq.beq_iff t n.status.token,
      ))

  -- Once an operation is not the current one any more, its calls and its goroutines have no effect: whatever
  -- calls come in whatever order, the state, what is told and the goroutines are those that come without
  -- them, if its token is not blank and no operation with the token begins again.
  pub steps-without :
      (cs : List Call) (n : Notices)
      → str_eq n.status.token token ≡ false
      → All (λ c. begins_other token c ≡ true) cs
      → steps trim_space d cs n ≡ steps trim_space d (without token cs) n
  unfolding steps without
  steps-without [] n h o = refl
  steps-without (c ∷ cs) n h o = elim (Bool-cases (is_token token (token_of c))) [
    | inl e ↦ rw (e, idle_call c n (token_of c) refl e h) (steps-without cs n h o.1)
    | inr e ↦ rw (e) (steps-without cs (step trim_space d c n) (replaced_step c n o.0 h) o.1)
  ]
