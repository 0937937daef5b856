-- ===== src/Common/Result.antt =====
-- A Go function's value or its error, and the chains that stop at the first error.
use mathlib.Core.Path.{◌≡◌, refl}
use mathlib.Core.Bool.{Bool, true, false}
use mathlib.Core.Option.{Option, none, some}
use native.Mathlib.Omega.{arith}
use chat_wire.Common.Tests.{if◌then◌else◌}

pub data Result {ℓ κ} (E : Type ℓ) (A : Type κ) : Type (ℓ ⊔ κ) where
  ok : A → Result E A
  err : E → Result E A

module _ {ℓ} {E : Type ℓ} where
  infixl 5 ◌>>=◌ ◌>>◌
  abbrev pub ◌>>=◌ {κ μ} : {A : Type κ} {B : Type μ} → Result E A → (A → Result E B) → Result E B
  ok value >>= next = next value
  err why >>= next = err why

  abbrev pub ◌>>◌ {κ} : {B : Type κ} → Result E (Unit {0}) → Result E B → Result E B
  checked >> next = checked >>= λ _. next

  abbrev pub is_ok {κ} : {A : Type κ} → Result E A → Bool
  is_ok (ok a) = true
  is_ok (err e) = false

  -- `if bad { return error }`.
  abbrev pub refuse_if : Bool → E → Result E (Unit {0})
  refuse_if true e = err e
  refuse_if false e = ok tt

  abbrev pub some_or {κ} : {A : Type κ} → E → Option A → Result E A
  some_or e none = err e
  some_or e (some a) = ok a

  pub ok-inj {κ} : {A : Type κ} (a b : A) → ◌≡◌ {A = Result E A} (ok a) (ok b) → a ≡ b
  ok-inj a b h = ground arith

  -- A chain that succeeds has steps that succeed.
  pub bind-ok {κ μ} :
      {A : Type κ} {B : Type μ} (m : Result E A) (f : A → Result E B) (b : B)
      → m >>= f ≡ ok b
      → (a : A) × (m ≡ ok a) × (f a ≡ ok b)
  bind-ok (ok a) f b h = (a, refl, h)
  bind-ok (err e) f b h = ground arith

  pub refuse_if-ok {κ} :
      {B : Type κ} (bad : Bool) (e : E) (k : Result E B) (b : B)
      → (refuse_if bad e >> k) ≡ ok b
      → (bad ≡ false) × (k ≡ ok b)
  refuse_if-ok true e k b h = ground arith
  refuse_if-ok false e k b h = (refl, h)

  pub some_or-ok {κ} : {A : Type κ} (e : E) (o : Option A) (a : A) → some_or e o ≡ ok a → o ≡ some a
  some_or-ok e none a h = ground arith
  some_or-ok e (some b) a h = ground arith

  -- `if bad { return error }`, written as a conditional.
  pub if-ok {κ} :
      {A : Type κ} (bad : Bool) (e : E) (k : Result E A) (a : A)
      → (if bad then err e else k) ≡ ok a
      → (bad ≡ false) × (k ≡ ok a)
  if-ok true e k a h = ground arith
  if-ok false e k a h = (refl, h)
