-- ===== src/ModUpdate/Order.antt =====
-- What a comparison of versions means (modupdate/util.go).
use chat_wire.Common.{◌≡◌, ◌↔◌, ◌⊎◌, inl, inr, refl, sym, ap, ◌∙◌, arith, Bool, true, false, Bytes}
use chat_wire.Common.Int.{ℤ, pos, negsuc, zero_ℤ, beq_ℤ, beq_ℤ_iff, ltb_ℤ}
use chat_wire.Common.Result.{Result, ok, err}
use chat_wire.ModUpdate.Versions.{
  Operator, eo_error, eo_less, eo_lesseq, eo_equal, eo_greatereq, eo_greater, VersionError,
  invalid_comparison, IntVersion, version_to_int, compare_versions, check_parsed, check_version,
  parse_operator, operator_to_string,
}

-- Versions are compared by their first parts, then by the second, then by the third.
abbrev pub Less : ℤ → ℤ → Type 0
Less a b = ltb_ℤ a b ≡ true

abbrev pub Before : IntVersion → IntVersion → Type 0
Before a b =
    Less a.major b.major
    ⊎ ((a.major ≡ b.major) × (Less a.minor b.minor ⊎ ((a.minor ≡ b.minor) × Less a.patch b.patch)))

-- What an operator says of a version `r` with respect to `l`.
abbrev pub Means : Operator → IntVersion → IntVersion → Type 0
Means eo_less r l = Before r l
Means eo_lesseq r l = Before r l ⊎ (r ≡ l)
Means eo_equal r l = r ≡ l
Means eo_greatereq r l = Before l r ⊎ (r ≡ l)
Means eo_greater r l = Before l r
Means eo_error r l = ⊥

tri_ℤ : (a b : ℤ) → Less a b ⊎ ((a ≡ b) ⊎ Less b a)
tri_ℤ (pos m) (pos n) = ground arith
tri_ℤ (pos m) (negsuc n) = ground arith
tri_ℤ (negsuc m) (pos n) = ground arith
tri_ℤ (negsuc m) (negsuc n) = ground arith

irrefl_ℤ : (a : ℤ) → ltb_ℤ a a ≡ false
irrefl_ℤ (pos m) = ground arith
irrefl_ℤ (negsuc m) = ground arith

asym_ℤ : (a b : ℤ) → Less a b → ltb_ℤ b a ≡ false
asym_ℤ (pos m) (pos n) h = ground arith
asym_ℤ (pos m) (negsuc n) h = ground arith
asym_ℤ (negsuc m) (pos n) h = ground arith
asym_ℤ (negsuc m) (negsuc n) h = ground arith

-- The answers where the second version is before the first, the same, or behind it.
abbrev before_answer : Operator → Result VersionError Bool
before_answer eo_less = ok true
before_answer eo_lesseq = ok true
before_answer eo_error = err invalid_comparison
before_answer _ = ok false

abbrev same_answer : Operator → Result VersionError Bool
same_answer eo_less = ok false
same_answer eo_greater = ok false
same_answer eo_error = err invalid_comparison
same_answer _ = ok true

abbrev behind_answer : Operator → Result VersionError Bool
behind_answer eo_greater = ok true
behind_answer eo_greatereq = ok true
behind_answer eo_error = err invalid_comparison
behind_answer _ = ok false

beq-Less : (a b : ℤ) → Less a b → beq_ℤ a b ≡ false
beq-Less (pos m) (pos n) h = ground arith
beq-Less (pos m) (negsuc n) h = ground arith
beq-Less (negsuc m) (pos n) h = ground arith
beq-Less (negsuc m) (negsuc n) h = ground arith

beq_more : (a b : ℤ) → Less b a → beq_ℤ a b ≡ false
beq_more (pos m) (pos n) h = ground arith
beq_more (pos m) (negsuc n) h = ground arith
beq_more (negsuc m) (pos n) h = ground arith
beq_more (negsuc m) (negsuc n) h = ground arith

compare_before : (o : Operator) (a b : ℤ) → Less b a → compare_versions o a b ≡ before_answer o
compare_before eo_less a b h = rw (h)
compare_before eo_lesseq a b h = rw (asym_ℤ b a h)
compare_before eo_equal a b h = rw (beq-Less b a h)
compare_before eo_greatereq a b h = rw (h)
compare_before eo_greater a b h = rw (asym_ℤ b a h)
compare_before eo_error a b h = refl

compare_behind : (o : Operator) (a b : ℤ) → Less a b → compare_versions o a b ≡ behind_answer o
compare_behind eo_less a b h = rw (asym_ℤ a b h)
compare_behind eo_lesseq a b h = rw (h)
compare_behind eo_equal a b h = rw (beq_more b a h)
compare_behind eo_greatereq a b h = rw (asym_ℤ a b h)
compare_behind eo_greater a b h = rw (h)
compare_behind eo_error a b h = refl

compare_zero : (o : Operator) → compare_versions o zero_ℤ zero_ℤ ≡ same_answer o
compare_zero eo_less = refl
compare_zero eo_lesseq = refl
compare_zero eo_equal = refl
compare_zero eo_greatereq = refl
compare_zero eo_greater = refl
compare_zero eo_error = refl

beq_of : (a b : ℤ) → a ≡ b → beq_ℤ a b ≡ true
beq_of a b h = (beq_ℤ_iff a b).1 h

check_parsed-Before :
    (o : Operator) (l r : IntVersion) → Before r l → check_parsed o l r ≡ before_answer o
check_parsed-Before o l r (inl h) =
    rw (beq-Less r.major l.major h) (compare_before o l.major r.major h)
check_parsed-Before o l r (inr (e, inl h)) =
    rw (beq_of r.major l.major e, beq-Less r.minor l.minor h) (compare_before o l.minor r.minor h)
check_parsed-Before o l r (inr (e, inr (e', h))) =
    rw (beq_of r.major l.major e, beq_of r.minor l.minor e', beq-Less r.patch l.patch h)
      (compare_before o l.patch r.patch h)

check_behind : (o : Operator) (l r : IntVersion) → Before l r → check_parsed o l r ≡ behind_answer o
check_behind o l r (inl h) = rw (beq_more r.major l.major h) (compare_behind o l.major r.major h)
check_behind o l r (inr (e, inl h)) =
    rw (beq_of r.major l.major (sym e), beq_more r.minor l.minor h)
      (compare_behind o l.minor r.minor h)
check_behind o l r (inr (e, inr (e', h))) =
    rw (beq_of r.major l.major (sym e), beq_of r.minor l.minor (sym e'), beq_more r.patch l.patch h)
      (compare_behind o l.patch r.patch h)

check_same : (o : Operator) (l r : IntVersion) → r ≡ l → check_parsed o l r ≡ same_answer o
check_same o l r h =
    rw
      (
        beq_of r.major l.major (ap (λ (v : IntVersion). v.major) h),
        beq_of r.minor l.minor (ap (λ (v : IntVersion). v.minor) h),
        beq_of r.patch l.patch (ap (λ (v : IntVersion). v.patch) h),
      )
      (compare_zero o)

same_parts : (a b : IntVersion) → a.major ≡ b.major → a.minor ≡ b.minor → a.patch ≡ b.patch → a ≡ b
same_parts a b e e' e'' i = record { major = e i; minor = e' i; patch = e'' i }

either_way : (a b : IntVersion) → Before a b ⊎ ((a ≡ b) ⊎ Before b a)
either_way a b = elim (tri_ℤ a.major b.major) [
  | inl h ↦ inl (inl h)
  | inr (inr h) ↦ inr (inr (inl h))
  | inr (inl e) ↦ elim (tri_ℤ a.minor b.minor) [
    | inl h ↦ inl (inr (e, inl h))
    | inr (inr h) ↦ inr (inr (inr (sym e, inl h)))
    | inr (inl e') ↦ elim (tri_ℤ a.patch b.patch) [
      | inl h ↦ inl (inr (e, inr (e', h)))
      | inr (inr h) ↦ inr (inr (inr (sym e, inr (sym e', h))))
      | inr (inl e'') ↦ inr (inl (same_parts a b e e' e''))
    ]
  ]
]

Means-check_parsed : (o : Operator) (l r : IntVersion) → Means o r l → check_parsed o l r ≡ ok true
Means-check_parsed eo_less l r h = check_parsed-Before eo_less l r h
Means-check_parsed eo_lesseq l r (inl h) = check_parsed-Before eo_lesseq l r h
Means-check_parsed eo_lesseq l r (inr e) = check_same eo_lesseq l r e
Means-check_parsed eo_equal l r e = check_same eo_equal l r e
Means-check_parsed eo_greatereq l r (inl h) = check_behind eo_greatereq l r h
Means-check_parsed eo_greatereq l r (inr e) = check_same eo_greatereq l r e
Means-check_parsed eo_greater l r h = check_behind eo_greater l r h
Means-check_parsed eo_error l r h = absurd h

before_answer-Means :
    (o : Operator) (l r : IntVersion) → Before r l → before_answer o ≡ ok true → Means o r l
before_answer-Means eo_less l r b h = b
before_answer-Means eo_lesseq l r b h = inl b
before_answer-Means eo_equal l r b h = absurd (ground arith)
before_answer-Means eo_greatereq l r b h = absurd (ground arith)
before_answer-Means eo_greater l r b h = absurd (ground arith)
before_answer-Means eo_error l r b h = absurd (ground arith)

same_answer-Means :
    (o : Operator) (l r : IntVersion) → r ≡ l → same_answer o ≡ ok true → Means o r l
same_answer-Means eo_less l r e h = absurd (ground arith)
same_answer-Means eo_lesseq l r e h = inr e
same_answer-Means eo_equal l r e h = e
same_answer-Means eo_greatereq l r e h = inr e
same_answer-Means eo_greater l r e h = absurd (ground arith)
same_answer-Means eo_error l r e h = absurd (ground arith)

behind_answer-Means :
    (o : Operator) (l r : IntVersion) → Before l r → behind_answer o ≡ ok true → Means o r l
behind_answer-Means eo_less l r b h = absurd (ground arith)
behind_answer-Means eo_lesseq l r b h = absurd (ground arith)
behind_answer-Means eo_equal l r b h = absurd (ground arith)
behind_answer-Means eo_greatereq l r b h = inl b
behind_answer-Means eo_greater l r b h = b
behind_answer-Means eo_error l r b h = absurd (ground arith)

check_parsed-Means : (o : Operator) (l r : IntVersion) → check_parsed o l r ≡ ok true → Means o r l
check_parsed-Means o l r h = elim (either_way r l) [
  | inl b ↦ before_answer-Means o l r b (sym (check_parsed-Before o l r b) ∙ h)
  | inr (inl e) ↦ same_answer-Means o l r e (sym (check_same o l r e) ∙ h)
  | inr (inr b) ↦ behind_answer-Means o l r b (sym (check_behind o l r b) ∙ h)
]

-- For two versions that can be read, `checkVersion` answers true exactly if the remote version stands to the local one
-- as the operator says, where the first of the three numbers that differs decides; an operator that is none
-- is never true.
pub check_version_iff :
    (o : Operator) (local remote : Bytes) (l r : IntVersion)
    → version_to_int local ≡ ok l
    → version_to_int remote ≡ ok r
    → (check_version o local remote ≡ ok true) ↔ Means o r l
unfolding check_version
check_version_iff o local remote l r e e' =
    rw (e, e') ((λ h. check_parsed-Means o l r h), (λ m. Means-check_parsed o l r m))

-- An operator that is written is read as the same operator, also the one that is none.
pub parse-operator_to_string : (o : Operator) → parse_operator (operator_to_string o) ≡ o
unfolding parse_operator operator_to_string
parse-operator_to_string eo_less = refl
parse-operator_to_string eo_lesseq = refl
parse-operator_to_string eo_equal = refl
parse-operator_to_string eo_greatereq = refl
parse-operator_to_string eo_greater = refl
parse-operator_to_string eo_error = refl
