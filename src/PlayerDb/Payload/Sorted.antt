-- ===== src/PlayerDb/Payload/Sorted.antt =====
-- The sort of the player database's keys (fact/playerdb_codec.go) forgets only their order.
use chat_wire.Common.{
  suc, ◌≡◌, refl, ◌∙◌, ap, false, Option, some, [], ◌∷◌, arith, Bytes, bytes_beq, bytes_beq_iff,
  bytes_eq, length, All, if◌then◌else◌,
}
use chat_wire.Common.Assoc.{Assoc, lookup}
use chat_wire.PlayerDb.Data.{PlayerData}
use chat_wire.PlayerDb.Payload.{insert_sorted, sort_entries}

abbrev pub Differs : {V : Type 0} → Bytes → Bytes × V → Type 0
Differs k e = bytes_beq k e.0 ≡ false

-- No two entries have the same key.
abbrev pub Distinct : {V : Type 0} → Assoc Bytes V → Type 0
Distinct [] = Unit {0}
Distinct (e ∷ es) = All (Differs e.0) es × Distinct es

pub insert_sorted-All :
    (P : Bytes × PlayerData → Type 0) (k : Bytes) (v : PlayerData) (es : Assoc Bytes PlayerData)
    → P (k, v)
    → All P es
    → All P (insert_sorted k v es)
unfolding insert_sorted
insert_sorted-All P k v [] p ps = (p, tt)
insert_sorted-All P k v ((j, u) ∷ es) p ps = ground (arith, insert_sorted-All P k v es p ps.1)

pub sort_entries-All :
    (P : Bytes × PlayerData → Type 0) (es : Assoc Bytes PlayerData)
    → All P es
    → All P (sort_entries es)
unfolding sort_entries
sort_entries-All P [] ps = tt
sort_entries-All P ((k, v) ∷ es) ps =
    insert_sorted-All P k v (sort_entries es) ps.0 (sort_entries-All P es ps.1)

bytes_beq-false_sym : (a b : Bytes) → bytes_beq a b ≡ false → bytes_beq b a ≡ false
bytes_beq-false_sym a b h = ground (arith, bytes_beq_iff a b, bytes_beq_iff b a)

insert_sorted-Distinct :
    (k : Bytes) (v : PlayerData) (es : Assoc Bytes PlayerData)
    → All (Differs k) es
    → Distinct es
    → Distinct (insert_sorted k v es)
unfolding insert_sorted
insert_sorted-Distinct k v [] a d = (tt, tt)
insert_sorted-Distinct k v ((j, u) ∷ es) a d = ground (
  arith,
  insert_sorted-Distinct k v es a.1 d.1,
  insert_sorted-All (Differs j) k v es (bytes_beq-false_sym k j a.0) d.0,
)

pub sort_entries-Distinct : (es : Assoc Bytes PlayerData) → Distinct es → Distinct (sort_entries es)
unfolding sort_entries
sort_entries-Distinct [] d = tt
sort_entries-Distinct ((k, v) ∷ es) d =
    insert_sorted-Distinct k v (sort_entries es) (sort_entries-All (Differs k) es d.0)
      (sort_entries-Distinct es d.1)

insert_sorted-lookup :
    (i k : Bytes) (v : PlayerData) (es : Assoc Bytes PlayerData)
    → All (Differs k) es
    → lookup i (insert_sorted k v es) ≡ (if bytes_beq k i then some v else lookup i es)
unfolding insert_sorted lookup
insert_sorted-lookup i k v [] a = refl
insert_sorted-lookup i k v ((j, u) ∷ es) a = ground (
  arith,
  insert_sorted-lookup i k v es a.1,
  a.0,
  bytes_beq_iff k i,
  bytes_beq_iff j i,
  bytes_beq_iff k j,
)

pub sort_entries-lookup :
    (i : Bytes) (es : Assoc Bytes PlayerData)
    → Distinct es
    → lookup i (sort_entries es) ≡ lookup i es
unfolding sort_entries lookup
sort_entries-lookup i [] d = refl
sort_entries-lookup i ((k, v) ∷ es) d =
    insert_sorted-lookup i k v (sort_entries es) (sort_entries-All (Differs k) es d.0)
    ∙ ap (λ (o : Option PlayerData). if bytes_beq k i then some v else o)
        (sort_entries-lookup i es d.1)

insert_sorted-length :
    (k : Bytes) (v : PlayerData) (es : Assoc Bytes PlayerData)
    → length (insert_sorted k v es) ≡ suc (length es)
unfolding insert_sorted
insert_sorted-length k v [] = refl
insert_sorted-length k v ((j, u) ∷ es) = ground (arith, insert_sorted-length k v es)

pub sort_entries-length : (es : Assoc Bytes PlayerData) → length (sort_entries es) ≡ length es
unfolding sort_entries
sort_entries-length [] = refl
sort_entries-length ((k, v) ∷ es) =
    insert_sorted-length k v (sort_entries es) ∙ ap suc (sort_entries-length es)
