-- ===== src/MapExchange/Format.antt =====
-- The binary formats of a map exchange string (fact/mapExchange.go), as data, and the values that each
-- one reads. A format stands for the Go function that reads it; the name of a field is the key under
-- which its value is put into the JSON object.
use chat_wire.Common.{ℕ, String, Bool, Bytes, Option, List}
use chat_wire.Common.Int.{ℤ}
use chat_wire.Common.Assoc.{Assoc}

-- `flag` is `readBool`, `float` and `double` are the bits of the number that is read, and `queue` is the
-- research queue of `readDifficultySettings`.
mutual
  pub data Format : Type 0 where
    flag byte int16 int32 uint32 float double text position queue : Format
    optional array dict : Format → Format
    object : Fields → Format

  -- The fields of an object in the order in which they are read. `skip` is a value that is read and
  -- dropped; `present` is a field that the object has only if its optional value is there.
  pub data Fields : Type 0 where
    done : Fields
    field : String → Format → Fields → Fields
    skip : Format → Fields → Fields
    present : String → Format → Fields → Fields

infixr 66 ◌▹◌
-- A named field.
abbrev pub ◌▹◌ : String × Format → Fields → Fields
(name, f) ▹ fs = field name f fs

pub data ResearchQueue : Type 0 where
  always after_victory never unset : ResearchQueue

-- A coordinate is its number of 1/256ths, in which the format counts.
pub record Position : Type 0 where
  pub x : ℤ
  pub y : ℤ

abbrev mutual
  pub Val : Format → Type 0
  Val flag = Bool
  Val byte = ℕ
  Val int16 = ℤ
  Val int32 = ℤ
  Val uint32 = ℕ
  Val float = ℕ
  Val double = ℕ
  Val text = Bytes
  Val position = Position
  Val queue = ResearchQueue
  Val (optional f) = Option (Val f)
  Val (array f) = List (Val f)
  Val (dict f) = Assoc Bytes (Val f)
  Val (object fs) = Record fs

  pub Record : Fields → Type 0
  Record done = Unit {0}
  Record (field name f fs) = Val f × Record fs
  Record (skip f fs) = Val f × Record fs
  Record (present name f fs) = Option (Val f) × Record fs
