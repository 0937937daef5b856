-- ===== src/MapExchange/Errors.antt =====
-- The readers of fact/mapExchange.go after an error.
use chat_wire.Common.{◌≡◌, refl, arith, some, Bytes}
use chat_wire.Common.Int.{ℤ, pos, ◌+ℤ◌}
use chat_wire.MapExchange.Format.{
  Format, flag, byte, int16, int32, uint32, float, double, text, position, queue, optional, array,
  dict, object, Fields, done, field, skip, present, Position,
}
use chat_wire.MapExchange.Reader.{
  Parser, ParseError, read, read_fields, read_int, read_position, read_text, read_array, read_dict,
  read_optional,
}

-- A parser that has met an error.
abbrev pub failed : Bytes → ParseError → Position → Parser
failed bs e last = record { left = bs; error = some e; last = last }

-- A reader leaves such a parser alone.
abbrev pub Idle : {A : Type 0} → (Parser → A × Parser) → Type 0
Idle r =
    (bs : Bytes) (e : ParseError) (last : Position) → (r (failed bs e last)).1 ≡ failed bs e last

add-zero_ℤ : (a : ℤ) → a +ℤ pos 0 ≡ a
unfolding ◌+ℤ◌
add-zero_ℤ a = ground arith

text-Idle : Idle read_text
unfolding read_text
text-Idle bs e last = ground arith

position-Idle : Idle read_position
unfolding read_position read_int
position-Idle bs e last = rw (add-zero_ℤ last.x, add-zero_ℤ last.y)

module _ {A : Type 0} (r : Parser → A × Parser) where
  optional-Idle : Idle (read_optional r)
  unfolding read_optional
  optional-Idle bs e last = refl

  array-Idle : Idle (read_array r)
  unfolding read_array
  array-Idle bs e last = refl

  dict-Idle : Idle (read_dict r)
  unfolding read_dict
  dict-Idle bs e last = refl

mutual
  unfolding read read_fields

  -- After an error a reader of any format takes no byte, keeps the error and keeps the last position.
  pub read-Idle : (f : Format) → Idle (read f)
  read-Idle flag bs e last = refl
  read-Idle byte bs e last = refl
  read-Idle int16 bs e last = refl
  read-Idle int32 bs e last = refl
  read-Idle uint32 bs e last = refl
  read-Idle float bs e last = refl
  read-Idle double bs e last = refl
  read-Idle text bs e last = text-Idle bs e last
  read-Idle position bs e last = position-Idle bs e last
  read-Idle queue bs e last = refl
  read-Idle (optional f) bs e last = optional-Idle (read f) bs e last
  read-Idle (array f) bs e last = array-Idle (read f) bs e last
  read-Idle (dict f) bs e last = dict-Idle (read f) bs e last
  read-Idle (object fs) bs e last = read_fields-Idle fs bs e last

  pub read_fields-Idle : (fs : Fields) → Idle (read_fields fs)
  read_fields-Idle done bs e last = refl
  read_fields-Idle (field name f fs) bs e last =
      rw (read-Idle f bs e last) (read_fields-Idle fs bs e last)
  read_fields-Idle (skip f fs) bs e last =
      rw (read-Idle f bs e last) (read_fields-Idle fs bs e last)
  read_fields-Idle (present name f fs) bs e last =
      rw (optional-Idle (read f) bs e last) (read_fields-Idle fs bs e last)
