-- ===== src/Examples/Objects.antt =====
-- The theorem on messages as objects, with `parseInt` for `Number`.
use nest_quickfix.Prelude.{◌≡◌, refl, arith}
use nest_quickfix.Text.Integer.{parse_int, parse_int-to_decimal}
use nest_quickfix.Fields.{msg_seq_num}
use nest_quickfix.Message.{get_field}
use nest_quickfix.Message.Objects.{to_object, from_object, to_json, from_json}
use nest_quickfix.Message.Objects.Restored.{from_object-to_object}
use nest_quickfix.Examples.{beat, beat-IsSendable}

from_object-to_object_example :
    (get_field (from_object parse_int (to_object beat)) msg_seq_num ≡ get_field beat msg_seq_num)
    × (from_json parse_int (to_json beat) ≡ from_object parse_int (to_object beat))
from_object-to_object_example =
    from_object-to_object parse_int beat msg_seq_num beat-IsSendable.unique
      (
        (8, refl, omega arith),
        (
          (112, refl, omega arith),
          (
            (35, refl, omega arith),
            (
              (49, refl, omega arith),
              ((56, refl, omega arith), ((34, refl, omega arith), ((52, refl, omega arith), tt))),
            ),
          ),
        ),
      )
      parse_int-to_decimal
