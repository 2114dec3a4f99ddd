-- ===== src/Protocol/Checksum.antt =====
-- src/protocol/parser/checksum.validator.ts, `class ChecksumValidator`.
pub mod Accepted
use nest_quickfix.Prelude.{Bool, [], ◌∷◌, ◌++◌, ◌%◌, ◌==◌, if◌then◌else◌}
use nest_quickfix.Text.{Text}
use nest_quickfix.Text.Decimal.{to_decimal, pad_start}
use nest_quickfix.OrderedMap.{OrderedMap}
use nest_quickfix.Fields.{FieldType, field_Eq, check_sum}
use nest_quickfix.Message.{Message, Value, string, strict_equal, get_field, pair_text, code_sum}

-- `messageString`: all fields but the checksum, in the order of the map
unfoldable pub fields_text : OrderedMap FieldType Value → Text
unfolding pair_text
fields_text [] = []
fields_text ((field, value) ∷ rest) =
    let later = fields_text rest in
    if field == check_sum then later else pair_text field value ++ later

-- `calculateChecksum(message)`
unfoldable pub checksum_of : Message → Text
unfolding fields_text code_sum to_decimal pad_start
checksum_of m = pad_start 3 (to_decimal (code_sum (fields_text m.fields) % 256))

-- `validate(message)`
unfoldable pub validate : Message → Bool
unfolding checksum_of
validate m = strict_equal (get_field m check_sum) (string (checksum_of m))
