-- ===== src/Message/Frame.antt =====
-- The frame of a printed message, described apart from the code that prints it.
use nest_quickfix.Prelude.{
  ℕ, ◌+◌, ◌%◌, ◌≡◌, refl, ◌++◌, [], ◌∷◌, length, All, arith, append_assoc, ◌∙◌, ap,
}
use nest_quickfix.Text.{Text, text, soh}
use nest_quickfix.Text.Decimal.{
  Digit, to_decimal, digits_value, to_decimal-Digit, digits_value-to_decimal, length-pad_start,
  length-to_decimal-le, digits_value-pad_start,
}
use nest_quickfix.Text.Integer.{number_text}
use nest_quickfix.Result.{ok}
use nest_quickfix.Fields.{field_text, begin_string, check_sum}
use nest_quickfix.Message.{
  Message, string, value_text, get_field, pair_text, body_text, unsummed_text, code_sum,
  calculate_checksum, to_string,
}
use nest_quickfix.Message.Laws.{to_string_ok}
use nest_quickfix.Message.Sendable.{calculate_checksum-Digit}

-- The sum of the characters of a text.
pub data IsSum : Text → ℕ → Type 0 where
  none_left : IsSum [] 0
  one_more : (c : ℕ) {s : Text} {n : ℕ} → IsSum s n → IsSum (c ∷ s) (c + n)

code_sum-IsSum : (s : Text) → IsSum s (code_sum s)
unfolding code_sum
code_sum-IsSum [] = none_left
code_sum-IsSum (c ∷ s) = one_more c (code_sum-IsSum s)

-- `8=`, the version, `9=`, the number of characters of the body, the body, `10=` and three digits:
-- the sum of all characters before, modulo 256.
pub record IsFrame (s : Text) : Type 0 where
  pub version : Text
  pub body : Text
  pub sum : Text
  pub size : Text
  pub prefix : Text
  pub size_digits : All Digit size
  pub size_value : digits_value 0 size ≡ length body
  pub prefix_parts : prefix ≡ text "8=" ++ (version ++ soh ∷ (text "9=" ++ (size ++ soh ∷ body)))
  pub sum_digits : All Digit sum
  pub sum_length : length sum ≡ 3
  pub total : ℕ
  pub total_sum : IsSum prefix total
  pub sum_value : digits_value 0 sum ≡ total % 256
  pub parts : s ≡ prefix ++ (text "10=" ++ (sum ++ soh ∷ []))

length-calculate_checksum : (s : Text) → length (calculate_checksum s) ≡ 3
unfolding calculate_checksum
length-calculate_checksum s =
    length-pad_start 3 (to_decimal (code_sum s % 256))
      (length-to_decimal-le (code_sum s % 256) (omega arith))

digits_value-calculate_checksum :
    (s : Text) → digits_value 0 (calculate_checksum s) ≡ code_sum s % 256
unfolding calculate_checksum
digits_value-calculate_checksum s =
    digits_value-pad_start 3 (to_decimal (code_sum s % 256))
    ∙ digits_value-to_decimal (code_sum s % 256)

unsummed_text_parts :
    (m : Message)
    → unsummed_text m
      ≡ text "8="
        ++ (value_text (get_field m begin_string)
            ++ soh ∷ (text "9=" ++ (to_decimal (length (body_text m)) ++ soh ∷ body_text m)))
unfolding unsummed_text pair_text field_text number_text value_text to_decimal
unsummed_text_parts m = simp append_assoc

pair_text-check_sum : (t : Text) → pair_text check_sum (string t) ≡ text "10=" ++ (t ++ soh ∷ [])
unfolding pair_text field_text value_text number_text
pair_text-check_sum t = refl

-- Whatever `to_string` returns is framed: `8=` and the version, `9=` and the length of the body, the
-- body, and `10=` and the sum of all characters before it, modulo 256, in three digits.
pub to_string-IsFrame : (m : Message) (s : Text) → to_string m ≡ ok s → IsFrame s
to_string-IsFrame m s e = record {
  version = value_text (get_field m begin_string);
  body = body_text m;
  sum = calculate_checksum (unsummed_text m);
  size = to_decimal (length (body_text m));
  prefix = unsummed_text m;
  size_digits = to_decimal-Digit (length (body_text m));
  size_value = digits_value-to_decimal (length (body_text m));
  prefix_parts = unsummed_text_parts m;
  sum_digits = calculate_checksum-Digit (unsummed_text m);
  sum_length = length-calculate_checksum (unsummed_text m);
  total = code_sum (unsummed_text m);
  total_sum = code_sum-IsSum (unsummed_text m);
  sum_value = digits_value-calculate_checksum (unsummed_text m);
  parts =
      to_string_ok m s e
      ∙ ap (λ t. unsummed_text m ++ t) (pair_text-check_sum (calculate_checksum (unsummed_text m)));
}
