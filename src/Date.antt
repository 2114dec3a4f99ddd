-- ===== src/Date.antt =====
-- src/common/date/fix.date.ts: the formats of times and dates.
-- A `Date` of the language is given by its parts in UTC; months are counted from 0.
use nest_quickfix.Prelude.{ℕ, ◌+◌, ◌++◌}
use nest_quickfix.Text.{Text, text}
use nest_quickfix.Text.Decimal.{to_decimal, pad_start}

pub record Date : Type 0 where
  pub year : ℕ
  pub month : ℕ
  pub day : ℕ
  pub hours : ℕ
  pub minutes : ℕ
  pub seconds : ℕ
  pub milliseconds : ℕ

abbrev pad2 : ℕ → Text
pad2 n = pad_start 2 (to_decimal n)

unfoldable pub format_date : Date → Text
format_date d = to_decimal d.year ++ (pad2 (d.month + 1) ++ pad2 d.day)

unfoldable pub format_date_time : Date → Text
format_date_time d =
    to_decimal d.year
    ++ (pad2 (d.month + 1)
        ++ (pad2 d.day
            ++ (text "-"
                ++ (pad2 d.hours
                    ++ (text ":"
                        ++ (pad2 d.minutes
                            ++ (text ":"
                                ++ (pad2 d.seconds
                                    ++ (text "." ++ pad_start 3 (to_decimal d.milliseconds))))))))))
