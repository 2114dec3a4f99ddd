-- ===== src/Fields.antt =====
-- src/fields/Field.ts (exported as `Fields`): the tags that the program names, and the keys of a
-- message.
pub mod MsgType
pub mod Side
pub mod OrdType
pub mod TimeInForce
pub mod ExecType
pub mod OrdStatus
use nest_quickfix.Prelude.{
  ℕ, ◌≡◌, refl, ◌↔◌, Bool, true, false, Eq, list_eq, list_eq_iff, nat_Eq, arith,
}
use nest_quickfix.Text.{Text}
use nest_quickfix.Text.Integer.{Number, nat, number_eq, number_eq_iff, number_text}

-- `FieldType = Fields | string | number`
pub data FieldType : Type 0 where
  number : Number → FieldType
  name : Text → FieldType

abbrev pub field_eq : FieldType → FieldType → Bool
field_eq (number a) (number b) = number_eq a b
field_eq (name a) (name b) = list_eq a b
field_eq _ _ = false

pub field_eq_iff : (a b : FieldType) → (field_eq a b ≡ true) ↔ (a ≡ b)
field_eq_iff (number a) (number b) = ground (arith, number_eq_iff a b)
field_eq_iff (name a) (name b) = ground (arith, list_eq_iff a b)
field_eq_iff (number a) (name b) = ground arith
field_eq_iff (name a) (number b) = ground arith

-- The keys of a `Map` are compared by `SameValueZero`.
instance abbrev pub field_Eq : Eq FieldType
field_Eq = record { equal = field_eq; equal_iff = field_eq_iff }

-- `${field}`
unfoldable pub field_text : FieldType → Text
field_text (number n) = number_text n
field_text (name s) = s

abbrev pub tag : ℕ → FieldType
tag n = number (nat n)

abbrev pub account : FieldType
account = tag 1

abbrev pub begin_seq_no : FieldType
begin_seq_no = tag 7

abbrev pub begin_string : FieldType
begin_string = tag 8

abbrev pub body_length : FieldType
body_length = tag 9

abbrev pub check_sum : FieldType
check_sum = tag 10

abbrev pub cl_ord_id : FieldType
cl_ord_id = tag 11

abbrev pub end_seq_no : FieldType
end_seq_no = tag 16

abbrev pub exec_id : FieldType
exec_id = tag 17

abbrev pub msg_seq_num : FieldType
msg_seq_num = tag 34

abbrev pub msg_type : FieldType
msg_type = tag 35

abbrev pub order_id : FieldType
order_id = tag 37

abbrev pub order_qty : FieldType
order_qty = tag 38

abbrev pub ord_status : FieldType
ord_status = tag 39

abbrev pub ord_type : FieldType
ord_type = tag 40

abbrev pub price : FieldType
price = tag 44

abbrev pub ref_seq_num : FieldType
ref_seq_num = tag 45

abbrev pub sender_comp_id : FieldType
sender_comp_id = tag 49

abbrev pub sending_time : FieldType
sending_time = tag 52

abbrev pub side : FieldType
side = tag 54

abbrev pub symbol : FieldType
symbol = tag 55

abbrev pub target_comp_id : FieldType
target_comp_id = tag 56

abbrev pub text_field : FieldType
text_field = tag 58

abbrev pub time_in_force : FieldType
time_in_force = tag 59

abbrev pub encrypt_method : FieldType
encrypt_method = tag 98

abbrev pub heart_bt_int : FieldType
heart_bt_int = tag 108

abbrev pub test_req_id : FieldType
test_req_id = tag 112

abbrev pub reset_seq_num_flag : FieldType
reset_seq_num_flag = tag 141

abbrev pub exec_type : FieldType
exec_type = tag 150

abbrev pub ref_msg_type : FieldType
ref_msg_type = tag 372

abbrev pub username : FieldType
username = tag 553

abbrev pub password : FieldType
password = tag 554
