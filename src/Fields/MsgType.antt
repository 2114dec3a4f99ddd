-- ===== src/Fields/MsgType.antt =====
-- src/fields/MsgType.ts: the types of messages.
use nest_quickfix.Prelude.{◌≡◌, refl, Option, none, some, List, [], ◌∷◌, ◌==◌, if◌then◌else◌}
use nest_quickfix.Text.{Text, text, text_Eq}

pub data MsgType : Type 0 where
  heartbeat test_request resend_request reject sequence_reset logout ioi advertisement : MsgType
  execution_report order_cancel_reject logon news email new_order_single new_order_list : MsgType
  order_cancel_request order_cancel_replace_request order_status_request : MsgType
  allocation_instruction list_cancel_request list_execute list_status_request list_status : MsgType
  allocation_instruction_ack dont_know_trade quote_request quote settlement_instructions : MsgType
  market_data_request market_data_snapshot_full_refresh market_data_incremental_refresh : MsgType
  market_data_request_reject quote_cancel quote_status_request mass_quote_ack : MsgType
  security_definition_request security_definition security_status_request security_status : MsgType
  trading_session_status_request trading_session_status mass_quote business_message_reject : MsgType
  bid_request bid_response list_strike_price xm_lnon_fix registration_instructions : MsgType
  registration_instructions_response order_mass_cancel_request order_mass_cancel_report : MsgType
  new_order_cross cross_order_cancel_replace_request cross_order_cancel_request : MsgType
  security_type_request security_types security_list_request security_list : MsgType
  derivative_security_list_request derivative_security_list new_order_multileg : MsgType
  multileg_order_cancel_replace trade_capture_report_request trade_capture_report : MsgType
  order_mass_status_request quote_request_reject rfq_request quote_status_report : MsgType
  quote_response confirmation position_maintenance_request position_maintenance_report : MsgType
  request_for_positions request_for_positions_ack position_report : MsgType
  trade_capture_report_request_ack trade_capture_report_ack allocation_report : MsgType
  allocation_report_ack confirmation_ack settlement_instruction_request assignment_report : MsgType
  collateral_request collateral_assignment collateral_response collateral_report : MsgType
  collateral_inquiry network_counterparty_system_status_request : MsgType
  network_counterparty_system_status_response user_request user_response : MsgType
  collateral_inquiry_ack confirmation_request contrary_intention_report : MsgType
  security_definition_update_report security_list_update_report adjusted_position_report : MsgType
  allocation_instruction_alert execution_ack trading_session_list : MsgType
  trading_session_list_request settlement_obligation_report : MsgType
  derivative_security_list_update_report trading_session_list_update_report : MsgType
  market_definition_request market_definition market_definition_update_report : MsgType
  application_message_request application_message_request_ack application_message_report : MsgType
  order_mass_action_report order_mass_action_request user_notification : MsgType
  stream_assignment_request stream_assignment_report stream_assignment_report_ack : MsgType
  party_details_list_request party_details_list_report margin_requirement_inquiry : MsgType
  margin_requirement_inquiry_ack margin_requirement_report party_details_list_update_report :
      MsgType
  party_risk_limits_request party_risk_limits_report security_mass_status_request : MsgType
  security_mass_status account_summary_report party_risk_limits_update_report : MsgType
  party_risk_limits_definition_request party_risk_limits_definition_request_ack : MsgType
  party_entitlements_request party_entitlements_report quote_ack : MsgType
  party_details_definition_request party_details_definition_request_ack : MsgType
  party_entitlements_update_report party_entitlements_definition_request : MsgType
  party_entitlements_definition_request_ack trade_match_report trade_match_report_ack : MsgType
  party_risk_limits_report_ack party_risk_limit_check_request : MsgType
  party_risk_limit_check_request_ack party_action_request party_action_report mass_order : MsgType
  mass_order_ack position_transfer_instruction position_transfer_instruction_ack : MsgType
  position_transfer_report market_data_statistics_request market_data_statistics_report : MsgType
  collateral_report_ack market_data_report cross_request cross_request_ack : MsgType
  allocation_instruction_alert_request allocation_instruction_alert_request_ack : MsgType
  trade_aggregation_request trade_aggregation_report pay_management_report : MsgType
  pay_management_report_ack pay_management_request pay_management_request_ack : MsgType
  settlement_status_request settlement_status_request_ack settlement_status_report : MsgType
  settlement_status_report_ack security_risk_metrics_report algo_certificate_request : MsgType
  algo_certificate_request_ack algo_certificate_report algo_certificate_report_ack : MsgType
  test_suite_definition_request test_suite_definition_request_ack test_action_request : MsgType
  test_action_request_ack test_action_report : MsgType

-- The value of the member, as it stands on the wire.
abbrev pub wire : MsgType → Text
wire heartbeat = text "0"
wire test_request = text "1"
wire resend_request = text "2"
wire reject = text "3"
wire sequence_reset = text "4"
wire logout = text "5"
wire ioi = text "6"
wire advertisement = text "7"
wire execution_report = text "8"
wire order_cancel_reject = text "9"
wire logon = text "A"
wire news = text "B"
wire email = text "C"
wire new_order_single = text "D"
wire new_order_list = text "E"
wire order_cancel_request = text "F"
wire order_cancel_replace_request = text "G"
wire order_status_request = text "H"
wire allocation_instruction = text "J"
wire list_cancel_request = text "K"
wire list_execute = text "L"
wire list_status_request = text "M"
wire list_status = text "N"
wire allocation_instruction_ack = text "P"
wire dont_know_trade = text "Q"
wire quote_request = text "R"
wire quote = text "S"
wire settlement_instructions = text "T"
wire market_data_request = text "V"
wire market_data_snapshot_full_refresh = text "W"
wire market_data_incremental_refresh = text "X"
wire market_data_request_reject = text "Y"
wire quote_cancel = text "Z"
wire quote_status_request = text "a"
wire mass_quote_ack = text "b"
wire security_definition_request = text "c"
wire security_definition = text "d"
wire security_status_request = text "e"
wire security_status = text "f"
wire trading_session_status_request = text "g"
wire trading_session_status = text "h"
wire mass_quote = text "i"
wire business_message_reject = text "j"
wire bid_request = text "k"
wire bid_response = text "l"
wire list_strike_price = text "m"
wire xm_lnon_fix = text "n"
wire registration_instructions = text "o"
wire registration_instructions_response = text "p"
wire order_mass_cancel_request = text "q"
wire order_mass_cancel_report = text "r"
wire new_order_cross = text "s"
wire cross_order_cancel_replace_request = text "t"
wire cross_order_cancel_request = text "u"
wire security_type_request = text "v"
wire security_types = text "w"
wire security_list_request = text "x"
wire security_list = text "y"
wire derivative_security_list_request = text "z"
wire derivative_security_list = text "AA"
wire new_order_multileg = text "AB"
wire multileg_order_cancel_replace = text "AC"
wire trade_capture_report_request = text "AD"
wire trade_capture_report = text "AE"
wire order_mass_status_request = text "AF"
wire quote_request_reject = text "AG"
wire rfq_request = text "AH"
wire quote_status_report = text "AI"
wire quote_response = text "AJ"
wire confirmation = text "AK"
wire position_maintenance_request = text "AL"
wire position_maintenance_report = text "AM"
wire request_for_positions = text "AN"
wire request_for_positions_ack = text "AO"
wire position_report = text "AP"
wire trade_capture_report_request_ack = text "AQ"
wire trade_capture_report_ack = text "AR"
wire allocation_report = text "AS"
wire allocation_report_ack = text "AT"
wire confirmation_ack = text "AU"
wire settlement_instruction_request = text "AV"
wire assignment_report = text "AW"
wire collateral_request = text "AX"
wire collateral_assignment = text "AY"
wire collateral_response = text "AZ"
wire collateral_report = text "BA"
wire collateral_inquiry = text "BB"
wire network_counterparty_system_status_request = text "BC"
wire network_counterparty_system_status_response = text "BD"
wire user_request = text "BE"
wire user_response = text "BF"
wire collateral_inquiry_ack = text "BG"
wire confirmation_request = text "BH"
wire contrary_intention_report = text "BO"
wire security_definition_update_report = text "BP"
wire security_list_update_report = text "BK"
wire adjusted_position_report = text "BL"
wire allocation_instruction_alert = text "BM"
wire execution_ack = text "BN"
wire trading_session_list = text "BJ"
wire trading_session_list_request = text "BI"
wire settlement_obligation_report = text "BQ"
wire derivative_security_list_update_report = text "BR"
wire trading_session_list_update_report = text "BS"
wire market_definition_request = text "BT"
wire market_definition = text "BU"
wire market_definition_update_report = text "BV"
wire application_message_request = text "BW"
wire application_message_request_ack = text "BX"
wire application_message_report = text "BY"
wire order_mass_action_report = text "BZ"
wire order_mass_action_request = text "CA"
wire user_notification = text "CB"
wire stream_assignment_request = text "CC"
wire stream_assignment_report = text "CD"
wire stream_assignment_report_ack = text "CE"
wire party_details_list_request = text "CF"
wire party_details_list_report = text "CG"
wire margin_requirement_inquiry = text "CH"
wire margin_requirement_inquiry_ack = text "CI"
wire margin_requirement_report = text "CJ"
wire party_details_list_update_report = text "CK"
wire party_risk_limits_request = text "CL"
wire party_risk_limits_report = text "CM"
wire security_mass_status_request = text "CN"
wire security_mass_status = text "CO"
wire account_summary_report = text "CQ"
wire party_risk_limits_update_report = text "CR"
wire party_risk_limits_definition_request = text "CS"
wire party_risk_limits_definition_request_ack = text "CT"
wire party_entitlements_request = text "CU"
wire party_entitlements_report = text "CV"
wire quote_ack = text "CW"
wire party_details_definition_request = text "CX"
wire party_details_definition_request_ack = text "CY"
wire party_entitlements_update_report = text "CZ"
wire party_entitlements_definition_request = text "DA"
wire party_entitlements_definition_request_ack = text "DB"
wire trade_match_report = text "DC"
wire trade_match_report_ack = text "DD"
wire party_risk_limits_report_ack = text "DE"
wire party_risk_limit_check_request = text "DF"
wire party_risk_limit_check_request_ack = text "DG"
wire party_action_request = text "DH"
wire party_action_report = text "DI"
wire mass_order = text "DJ"
wire mass_order_ack = text "DK"
wire position_transfer_instruction = text "DL"
wire position_transfer_instruction_ack = text "DM"
wire position_transfer_report = text "DN"
wire market_data_statistics_request = text "DO"
wire market_data_statistics_report = text "DP"
wire collateral_report_ack = text "DQ"
wire market_data_report = text "DR"
wire cross_request = text "DS"
wire cross_request_ack = text "DT"
wire allocation_instruction_alert_request = text "DU"
wire allocation_instruction_alert_request_ack = text "DV"
wire trade_aggregation_request = text "DW"
wire trade_aggregation_report = text "DX"
wire pay_management_report = text "EA"
wire pay_management_report_ack = text "EB"
wire pay_management_request = text "DY"
wire pay_management_request_ack = text "DZ"
wire settlement_status_request = text "EC"
wire settlement_status_request_ack = text "ED"
wire settlement_status_report = text "EE"
wire settlement_status_report_ack = text "EF"
wire security_risk_metrics_report = text "EG"
wire algo_certificate_request = text "EH"
wire algo_certificate_request_ack = text "EI"
wire algo_certificate_report = text "EJ"
wire algo_certificate_report_ack = text "EK"
wire test_suite_definition_request = text "EL"
wire test_suite_definition_request_ack = text "EM"
wire test_action_request = text "EN"
wire test_action_request_ack = text "EO"
wire test_action_report = text "EP"

-- All members, in the order of the source.
members : List MsgType
members =
    heartbeat ∷ test_request ∷ resend_request ∷ reject ∷ sequence_reset ∷ logout ∷ ioi
    ∷ advertisement ∷ execution_report ∷ order_cancel_reject ∷ logon ∷ news ∷ email
    ∷ new_order_single ∷ new_order_list ∷ order_cancel_request ∷ order_cancel_replace_request
    ∷ order_status_request ∷ allocation_instruction ∷ list_cancel_request ∷ list_execute
    ∷ list_status_request ∷ list_status ∷ allocation_instruction_ack ∷ dont_know_trade
    ∷ quote_request ∷ quote ∷ settlement_instructions ∷ market_data_request
    ∷ market_data_snapshot_full_refresh ∷ market_data_incremental_refresh
    ∷ market_data_request_reject ∷ quote_cancel ∷ quote_status_request ∷ mass_quote_ack
    ∷ security_definition_request ∷ security_definition ∷ security_status_request ∷ security_status
    ∷ trading_session_status_request ∷ trading_session_status ∷ mass_quote ∷ business_message_reject
    ∷ bid_request ∷ bid_response ∷ list_strike_price ∷ xm_lnon_fix ∷ registration_instructions
    ∷ registration_instructions_response ∷ order_mass_cancel_request ∷ order_mass_cancel_report
    ∷ new_order_cross ∷ cross_order_cancel_replace_request ∷ cross_order_cancel_request
    ∷ security_type_request ∷ security_types ∷ security_list_request ∷ security_list
    ∷ derivative_security_list_request ∷ derivative_security_list ∷ new_order_multileg
    ∷ multileg_order_cancel_replace ∷ trade_capture_report_request ∷ trade_capture_report
    ∷ order_mass_status_request ∷ quote_request_reject ∷ rfq_request ∷ quote_status_report
    ∷ quote_response ∷ confirmation ∷ position_maintenance_request ∷ position_maintenance_report
    ∷ request_for_positions ∷ request_for_positions_ack ∷ position_report
    ∷ trade_capture_report_request_ack ∷ trade_capture_report_ack ∷ allocation_report
    ∷ allocation_report_ack ∷ confirmation_ack ∷ settlement_instruction_request ∷ assignment_report
    ∷ collateral_request ∷ collateral_assignment ∷ collateral_response ∷ collateral_report
    ∷ collateral_inquiry ∷ network_counterparty_system_status_request
    ∷ network_counterparty_system_status_response ∷ user_request ∷ user_response
    ∷ collateral_inquiry_ack ∷ confirmation_request ∷ contrary_intention_report
    ∷ security_definition_update_report ∷ security_list_update_report ∷ adjusted_position_report
    ∷ allocation_instruction_alert ∷ execution_ack ∷ trading_session_list
    ∷ trading_session_list_request ∷ settlement_obligation_report
    ∷ derivative_security_list_update_report ∷ trading_session_list_update_report
    ∷ market_definition_request ∷ market_definition ∷ market_definition_update_report
    ∷ application_message_request ∷ application_message_request_ack ∷ application_message_report
    ∷ order_mass_action_report ∷ order_mass_action_request ∷ user_notification
    ∷ stream_assignment_request ∷ stream_assignment_report ∷ stream_assignment_report_ack
    ∷ party_details_list_request ∷ party_details_list_report ∷ margin_requirement_inquiry
    ∷ margin_requirement_inquiry_ack ∷ margin_requirement_report ∷ party_details_list_update_report
    ∷ party_risk_limits_request ∷ party_risk_limits_report ∷ security_mass_status_request
    ∷ security_mass_status ∷ account_summary_report ∷ party_risk_limits_update_report
    ∷ party_risk_limits_definition_request ∷ party_risk_limits_definition_request_ack
    ∷ party_entitlements_request ∷ party_entitlements_report ∷ quote_ack
    ∷ party_details_definition_request ∷ party_details_definition_request_ack
    ∷ party_entitlements_update_report ∷ party_entitlements_definition_request
    ∷ party_entitlements_definition_request_ack ∷ trade_match_report ∷ trade_match_report_ack
    ∷ party_risk_limits_report_ack ∷ party_risk_limit_check_request
    ∷ party_risk_limit_check_request_ack ∷ party_action_request ∷ party_action_report ∷ mass_order
    ∷ mass_order_ack ∷ position_transfer_instruction ∷ position_transfer_instruction_ack
    ∷ position_transfer_report ∷ market_data_statistics_request ∷ market_data_statistics_report
    ∷ collateral_report_ack ∷ market_data_report ∷ cross_request ∷ cross_request_ack
    ∷ allocation_instruction_alert_request ∷ allocation_instruction_alert_request_ack
    ∷ trade_aggregation_request ∷ trade_aggregation_report ∷ pay_management_report
    ∷ pay_management_report_ack ∷ pay_management_request ∷ pay_management_request_ack
    ∷ settlement_status_request ∷ settlement_status_request_ack ∷ settlement_status_report
    ∷ settlement_status_report_ack ∷ security_risk_metrics_report ∷ algo_certificate_request
    ∷ algo_certificate_request_ack ∷ algo_certificate_report ∷ algo_certificate_report_ack
    ∷ test_suite_definition_request ∷ test_suite_definition_request_ack ∷ test_action_request
    ∷ test_action_request_ack ∷ test_action_report ∷ []

find : List MsgType → Text → Option MsgType
find [] t = none
find (m ∷ ms) t = if wire m == t then some m else find ms t

-- The member that a value on the wire stands for.
pub of_wire : Text → Option MsgType
unfolding members find
of_wire t = find members t

-- No two members share a value: each is found again from its text.
pub of_wire-wire : (m : MsgType) → of_wire (wire m) ≡ some m
unfolding of_wire
of_wire-wire heartbeat = refl
of_wire-wire test_request = refl
of_wire-wire resend_request = refl
of_wire-wire reject = refl
of_wire-wire sequence_reset = refl
of_wire-wire logout = refl
of_wire-wire ioi = refl
of_wire-wire advertisement = refl
of_wire-wire execution_report = refl
of_wire-wire order_cancel_reject = refl
of_wire-wire logon = refl
of_wire-wire news = refl
of_wire-wire email = refl
of_wire-wire new_order_single = refl
of_wire-wire new_order_list = refl
of_wire-wire order_cancel_request = refl
of_wire-wire order_cancel_replace_request = refl
of_wire-wire order_status_request = refl
of_wire-wire allocation_instruction = refl
of_wire-wire list_cancel_request = refl
of_wire-wire list_execute = refl
of_wire-wire list_status_request = refl
of_wire-wire list_status = refl
of_wire-wire allocation_instruction_ack = refl
of_wire-wire dont_know_trade = refl
of_wire-wire quote_request = refl
of_wire-wire quote = refl
of_wire-wire settlement_instructions = refl
of_wire-wire market_data_request = refl
of_wire-wire market_data_snapshot_full_refresh = refl
of_wire-wire market_data_incremental_refresh = refl
of_wire-wire market_data_request_reject = refl
of_wire-wire quote_cancel = refl
of_wire-wire quote_status_request = refl
of_wire-wire mass_quote_ack = refl
of_wire-wire security_definition_request = refl
of_wire-wire security_definition = refl
of_wire-wire security_status_request = refl
of_wire-wire security_status = refl
of_wire-wire trading_session_status_request = refl
of_wire-wire trading_session_status = refl
of_wire-wire mass_quote = refl
of_wire-wire business_message_reject = refl
of_wire-wire bid_request = refl
of_wire-wire bid_response = refl
of_wire-wire list_strike_price = refl
of_wire-wire xm_lnon_fix = refl
of_wire-wire registration_instructions = refl
of_wire-wire registration_instructions_response = refl
of_wire-wire order_mass_cancel_request = refl
of_wire-wire order_mass_cancel_report = refl
of_wire-wire new_order_cross = refl
of_wire-wire cross_order_cancel_replace_request = refl
of_wire-wire cross_order_cancel_request = refl
of_wire-wire security_type_request = refl
of_wire-wire security_types = refl
of_wire-wire security_list_request = refl
of_wire-wire security_list = refl
of_wire-wire derivative_security_list_request = refl
of_wire-wire derivative_security_list = refl
of_wire-wire new_order_multileg = refl
of_wire-wire multileg_order_cancel_replace = refl
of_wire-wire trade_capture_report_request = refl
of_wire-wire trade_capture_report = refl
of_wire-wire order_mass_status_request = refl
of_wire-wire quote_request_reject = refl
of_wire-wire rfq_request = refl
of_wire-wire quote_status_report = refl
of_wire-wire quote_response = refl
of_wire-wire confirmation = refl
of_wire-wire position_maintenance_request = refl
of_wire-wire position_maintenance_report = refl
of_wire-wire request_for_positions = refl
of_wire-wire request_for_positions_ack = refl
of_wire-wire position_report = refl
of_wire-wire trade_capture_report_request_ack = refl
of_wire-wire trade_capture_report_ack = refl
of_wire-wire allocation_report = refl
of_wire-wire allocation_report_ack = refl
of_wire-wire confirmation_ack = refl
of_wire-wire settlement_instruction_request = refl
of_wire-wire assignment_report = refl
of_wire-wire collateral_request = refl
of_wire-wire collateral_assignment = refl
of_wire-wire collateral_response = refl
of_wire-wire collateral_report = refl
of_wire-wire collateral_inquiry = refl
of_wire-wire network_counterparty_system_status_request = refl
of_wire-wire network_counterparty_system_status_response = refl
of_wire-wire user_request = refl
of_wire-wire user_response = refl
of_wire-wire collateral_inquiry_ack = refl
of_wire-wire confirmation_request = refl
of_wire-wire contrary_intention_report = refl
of_wire-wire security_definition_update_report = refl
of_wire-wire security_list_update_report = refl
of_wire-wire adjusted_position_report = refl
of_wire-wire allocation_instruction_alert = refl
of_wire-wire execution_ack = refl
of_wire-wire trading_session_list = refl
of_wire-wire trading_session_list_request = refl
of_wire-wire settlement_obligation_report = refl
of_wire-wire derivative_security_list_update_report = refl
of_wire-wire trading_session_list_update_report = refl
of_wire-wire market_definition_request = refl
of_wire-wire market_definition = refl
of_wire-wire market_definition_update_report = refl
of_wire-wire application_message_request = refl
of_wire-wire application_message_request_ack = refl
of_wire-wire application_message_report = refl
of_wire-wire order_mass_action_report = refl
of_wire-wire order_mass_action_request = refl
of_wire-wire user_notification = refl
of_wire-wire stream_assignment_request = refl
of_wire-wire stream_assignment_report = refl
of_wire-wire stream_assignment_report_ack = refl
of_wire-wire party_details_list_request = refl
of_wire-wire party_details_list_report = refl
of_wire-wire margin_requirement_inquiry = refl
of_wire-wire margin_requirement_inquiry_ack = refl
of_wire-wire margin_requirement_report = refl
of_wire-wire party_details_list_update_report = refl
of_wire-wire party_risk_limits_request = refl
of_wire-wire party_risk_limits_report = refl
of_wire-wire security_mass_status_request = refl
of_wire-wire security_mass_status = refl
of_wire-wire account_summary_report = refl
of_wire-wire party_risk_limits_update_report = refl
of_wire-wire party_risk_limits_definition_request = refl
of_wire-wire party_risk_limits_definition_request_ack = refl
of_wire-wire party_entitlements_request = refl
of_wire-wire party_entitlements_report = refl
of_wire-wire quote_ack = refl
of_wire-wire party_details_definition_request = refl
of_wire-wire party_details_definition_request_ack = refl
of_wire-wire party_entitlements_update_report = refl
of_wire-wire party_entitlements_definition_request = refl
of_wire-wire party_entitlements_definition_request_ack = refl
of_wire-wire trade_match_report = refl
of_wire-wire trade_match_report_ack = refl
of_wire-wire party_risk_limits_report_ack = refl
of_wire-wire party_risk_limit_check_request = refl
of_wire-wire party_risk_limit_check_request_ack = refl
of_wire-wire party_action_request = refl
of_wire-wire party_action_report = refl
of_wire-wire mass_order = refl
of_wire-wire mass_order_ack = refl
of_wire-wire position_transfer_instruction = refl
of_wire-wire position_transfer_instruction_ack = refl
of_wire-wire position_transfer_report = refl
of_wire-wire market_data_statistics_request = refl
of_wire-wire market_data_statistics_report = refl
of_wire-wire collateral_report_ack = refl
of_wire-wire market_data_report = refl
of_wire-wire cross_request = refl
of_wire-wire cross_request_ack = refl
of_wire-wire allocation_instruction_alert_request = refl
of_wire-wire allocation_instruction_alert_request_ack = refl
of_wire-wire trade_aggregation_request = refl
of_wire-wire trade_aggregation_report = refl
of_wire-wire pay_management_report = refl
of_wire-wire pay_management_report_ack = refl
of_wire-wire pay_management_request = refl
of_wire-wire pay_management_request_ack = refl
of_wire-wire settlement_status_request = refl
of_wire-wire settlement_status_request_ack = refl
of_wire-wire settlement_status_report = refl
of_wire-wire settlement_status_report_ack = refl
of_wire-wire security_risk_metrics_report = refl
of_wire-wire algo_certificate_request = refl
of_wire-wire algo_certificate_request_ack = refl
of_wire-wire algo_certificate_report = refl
of_wire-wire algo_certificate_report_ack = refl
of_wire-wire test_suite_definition_request = refl
of_wire-wire test_suite_definition_request_ack = refl
of_wire-wire test_action_request = refl
of_wire-wire test_action_request_ack = refl
of_wire-wire test_action_report = refl
