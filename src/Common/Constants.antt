-- ===== src/Common/Constants.antt =====
-- crates/src/common/constants.rs: the constants that the modelled code uses.
use pywebtransport.Base.{ℕ, ◌^◌, ◌-◌}

abbrev pub err_app_no_error : ℕ
err_app_no_error = 0x0

abbrev pub err_h3_excessive_load : ℕ
err_h3_excessive_load = 0x107

abbrev pub err_h3_frame_error : ℕ
err_h3_frame_error = 0x106

abbrev pub err_h3_frame_unexpected : ℕ
err_h3_frame_unexpected = 0x105

abbrev pub err_h3_general_protocol_error : ℕ
err_h3_general_protocol_error = 0x101

abbrev pub err_h3_message_error : ℕ
err_h3_message_error = 0x10e

abbrev pub err_lib_internal_error : ℕ
err_lib_internal_error = 0x1000_0001

abbrev pub err_lib_session_state_error : ℕ
err_lib_session_state_error = 0x1200_0001

abbrev pub err_lib_stream_state_error : ℕ
err_lib_stream_state_error = 0x1300_0001

abbrev pub err_wt_application_error_first : ℕ
err_wt_application_error_first = 0x52e4_a40f_a8db

abbrev pub err_wt_application_error_last : ℕ
err_wt_application_error_last = 0x52e5_ac98_3162

abbrev pub err_wt_buffered_stream_rejected : ℕ
err_wt_buffered_stream_rejected = 0x3994_bd84

abbrev pub err_wt_flow_control_error : ℕ
err_wt_flow_control_error = 0x45d_4487

abbrev pub err_wt_session_gone : ℕ
err_wt_session_gone = 0x170d_7b68

abbrev pub quic_stream_direction_mask : ℕ
quic_stream_direction_mask = 0x2

abbrev pub quic_stream_initiator_mask : ℕ
quic_stream_initiator_mask = 0x1

abbrev pub wt_capsule_type_close_session : ℕ
wt_capsule_type_close_session = 0x2843

abbrev pub wt_capsule_type_data_blocked : ℕ
wt_capsule_type_data_blocked = 0x190b_4d41

abbrev pub wt_capsule_type_drain_session : ℕ
wt_capsule_type_drain_session = 0x78ae

abbrev pub wt_capsule_type_max_data : ℕ
wt_capsule_type_max_data = 0x190b_4d3d

abbrev pub wt_capsule_type_max_streams_bidi : ℕ
wt_capsule_type_max_streams_bidi = 0x190b_4d3f

abbrev pub wt_capsule_type_max_streams_uni : ℕ
wt_capsule_type_max_streams_uni = 0x190b_4d40

abbrev pub wt_capsule_type_max_stream_data : ℕ
wt_capsule_type_max_stream_data = 0x190b_4d3e

abbrev pub wt_capsule_type_streams_blocked_bidi : ℕ
wt_capsule_type_streams_blocked_bidi = 0x190b_4d43

abbrev pub wt_capsule_type_streams_blocked_uni : ℕ
wt_capsule_type_streams_blocked_uni = 0x190b_4d44

abbrev pub wt_capsule_type_stream_data_blocked : ℕ
wt_capsule_type_stream_data_blocked = 0x190b_4d42

abbrev pub wt_close_reason_size_limit : ℕ
wt_close_reason_size_limit = 1024

abbrev pub wt_streams_limit : ℕ
wt_streams_limit = 2 ^ 60

abbrev pub err_h3_closed_critical_stream : ℕ
err_h3_closed_critical_stream = 0x0104

abbrev pub err_h3_datagram_error : ℕ
err_h3_datagram_error = 0x0033

abbrev pub err_h3_id_error : ℕ
err_h3_id_error = 0x0108

abbrev pub err_h3_internal_error : ℕ
err_h3_internal_error = 0x0102

abbrev pub err_h3_missing_settings : ℕ
err_h3_missing_settings = 0x010a

abbrev pub err_h3_request_rejected : ℕ
err_h3_request_rejected = 0x010b

abbrev pub err_h3_settings_error : ℕ
err_h3_settings_error = 0x0109

abbrev pub err_h3_stream_creation_error : ℕ
err_h3_stream_creation_error = 0x0103

abbrev pub err_lib_connection_state_error : ℕ
err_lib_connection_state_error = 0x1100_0001

abbrev pub err_wt_alpn_error : ℕ
err_wt_alpn_error = 0x0817_b3dd

abbrev pub err_wt_requirements_not_met : ℕ
err_wt_requirements_not_met = 0x212c_0d48

abbrev pub quic_stream_type_count : ℕ
quic_stream_type_count = 4

abbrev pub quic_varint_limit : ℕ
quic_varint_limit = 2 ^ 62 - 1

abbrev pub settings_enable_connect_protocol : ℕ
settings_enable_connect_protocol = 0x08

abbrev pub settings_h3_datagram : ℕ
settings_h3_datagram = 0x33

abbrev pub settings_max_field_section_size : ℕ
settings_max_field_section_size = 0x06

abbrev pub settings_qpack_blocked_streams : ℕ
settings_qpack_blocked_streams = 0x07

abbrev pub settings_qpack_max_table_capacity : ℕ
settings_qpack_max_table_capacity = 0x01

abbrev pub settings_reserved_enable_push : ℕ
settings_reserved_enable_push = 0x02

abbrev pub settings_reserved_initial_window_size : ℕ
settings_reserved_initial_window_size = 0x04

abbrev pub settings_reserved_max_concurrent_streams : ℕ
settings_reserved_max_concurrent_streams = 0x03

abbrev pub settings_reserved_max_frame_size : ℕ
settings_reserved_max_frame_size = 0x05

abbrev pub settings_wt_enabled : ℕ
settings_wt_enabled = 0x2c7c_f000

abbrev pub settings_wt_initial_max_data : ℕ
settings_wt_initial_max_data = 0x2b61

abbrev pub settings_wt_initial_max_streams_bidi : ℕ
settings_wt_initial_max_streams_bidi = 0x2b65

abbrev pub settings_wt_initial_max_streams_uni : ℕ
settings_wt_initial_max_streams_uni = 0x2b64

abbrev pub h3_frame_type_cancel_push : ℕ
h3_frame_type_cancel_push = 0x03

abbrev pub h3_frame_type_data : ℕ
h3_frame_type_data = 0x00

abbrev pub h3_frame_type_goaway : ℕ
h3_frame_type_goaway = 0x07

abbrev pub h3_frame_type_headers : ℕ
h3_frame_type_headers = 0x01

abbrev pub h3_frame_type_max_push_id : ℕ
h3_frame_type_max_push_id = 0x0d

abbrev pub h3_frame_type_push_promise : ℕ
h3_frame_type_push_promise = 0x05

abbrev pub h3_frame_type_reserved_continuation : ℕ
h3_frame_type_reserved_continuation = 0x09

abbrev pub h3_frame_type_reserved_ping : ℕ
h3_frame_type_reserved_ping = 0x06

abbrev pub h3_frame_type_reserved_priority : ℕ
h3_frame_type_reserved_priority = 0x02

abbrev pub h3_frame_type_reserved_window_update : ℕ
h3_frame_type_reserved_window_update = 0x08

abbrev pub h3_frame_type_settings : ℕ
h3_frame_type_settings = 0x04

abbrev pub h3_frame_type_wt_stream : ℕ
h3_frame_type_wt_stream = 0x41

abbrev pub h3_stream_type_control : ℕ
h3_stream_type_control = 0x00

abbrev pub h3_stream_type_push : ℕ
h3_stream_type_push = 0x01

abbrev pub h3_stream_type_qpack_decoder : ℕ
h3_stream_type_qpack_decoder = 0x03

abbrev pub h3_stream_type_qpack_encoder : ℕ
h3_stream_type_qpack_encoder = 0x02

abbrev pub h3_stream_type_webtransport : ℕ
h3_stream_type_webtransport = 0x54
