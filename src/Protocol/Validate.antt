-- ===== src/Protocol/Validate.antt =====
-- The checks on names and kinds of protocol.go, and `validateProtocolFrame` of connection.go.
use signalg.Base.{
  ℕ, Bool, ◌||◌, not, ◌==◌, ltb, if◌then◌else◌, is_empty, length, Bytes, true, false,
}
use signalg.Errors.{
  Error, err, ◌>>◌, Checked, nil_error, invalid_frame_kind, invalid_method_name,
  invalid_invocation_id,
}
use signalg.Text.{utf8_valid}
use signalg.Protocol.Types.{
  max_method_name_len, max_invocation_id_len, frame_kind_message, frame_kind_invoke,
  frame_kind_completion, frame_kind_error, frame_kind_ping, frame_kind_pong, is_control_frame_kind,
}

-- `if bad { return e }`.
abbrev pub reject : Bool → Error → Checked
reject true e = err e
reject false e = nil_error

unfoldable pub validate_frame_kind : ℕ → Checked
validate_frame_kind kind =
    if (kind == frame_kind_message)
      || (kind == frame_kind_invoke)
      || (kind == frame_kind_completion)
      || (kind == frame_kind_error)
      || (kind == frame_kind_ping)
      || (kind == frame_kind_pong)
    then nil_error
    else err invalid_frame_kind

unfoldable pub validate_method_name : Bytes → Checked
validate_method_name method = do
  reject (is_empty method) invalid_method_name
  reject (ltb max_method_name_len (length method)) invalid_method_name
  reject (not (utf8_valid method)) invalid_method_name

unfoldable pub validate_invocation_id : Bytes → Checked
validate_invocation_id invocation_id = do
  reject (is_empty invocation_id) invalid_invocation_id
  reject (ltb max_invocation_id_len (length invocation_id)) invalid_invocation_id
  reject (not (utf8_valid invocation_id)) invalid_invocation_id

-- The two blocks of `validateProtocolFrame` behind the one for control frames.
validate_method_part : ℕ → Bytes → Checked
validate_method_part kind method =
    if (kind == frame_kind_message) || (kind == frame_kind_invoke)
    then validate_method_name method
    else if not (is_empty method)
    then validate_method_name method
    else nil_error

validate_invocation_id_part : ℕ → Bytes → Checked
validate_invocation_id_part kind invocation_id =
    if not (kind == frame_kind_message)
    then validate_invocation_id invocation_id
    else if not (is_empty invocation_id)
    then validate_invocation_id invocation_id
    else nil_error

-- The block for control frames, which returns.
validate_control_part : Bytes → Bytes → Checked
validate_control_part method invocation_id = do
  reject (not (is_empty method)) invalid_method_name
  reject (not (is_empty invocation_id)) invalid_invocation_id

validate_named_part : ℕ → Bytes → Bytes → Checked
unfolding validate_method_part validate_invocation_id_part
validate_named_part kind method invocation_id = do
  validate_method_part kind method
  validate_invocation_id_part kind invocation_id

unfoldable pub validate_protocol_frame : ℕ → Bytes → Bytes → Checked
unfolding validate_control_part validate_named_part
validate_protocol_frame kind method invocation_id =
    validate_frame_kind kind
    >> (if is_control_frame_kind kind
        then validate_control_part method invocation_id
        else validate_named_part kind method invocation_id)
