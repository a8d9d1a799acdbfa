-- ===== src/Rc.antt =====
-- The return codes of common/sys/rc.h.
use mathlib.Core.Bool.{Bool, true, false}

pub data Rc : Type 0 where
  success invalid_argument unimplemented sql_syntax internal nomem notfound empty full exist : Rc
  not_exist bufferpool_open bufferpool_nobuf bufferpool_invalid_page_num record_openned : Rc
  record_invalid_rid record_invalid_key record_duplicate_key record_nomem record_eof : Rc
  record_not_exist record_invisible schema_db_exist schema_db_not_exist schema_db_not_opened : Rc
  schema_table_not_exist schema_table_exist schema_field_not_exist schema_field_missing : Rc
  schema_field_type_mismatch schema_field_not_null schema_index_name_repeat ioerr_read : Rc
  ioerr_write ioerr_access ioerr_open ioerr_close ioerr_seek ioerr_too_long ioerr_sync : Rc
  locked_unlock locked_need_wait locked_concurrency_conflict file_exist file_not_exist : Rc
  file_name file_bound file_create file_open file_not_opened file_close file_remove : Rc
  variable_not_exists variable_not_valid logbuf_full log_file_full log_entry_invalid : Rc
  json_parse_failed json_member_missing range_error wal_invalid_filename input_eof : Rc
  invalid_token unexpected_end_of_string syntax_error unsupported authentication_failed : Rc
  authorization_denied user_exist user_not_exist : Rc

abbrev pub is_success : Rc → Bool
is_success success = true
is_success rc = false
