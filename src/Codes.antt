-- ===== src/Codes.antt =====
-- mylib/enum/code.h and mylib/enum/Enum.h.
use single_terminal_login_sy.Base.Int.{ℤ, pos, negsuc}

-- REGIST_LOGIN_CODE
pub data Code : Type 0 where
  success system_error db_op_failed already_regist already_logined : Code
  username_or_passwd_error : Code

abbrev pub code_value : Code → ℤ
code_value success = pos 0
code_value system_error = negsuc 0
code_value db_op_failed = negsuc 1
code_value already_regist = negsuc 2
code_value already_logined = negsuc 3
code_value username_or_passwd_error = negsuc 4

-- MESSAGE_TYPE
pub data MessageType : Type 0 where
  regist login logout : MessageType

abbrev pub type_value : MessageType → ℤ
type_value regist = pos 1
type_value login = pos 2
type_value logout = pos 3
