-- ===== src/Manager.antt =====
-- service/loginManager/main/userLoginImpl.cpp: class UserLoginImpl. Loginer and Register get a copy
-- of its SqlApi, which shares the connection; the result set stored in the copy is dropped with it.
-- `time` is what time(NULL) returns after the calls so far.
pub mod Reply
pub mod Codes
pub mod Quiet
pub mod Main
pub mod Runs
pub mod Session
pub mod Answered
pub mod Requests
pub mod Order
pub mod Followed
pub mod Leaves
pub mod Rested
pub mod Sessions
use single_terminal_login_sy.Base.{
  ℕ, Bool, true, false, not, Option, none, some, List, [], ◌++◌, if◌then◌else◌,
}
use single_terminal_login_sy.Base.Text.{Text, codes}
use single_terminal_login_sy.Base.Int.{narrow, ℤ, pos, negsuc, eq_ℤ}
use single_terminal_login_sy.Codes.{code_value, system_error, regist, login, logout, type_value}
use single_terminal_login_sy.Exec.{Exec, pure, ◌>>=◌, ◌>>◌, require, deref}
use single_terminal_login_sy.Mysql.{Mysql}
use single_terminal_login_sy.SqlApi.{SqlApi}
use single_terminal_login_sy.Loginer as Loginer
use single_terminal_login_sy.Loginer.{LoginReply, LogoutReply}
use single_terminal_login_sy.Register as Register
use single_terminal_login_sy.Register.{RegistReply}
use single_terminal_login_sy.Cjson.{Cjson}
use single_terminal_login_sy.Daemon.{Daemon, call, send}
use single_terminal_login_sy.Daemon.System.{Kernel, Trace, sys_sleep}

pub record UserLoginImpl (m : Mysql) : Type 0 where
  pub sql_api : SqlApi m

-- The variables errcode, errmsg and logoutFd of dealClientMessage.
pub record Answer : Type 0 where
  pub errcode : ℤ
  pub errmsg : Text
  pub logout_fd : ℤ

abbrev pub no_answer : Answer
no_answer = record { errcode = pos 0; errmsg = []; logout_fd = negsuc 0 }

abbrev pub format_error : Answer
format_error = record {
  errcode = pos 0;
  errmsg = codes "SYSTEM ERROR:Message format error!";
  logout_fd = negsuc 0;
}

abbrev pub illegal_type : Answer
illegal_type = record {
  errcode = code_value system_error;
  errmsg = codes "SYSTEM ERROR: operateType is illegal!";
  logout_fd = negsuc 0;
}

-- What dealClientMessage makes of a return value: an error sets its own code and text.
abbrev pub settle : Text → Bool × Answer → Answer
settle what (true, a) = a
settle what (false, a) = record a { errcode = code_value system_error; errmsg = what }

abbrev pub text_or_empty : Option Text → Text
text_or_empty none = []
text_or_empty (some text) = text

abbrev pub of_login : LoginReply → Bool × Answer
of_login r =
    (r.ret, record { errcode = code_value r.code; errmsg = r.msg; logout_fd = r.logout_fd })

abbrev pub of_logout : LogoutReply → Bool × Answer
of_logout r = (r.ret, record { errcode = code_value r.code; errmsg = r.msg; logout_fd = negsuc 0 })

abbrev pub of_regist : RegistReply → Bool × Answer
of_regist r = (r.ret, record { errcode = code_value r.code; errmsg = r.msg; logout_fd = negsuc 0 })

module _ {m : Mysql} where
  -- A run of Loginer or Register, on the copy.
  abbrev pub with_copy : {A : Type 0} → Exec (SqlApi m) A → Exec (Daemon (UserLoginImpl m)) A
  with_copy run s =
      let (o, copy) = run s.own.sql_api in
      (o, record s { own = record { sql_api = record s.own.sql_api { mysql = copy.mysql } } })

module _ (j : Cjson) where
  abbrev pub code_and_msg : ℤ → Text → j.Item
  code_and_msg code msg =
      j.add_string_to_object (j.add_number_to_object j.create_object (codes "code") code)
        (codes "msg") msg

  abbrev pub response_to : ℤ → ℤ → Text → j.Item → j.Item → j.Item
  response_to logout_fd code msg received info =
      j.add_linked_item_to_object (code_and_msg code msg) (codes "extendInfo") received
        (j.add_number_to_object info (codes "logoutFd") logout_fd)

module _ {m : Mysql} (j : Cjson) (time : Trace → ℕ) where
  abbrev pub now : Exec (Daemon (UserLoginImpl m)) ℕ
  now s = pure (time s.trace) s

  abbrev pub operate_type_of : Option j.Item → Exec (Daemon (UserLoginImpl m)) (Option ℤ)
  operate_type_of none = pure none
  operate_type_of (some item) = do
    require (j.is_number item)
    pure (some (narrow (j.valueint item)))

  -- none is a return of -1
  unfoldable pub get_operate_type : Text → Exec (Daemon (UserLoginImpl m)) (Option ℤ)
  get_operate_type received_message = do
    root ← deref (j.parse received_message)
    operate_type_of (j.get_object_item root (codes "operateType"))

  abbrev pub failed : Exec (Daemon (UserLoginImpl m)) (Bool × Answer)
  failed = pure (false, no_answer)

  abbrev pub run_login : Text → Text → ℤ → Exec (Daemon (UserLoginImpl m)) (Bool × Answer)
  run_login user pass fd = do
    t ← now
    r ← with_copy (Loginer.process_login user pass fd t)
    pure (of_login r)

  abbrev pub login_items :
      Option j.Item
      → Option j.Item
      → Option j.Item
      → Exec (Daemon (UserLoginImpl m)) (Bool × Answer)
  login_items none pass fd = failed
  login_items (some user) none fd = failed
  login_items (some user) (some pass) none = failed
  login_items (some user) (some pass) (some fd) = do
    require (j.is_string user)
    require (j.is_string pass)
    require (j.is_number fd)
    run_login (j.valuestring user) (j.valuestring pass) (narrow (j.valueint fd))

  abbrev pub login_message :
      Option j.Item → Option j.Item → Exec (Daemon (UserLoginImpl m)) (Bool × Answer)
  login_message none info = failed
  login_message (some message) none = failed
  login_message (some message) (some info) = do
    require (j.is_object message)
    require (j.is_object info)
    login_items (j.get_object_item message (codes "userName"))
        (j.get_object_item message (codes "passWord")) (j.get_object_item info (codes "clientFd"))

  unfoldable pub process_login : Text → Exec (Daemon (UserLoginImpl m)) (Bool × Answer)
  process_login received_message = do
    root ← deref (j.parse received_message)
    login_message (j.get_object_item root (codes "message"))
        (j.get_object_item root (codes "extendInfo"))

  abbrev pub logout_items : Option j.Item → Exec (Daemon (UserLoginImpl m)) (Bool × Answer)
  logout_items none = failed
  logout_items (some user) = do
    require (j.is_string user)
    r ← with_copy (Loginer.process_logout (j.valuestring user))
    pure (of_logout r)

  abbrev pub logout_message : Option j.Item → Exec (Daemon (UserLoginImpl m)) (Bool × Answer)
  logout_message none = failed
  logout_message (some message) = do
    require (j.is_object message)
    logout_items (j.get_object_item message (codes "userName"))

  unfoldable pub process_logout : Text → Exec (Daemon (UserLoginImpl m)) (Bool × Answer)
  process_logout received_message = do
    root ← deref (j.parse received_message)
    logout_message (j.get_object_item root (codes "message"))

  abbrev pub regist_items :
      Option j.Item → Option j.Item → Exec (Daemon (UserLoginImpl m)) (Bool × Answer)
  regist_items none pass = failed
  regist_items (some user) none = failed
  regist_items (some user) (some pass) = do
    require (j.is_string user)
    require (j.is_string pass)
    t ← now
    r ← with_copy (Register.process_regist (j.valuestring user) (j.valuestring pass) t [])
    pure (of_regist r)

  abbrev pub regist_message : Option j.Item → Exec (Daemon (UserLoginImpl m)) (Bool × Answer)
  regist_message none = failed
  regist_message (some message) = do
    require (j.is_object message)
    regist_items (j.get_object_item message (codes "userName"))
        (j.get_object_item message (codes "passWord"))

  unfoldable pub process_regist : Text → Exec (Daemon (UserLoginImpl m)) (Bool × Answer)
  process_regist received_message = do
    root ← deref (j.parse received_message)
    regist_message (j.get_object_item root (codes "message"))

  -- The switch over the operation.
  abbrev pub operate : Text → Option ℤ → Exec (Daemon (UserLoginImpl m)) Answer
  operate received_message none = pure format_error
  operate received_message (some t) =
      if eq_ℤ t (type_value regist)
      then (do
        r ← process_regist received_message
        pure (settle (codes "SYSTEM ERROR: process regist occur unexpect error!") r))
      else if eq_ℤ t (type_value login)
      then (do
        r ← process_login received_message
        pure (settle (codes "SYSTEM ERROR: process login occur unexpect error!") r))
      else if eq_ℤ t (type_value logout)
      then (do
        r ← process_logout received_message
        pure (settle (codes "SYSTEM ERROR: process logout occur unexpect error!") r))
      else pure illegal_type

  abbrev pub respond :
      ℤ → ℤ → Text → j.Item → Option j.Item → Exec (Daemon (UserLoginImpl m)) (Option Text)
  respond logout_fd code msg received none = pure none
  respond logout_fd code msg received (some info) =
      pure (some (j.print_unformatted (response_to j logout_fd code msg received info)))

  unfoldable pub get_response_message :
      Text → ℤ → ℤ → Text → Exec (Daemon (UserLoginImpl m)) (Option Text)
  get_response_message received_message logout_fd code msg = do
    received ← deref (j.parse received_message)
    respond logout_fd code msg received (j.get_object_item received (codes "extendInfo"))

  module _ (sys : Kernel) where
    abbrev pub conclude : Bool → Exec (Daemon (UserLoginImpl m)) Bool
    conclude false = pure false
    conclude true = do _ ← call sys (sys_sleep 2); pure true

    unfoldable pub deal_client_message : ℤ → ℤ → Text → Exec (Daemon (UserLoginImpl m)) Bool
    deal_client_message fd code received_message = do
      t ← get_operate_type received_message
      a ← operate received_message t
      text ← get_response_message received_message a.logout_fd a.errcode a.errmsg
      sent ← send sys fd (text_or_empty text)
      conclude sent
