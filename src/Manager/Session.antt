-- ===== src/Manager/Session.antt =====
-- userLoginImpl.cpp: what one login request does, from its text to the tables and the answer.
use single_terminal_login_sy.Base.{
  Bool, false, Bool-cases, inl, inr, if◌then◌else◌, ℕ, ◌≡◌, refl, true, some,
}
use single_terminal_login_sy.Base.Text.{Text, codes}
use single_terminal_login_sy.Base.Int.{is_neg, narrow, IsInt-narrow, ℤ, pos, IsInt}
use single_terminal_login_sy.Codes.{code_value}
use single_terminal_login_sy.Exec.{Outcome, done, continue}
use single_terminal_login_sy.Mysql.{Mysql}
use single_terminal_login_sy.Mysql.Tables.{Tables}
use single_terminal_login_sy.Mysql.Sound.{IsSound}
use single_terminal_login_sy.Mysql.Laws.{MysqlLaws, Plain}
use single_terminal_login_sy.SqlApi.{SqlApi}
use single_terminal_login_sy.SqlApi.Laws.{Idle}
use single_terminal_login_sy.Loginer as Loginer
use single_terminal_login_sy.Loginer.{LoginReply}
use single_terminal_login_sy.Loginer.Refine.{Fits}
use single_terminal_login_sy.Loginer.Single.{OnlyDevice}
use single_terminal_login_sy.Loginer.Terminal.{process_login-OnlyDevice}
use single_terminal_login_sy.Cjson.{Cjson}
use single_terminal_login_sy.Daemon.{called, Daemon, send}
use single_terminal_login_sy.Daemon.System.{sys_write, sys_sleep, Kernel, Trace}
use single_terminal_login_sy.Manager.{
  UserLoginImpl, response_to, get_operate_type, run_login, login_items, login_message,
  process_login, operate, get_response_message, conclude, deal_client_message,
}

-- A login request in the form that the dispatcher passes on, for a device.
pub record IsLoginRequest (j : Cjson) (text user pass : Text) (fd : ℤ) : Type 0 where
  pub root : j.Item
  pub message : j.Item
  pub info : j.Item
  pub type_item : j.Item
  pub user_item : j.Item
  pub pass_item : j.Item
  pub fd_item : j.Item
  pub parses : j.parse text ≡ some root
  pub has_type : j.get_object_item root (codes "operateType") ≡ some type_item
  pub type_is_number : j.is_number type_item ≡ true
  pub type_is_login : narrow (j.valueint type_item) ≡ pos 2
  pub has_message : j.get_object_item root (codes "message") ≡ some message
  pub message_is_object : j.is_object message ≡ true
  pub has_info : j.get_object_item root (codes "extendInfo") ≡ some info
  pub info_is_object : j.is_object info ≡ true
  pub has_user : j.get_object_item message (codes "userName") ≡ some user_item
  pub user_is_string : j.is_string user_item ≡ true
  pub user_is : j.valuestring user_item ≡ user
  pub has_pass : j.get_object_item message (codes "passWord") ≡ some pass_item
  pub pass_is_string : j.is_string pass_item ≡ true
  pub pass_is : j.valuestring pass_item ≡ pass
  pub has_fd : j.get_object_item info (codes "clientFd") ≡ some fd_item
  pub fd_is_number : j.is_number fd_item ≡ true
  pub fd_is : narrow (j.valueint fd_item) ≡ fd

-- Its descriptor is an `int`.
pub fd-IsInt :
    (j : Cjson) (text user pass : Text) (fd : ℤ) → IsLoginRequest j text user pass fd → IsInt fd
fd-IsInt j text user pass fd q = rw⁻¹ q.fd_is (IsInt-narrow (j.valueint q.fd_item))

-- What dealClientMessage does last: the text is written to the asker, and when the write did not fail
-- the manager waits two seconds.
abbrev pub replied :
    {m : Mysql}
    → Kernel
    → ℤ
    → Text
    → Daemon (UserLoginImpl m)
    → Outcome Bool × Daemon (UserLoginImpl m)
replied sys sender text s =
    if is_neg (sys s.trace (sys_write sender text)).ret
    then (done false, called sys (sys_write sender text) s)
    else (done true, called sys (sys_sleep 2) (called sys (sys_write sender text) s))

pub replied_lem :
    {m : Mysql} (j : Cjson) (time : Trace → ℕ) (sys : Kernel) (sender : ℤ) (text : Text)
    (s : Daemon (UserLoginImpl m))
    → continue (send sys sender text s) (conclude j time sys) ≡ replied sys sender text s
replied_lem j time sys sender text s =
    elim (Bool-cases (is_neg (sys s.trace (sys_write sender text)).ret)) [
      | inl failed ↦ rw failed refl
      | inr written ↦ rw written refl
    ]

-- The text of the answer to a login: what Loginer replied, around the request.
abbrev pub answer_to : (j : Cjson) → j.Item → j.Item → LoginReply → Text
answer_to j root info reply =
    j.print_unformatted (response_to j reply.logout_fd (code_value reply.code) reply.msg root info)

-- The state after the copy of the connection was used.
abbrev pub returned : {m : Mysql} → Daemon (UserLoginImpl m) → SqlApi m → Daemon (UserLoginImpl m)
returned s copy = record s {
  own = record { sql_api = record s.own.sql_api { mysql = copy.mysql } };
}

module _ {m : Mysql} (j : Cjson) (time : Trace → ℕ) (text user pass : Text) (fd : ℤ)
    (q : IsLoginRequest j text user pass fd) where
  pub type_lem :
      (s : Daemon (UserLoginImpl m)) → get_operate_type j time text s ≡ (done (some (pos 2)), s)
  unfolding get_operate_type
  type_lem s = rw (q.parses, q.has_type, q.type_is_number, q.type_is_login) refl

  items_lem :
      (s : Daemon (UserLoginImpl m))
      → login_items j time (some q.user_item) (some q.pass_item) (some q.fd_item) s
        ≡ run_login j time user pass fd s
  items_lem s =
      rw (q.user_is_string, q.pass_is_string, q.fd_is_number, q.user_is, q.pass_is, q.fd_is) refl

  message_lem :
      (s : Daemon (UserLoginImpl m))
      → login_message j time (some q.message) (some q.info) s ≡ run_login j time user pass fd s
  message_lem s =
      rw (q.message_is_object, q.info_is_object, q.has_user, q.has_pass, q.has_fd) (items_lem s)

  pub process_login_lem :
      (s : Daemon (UserLoginImpl m)) → process_login j time text s ≡ run_login j time user pass fd s
  unfolding process_login
  process_login_lem s = rw (q.parses, q.has_message, q.has_info) (message_lem s)

  answer_lem :
      (reply : LoginReply) (s : Daemon (UserLoginImpl m))
      → get_response_message j time text reply.logout_fd (code_value reply.code) reply.msg s
        ≡ (done (some (answer_to j q.root q.info reply)), s)
  unfolding get_response_message
  answer_lem reply s = rw (q.parses, q.has_info) refl

  run_lem :
      (s : Daemon (UserLoginImpl m)) (reply : LoginReply) (copy : SqlApi m)
      → Loginer.process_login user pass fd (time s.trace) s.own.sql_api ≡ (done reply, copy)
      → reply.ret ≡ true
      → operate j time text (some (pos 2)) s ≡ (
        done (record {
          errcode = code_value reply.code;
          errmsg = reply.msg;
          logout_fd = reply.logout_fd;
        }),
        returned s copy,
      )
  run_lem s reply copy run ok = rw (process_login_lem s, run, ok) refl

  -- dealClientMessage on a login request that Loginer accepts: it sends Loginer's answer.
  pub deal_login_lem :
      (sys : Kernel) (sender code : ℤ) (s : Daemon (UserLoginImpl m)) (reply : LoginReply)
      (copy : SqlApi m)
      → Loginer.process_login user pass fd (time s.trace) s.own.sql_api ≡ (done reply, copy)
      → reply.ret ≡ true
      → deal_client_message j time sys sender code text s
        ≡ replied sys sender (answer_to j q.root q.info reply) (returned s copy)
  unfolding deal_client_message
  deal_login_lem sys sender code s reply copy run ok =
      rw (type_lem s, run_lem s reply copy run ok, answer_lem reply (returned s copy))
        (replied_lem j time sys sender (answer_to j q.root q.info reply) (returned s copy))

module _ {m : Mysql} (laws : MysqlLaws m) (j : Cjson) (time : Trace → ℕ) (sys : Kernel) where
  open laws use {same, tables}

  -- For a login request of a user and a password without quote and backslash, sound tables with
  -- counts and row numbers in the range of int, and no row pending, if Loginer reports success, and
  -- so read no freed row that had changed, the login manager writes Loginer's code, text and
  -- descriptor to the asker, sleeps two seconds when the write did not fail, and on the tables the
  -- user is logged in on exactly the device whose descriptor, cast to int, the request holds.
  pub deal_client_message-OnlyDevice :
      (text user pass : Text) (fd sender code : ℤ) (q : IsLoginRequest j text user pass fd)
      (s : Daemon (UserLoginImpl m)) (t : Tables) (reply : LoginReply) (copy : SqlApi m)
      → Plain user
      → Plain pass
      → IsSound same t
      → Fits t same user pass
      → Idle laws s.own.sql_api t
      → Loginer.process_login user pass fd (time s.trace) s.own.sql_api ≡ (done reply, copy)
      → reply.ret ≡ true
      → (deal_client_message j time sys sender code text s
          ≡ replied sys sender (answer_to j q.root q.info reply) (returned s copy))
        × OnlyDevice laws user pass fd
            (time s.trace)
            t
            reply
            (tables (returned s copy).own.sql_api.mysql)
  deal_client_message-OnlyDevice text user pass fd sender code q s t reply copy plain plain_pass
        sound fits idle run ok =
      (
        deal_login_lem j time text user pass fd q sys sender code s reply copy run ok,
        process_login-OnlyDevice laws user pass fd (time s.trace) plain plain_pass
            (fd-IsInt j text user pass fd q) s.own.sql_api t sound fits idle reply copy run ok,
      )
