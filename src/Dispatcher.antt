-- ===== src/Dispatcher.antt =====
-- service/messageDispatcher/messageDispatcher.cpp: class MessageDispatcher.
pub mod Relay
pub mod Main
pub mod Runs
use single_terminal_login_sy.Base.{
  Bool, true, false, not, ◌||◌, Option, none, some, ℕ, List, ltb, if◌then◌else◌,
}
use single_terminal_login_sy.Base.Text.{Text, codes, c_str}
use single_terminal_login_sy.Base.Int.{narrow, ℤ, pos, negsuc, eq_ℤ}
use single_terminal_login_sy.Codes.{regist, login, logout, type_value}
use single_terminal_login_sy.Exec.{Exec, pure, crash, ◌>>=◌, ◌>>◌, require, deref, out_of_bounds}
use single_terminal_login_sy.Cjson.{Cjson}
use single_terminal_login_sy.Daemon.{
  Daemon, call, send, connect_to_service, epoll_ctl, name_fd, find_key, insert_key,
}
use single_terminal_login_sy.Daemon.System.{Kernel, in_events, epoll_add, sys_read}

pub record MessageDispatcher : Type 0 where
  pub service_fd_map : List (ℤ × ℤ)

-- LOGINER_SERVICE of HANDLE_SERVICE
abbrev pub loginer_service : ℤ
loginer_service = pos 1

abbrev pub message_max_len : ℕ
message_max_len = 10240

-- The cases of the switch that deal with the login service.
abbrev pub is_login_type : ℤ → Bool
is_login_type t =
    eq_ℤ t (type_value regist) || (eq_ℤ t (type_value login) || eq_ℤ t (type_value logout))

abbrev pub keep_service : ℤ → ℤ → Exec (Daemon MessageDispatcher) (Unit {0})
keep_service service fd s =
    pure tt
      (record s { own = record { service_fd_map = insert_key s.own.service_fd_map service fd } })

abbrev pub find_service : ℤ → Exec (Daemon MessageDispatcher) (Option ℤ)
find_service service s = pure (find_key s.own.service_fd_map service) s

module _ (sys : Kernel) where
  abbrev pub after_connect : ℤ → Option ℤ → Exec (Daemon MessageDispatcher) Bool
  after_connect epoll_fd none = pure false
  after_connect epoll_fd (some fd) = do
    added ← epoll_ctl sys epoll_fd epoll_add fd in_events
    if added
        then (do keep_service loginer_service fd; name_fd fd (codes "LOGINER SERVICE"); pure true)
        else pure false

  unfoldable pub connect_all_handle_service : ℤ → Exec (Daemon MessageDispatcher) Bool
  connect_all_handle_service epoll_fd = do
    sock ← connect_to_service sys (codes "127.0.0.1") 8082
    after_connect epoll_fd sock

  -- `response[ret] = '\0'` needs ret below the length of the array.
  abbrev pub relay : ℤ → Text → ℤ → Exec (Daemon MessageDispatcher) Bool
  relay fd bytes (negsuc n) = pure false
  relay fd bytes (pos n) =
      if ltb n message_max_len then send sys fd (c_str bytes) else crash out_of_bounds

  abbrev pub forward : ℤ → Option (ℤ × Text) → Exec (Daemon MessageDispatcher) Bool
  forward fd none = pure false
  forward fd (some (service, text)) = do
    sent ← send sys service text
    if sent
        then (do r ← call sys (sys_read service message_max_len); relay fd r.bytes r.ret)
        else pure false

module _ (j : Cjson) where
  abbrev pub with_operate_type : j.Item → ℤ → Option ℤ → Option (ℤ × Text)
  with_operate_type json t none = none
  with_operate_type json t (some fd) =
      some (fd, j.print_unformatted (j.add_number_to_object json (codes "operateType") t))

  -- The descriptor of the service and the message for it, none for a return of -1.
  unfoldable pub deal_login : j.Item → ℤ → Exec (Daemon MessageDispatcher) (Option (ℤ × Text))
  deal_login json t = do fd ← find_service loginer_service; pure (with_operate_type json t fd)

  abbrev pub deal_type :
      j.Item → Option j.Item → Exec (Daemon MessageDispatcher) (Option (ℤ × Text))
  deal_type json none = pure none
  deal_type json (some item) = do
    require (j.is_number item)
    let t = narrow (j.valueint item) in if is_login_type t then deal_login json t else pure none

  unfoldable pub get_service_fd_and_message :
      Text → Exec (Daemon MessageDispatcher) (Option (ℤ × Text))
  get_service_fd_and_message received_message = do
    json ← deref (j.parse received_message)
    deal_type json (j.get_object_item json (codes "messageType"))

  module _ (sys : Kernel) where
    unfoldable pub deal_client_message : ℤ → ℤ → Text → Exec (Daemon MessageDispatcher) Bool
    deal_client_message fd code received_message = do
      found ← get_service_fd_and_message received_message
      forward sys fd found
