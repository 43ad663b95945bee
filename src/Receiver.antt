-- ===== src/Receiver.antt =====
-- service/messageReceiver/messageReceiver.cpp: class MessageReceiver.
pub mod Response
pub mod Request
pub mod Main
pub mod Runs
pub mod Handler
pub mod Loginer
pub mod Register
use single_terminal_login_sy.Base.{
  Bool, true, false, not, Option, none, some, ℕ, ltb, if◌then◌else◌,
}
use single_terminal_login_sy.Base.Text.{Text, codes, c_str}
use single_terminal_login_sy.Base.Int.{narrow, ℤ, pos, negsuc, is_neg, is_pos}
use single_terminal_login_sy.Exec.{Exec, pure, crash, ◌>>=◌, ◌>>◌, require, deref, out_of_bounds}
use single_terminal_login_sy.Cjson.{Cjson}
use single_terminal_login_sy.Daemon.{Daemon, call, connect_to_service, epoll_ctl, name_fd, send}
use single_terminal_login_sy.Daemon.System.{
  Kernel, Reply, in_events, epoll_add, sys_read, sys_write,
}

pub record MessageReceiver : Type 0 where
  pub send_to_message_dispatcher_service_fd : ℤ

abbrev pub message_max_len : ℕ
message_max_len = 10240

abbrev pub service_fd : Exec (Daemon MessageReceiver) ℤ
service_fd s = pure s.own.send_to_message_dispatcher_service_fd s

abbrev pub keep_service_fd : ℤ → Exec (Daemon MessageReceiver) (Unit {0})
keep_service_fd fd s =
    pure tt (record s { own = record { send_to_message_dispatcher_service_fd = fd } })

module _ (sys : Kernel) where
  abbrev pub after_connect : ℤ → Option ℤ → Exec (Daemon MessageReceiver) Bool
  after_connect epoll_fd none = pure false
  after_connect epoll_fd (some fd) = do
    added ← epoll_ctl sys epoll_fd epoll_add fd in_events
    if added
        then (do keep_service_fd fd; name_fd fd (codes "MESSAGE DISPATCHER SERVICE"); pure true)
        else pure false

  unfoldable pub connect_tomessage_dispatcher_service : ℤ → Exec (Daemon MessageReceiver) Bool
  connect_tomessage_dispatcher_service epoll_fd = do
    sock ← connect_to_service sys (codes "127.0.0.1") 8081
    after_connect epoll_fd sock

  abbrev pub notice : ℤ → Exec (Daemon MessageReceiver) Bool
  notice logout_fd = if is_pos logout_fd then send sys logout_fd (codes "logout") else pure true

module _ (j : Cjson) where
  -- { "clientFd": sendToClientFd }
  abbrev pub extend_info : ℤ → j.Item
  extend_info fd = j.add_number_to_object j.create_object (codes "clientFd") fd

  unfoldable pub get_need_send_message : Text → ℤ → Exec (Daemon MessageReceiver) Text
  get_need_send_message received_message fd = do
    message_json ← deref (j.parse received_message)
    pure (
        j.print_unformatted
          (j.add_item_to_object message_json (codes "extendInfo") (extend_info fd)))

  module _ (sys : Kernel) where
    abbrev pub deal_logout_fd : ℤ → Text → Option j.Item → Exec (Daemon MessageReceiver) Bool
    deal_logout_fd fd msg none = pure false
    deal_logout_fd fd msg (some item) = do
      require (j.is_number item)
      told ← notice sys (narrow (j.valueint item))
      if told then send sys fd msg else pure false

    abbrev pub deal_items : ℤ → Option j.Item → Option j.Item → Exec (Daemon MessageReceiver) Bool
    deal_items fd none info = pure false
    deal_items fd (some msg) none = pure false
    deal_items fd (some msg) (some info) = do
      require (j.is_string msg)
      require (j.is_object info)
      deal_logout_fd fd (j.valuestring msg) (j.get_object_item info (codes "logoutFd"))

    unfoldable pub deal_service_response : ℤ → Text → Exec (Daemon MessageReceiver) Bool
    deal_service_response fd response = do
      response_json ← deref (j.parse response)
      deal_items fd (j.get_object_item response_json (codes "msg"))
          (j.get_object_item response_json (codes "extendInfo"))

    -- `response[ret] = '\0'` needs ret below the length of the array.
    abbrev pub after_response : ℤ → Text → ℤ → Exec (Daemon MessageReceiver) Bool
    after_response fd bytes (negsuc n) = pure false
    after_response fd bytes (pos n) =
        if ltb n message_max_len
        then deal_service_response fd (c_str bytes)
        else crash out_of_bounds

    abbrev pub ask : ℤ → ℤ → Text → Exec (Daemon MessageReceiver) Bool
    ask fd service text = do
      sent ← send sys service text
      if sent
          then (do r ← call sys (sys_read service message_max_len); after_response fd r.bytes r.ret)
          else pure false

    unfoldable pub deal_client_message : ℤ → ℤ → Text → Exec (Daemon MessageReceiver) Bool
    deal_client_message fd code message = do
      text ← get_need_send_message message fd
      service ← service_fd
      ask fd service text
