-- ===== src/Tests/Runs.antt =====
-- The theorems on whole runs of the services: each starts, takes a connection on descriptor 7, and reads
-- a message from it.
use single_terminal_login_sy.Base.{◌≡◌, refl, inl, [], Bool, true, some}
use single_terminal_login_sy.Base.Text.{Text}
use single_terminal_login_sy.Base.Int.{ℤ, pos}
use single_terminal_login_sy.Exec.{Exec, done}
use single_terminal_login_sy.Daemon.{
  Daemon, new_daemon, epoll_ctl, deal_connect_request, deal_read_event, create_listen_sock,
  create_epoll_fd, connect_to_service,
}
use single_terminal_login_sy.Daemon.Loop.{deal_event}
use single_terminal_login_sy.Daemon.System.{in_events, data_fd}
use single_terminal_login_sy.Daemon.Epoll.{interest}
use single_terminal_login_sy.Daemon.Heap.{IsWf}
use single_terminal_login_sy.Daemon.Reach.{Reach, begin, event}
use single_terminal_login_sy.Receiver as Receiver
use single_terminal_login_sy.Receiver.{MessageReceiver, connect_tomessage_dispatcher_service}
use single_terminal_login_sy.Receiver.Main as ReceiverMain
use single_terminal_login_sy.Receiver.Runs.{receiver_run-IsWf}
use single_terminal_login_sy.Dispatcher as Dispatcher
use single_terminal_login_sy.Dispatcher.{MessageDispatcher, connect_all_handle_service}
use single_terminal_login_sy.Dispatcher.Main as DispatcherMain
use single_terminal_login_sy.Dispatcher.Runs.{dispatcher_run-IsWf}
use single_terminal_login_sy.Manager as Manager
use single_terminal_login_sy.Manager.{UserLoginImpl}
use single_terminal_login_sy.Manager.Main as ManagerMain
use single_terminal_login_sy.Manager.Runs.{manager_run-IsWf}
use single_terminal_login_sy.Tests.Data as Data
use single_terminal_login_sy.Tests.Data.{session_of}
use single_terminal_login_sy.Tests.Json.{json}
use single_terminal_login_sy.Tests.Kernels.{working}
use single_terminal_login_sy.Tests.Server.{server}

module _ {X : Type 0} (h : ℤ → ℤ → Text → Exec (Daemon X) Bool) where
  -- The state after a readable descriptor was dealt with.
  abbrev dealt : Daemon X → ℤ → Daemon X
  dealt s fd = (deal_event working h (pos 4) (pos 3) (in_events, data_fd fd) s).1

abbrev receiver_own : MessageReceiver
receiver_own = record { send_to_message_dispatcher_service_fd = pos 0 }

abbrev receiver_first : Daemon (MessageReceiver)
receiver_first = (ReceiverMain.start working (new_daemon receiver_own)).1

receiver_started :
    ReceiverMain.start working (new_daemon receiver_own)
    ≡ (done (some (pos 4, pos 3)), receiver_first)
unfolding ReceiverMain.start connect_tomessage_dispatcher_service epoll_ctl create_listen_sock
    create_epoll_fd connect_to_service
receiver_started = refl

abbrev receiver_second : Daemon (MessageReceiver)
receiver_second = dealt (Receiver.deal_client_message (json []) working) receiver_first (pos 4)

abbrev receiver_last : Daemon (MessageReceiver)
receiver_last = dealt (Receiver.deal_client_message (json []) working) receiver_second (pos 7)

receiver_run :
    Reach working
      (Receiver.deal_client_message (json []) working)
      (pos 4)
      (pos 3)
      receiver_first
      receiver_last
unfolding ReceiverMain.start connect_tomessage_dispatcher_service epoll_ctl create_listen_sock
    create_epoll_fd connect_to_service deal_event deal_connect_request deal_read_event interest
receiver_run =
    event receiver_second receiver_last (pos 7) in_events in_events (data_fd (pos 7)) true
      (event receiver_first receiver_second (pos 4) in_events in_events (data_fd (pos 4)) true begin
        refl refl (inl refl))
      refl refl (inl refl)

receiver_run-IsWf_example : IsWf (pos 3) receiver_last
receiver_run-IsWf_example =
    receiver_run-IsWf (json []) working receiver_own (pos 4) (pos 3) receiver_first receiver_last
      receiver_started receiver_run

abbrev dispatcher_own : MessageDispatcher
dispatcher_own = record { service_fd_map = [] }

abbrev dispatcher_first : Daemon (MessageDispatcher)
dispatcher_first = (DispatcherMain.start working (new_daemon dispatcher_own)).1

dispatcher_started :
    DispatcherMain.start working (new_daemon dispatcher_own)
    ≡ (done (some (pos 4, pos 3)), dispatcher_first)
unfolding DispatcherMain.start connect_all_handle_service epoll_ctl create_listen_sock
    create_epoll_fd connect_to_service
dispatcher_started = refl

abbrev dispatcher_second : Daemon (MessageDispatcher)
dispatcher_second =
    dealt (Dispatcher.deal_client_message (json []) working) dispatcher_first (pos 4)

abbrev dispatcher_last : Daemon (MessageDispatcher)
dispatcher_last = dealt (Dispatcher.deal_client_message (json []) working) dispatcher_second (pos 7)

dispatcher_run :
    Reach working
      (Dispatcher.deal_client_message (json []) working)
      (pos 4)
      (pos 3)
      dispatcher_first
      dispatcher_last
unfolding DispatcherMain.start connect_all_handle_service epoll_ctl create_listen_sock
    create_epoll_fd connect_to_service deal_event deal_connect_request deal_read_event interest
dispatcher_run =
    event dispatcher_second dispatcher_last (pos 7) in_events in_events (data_fd (pos 7)) true
      (event dispatcher_first dispatcher_second (pos 4) in_events in_events (data_fd (pos 4)) true
        begin refl refl (inl refl))
      refl refl (inl refl)

dispatcher_run-IsWf_example : IsWf (pos 3) dispatcher_last
dispatcher_run-IsWf_example =
    dispatcher_run-IsWf (json []) working dispatcher_own (pos 4) (pos 3) dispatcher_first
      dispatcher_last dispatcher_started dispatcher_run

abbrev manager_own : UserLoginImpl server
manager_own = record { sql_api = session_of Data.start }

abbrev manager_first : Daemon (UserLoginImpl server)
manager_first = (ManagerMain.open_sockets working (new_daemon manager_own)).1

manager_started :
    ManagerMain.open_sockets working (new_daemon manager_own)
    ≡ (done (some (pos 4, pos 3)), manager_first)
unfolding ManagerMain.open_sockets epoll_ctl create_listen_sock create_epoll_fd connect_to_service
manager_started = refl

abbrev manager_second : Daemon (UserLoginImpl server)
manager_second =
    dealt (Manager.deal_client_message (json []) (λ _. 100) working) manager_first (pos 4)

abbrev manager_last : Daemon (UserLoginImpl server)
manager_last =
    dealt (Manager.deal_client_message (json []) (λ _. 100) working) manager_second (pos 7)

manager_run :
    Reach working
      (Manager.deal_client_message (json []) (λ _. 100) working)
      (pos 4)
      (pos 3)
      manager_first
      manager_last
unfolding ManagerMain.open_sockets epoll_ctl create_listen_sock create_epoll_fd connect_to_service
    deal_event deal_connect_request deal_read_event interest
manager_run =
    event manager_second manager_last (pos 7) in_events in_events (data_fd (pos 7)) true
      (event manager_first manager_second (pos 4) in_events in_events (data_fd (pos 4)) true begin
        refl refl (inl refl))
      refl refl (inl refl)

manager_run-IsWf_example : IsWf (pos 3) manager_last
manager_run-IsWf_example =
    manager_run-IsWf (json []) (λ _. 100) working manager_own (pos 4) (pos 3) manager_first
      manager_last manager_started manager_run
