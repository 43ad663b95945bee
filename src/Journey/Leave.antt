-- ===== src/Journey/Leave.antt =====
-- Logout.h, messageReceiver.cpp, messageDispatcher.cpp and userLoginImpl.cpp: a logout on its way from the
-- device to the tables.
use single_terminal_login_sy.Base.{ℕ, ◌≤◌, ◌^◌, ◌≡◌, refl, some, [], ◌∷◌}
use single_terminal_login_sy.Base.Text.{Text}
use single_terminal_login_sy.Base.Int.{ℤ}
use single_terminal_login_sy.Codes.{logout}
use single_terminal_login_sy.Exec.{done}
use single_terminal_login_sy.Cjson.{Cjson}
use single_terminal_login_sy.Cjson.Laws.{CjsonLaws}
use single_terminal_login_sy.Daemon.{Daemon, find_key}
use single_terminal_login_sy.Daemon.System.{Kernel, Trace}
use single_terminal_login_sy.Client.Socket.{Client}
use single_terminal_login_sy.Client.Command.{count_params, user_item}
use single_terminal_login_sy.Client.Logout as Logout
use single_terminal_login_sy.Receiver.{MessageReceiver, extend_info, get_need_send_message}
use single_terminal_login_sy.Dispatcher.{
  MessageDispatcher, loginer_service, get_service_fd_and_message,
}
use single_terminal_login_sy.Mysql.{Mysql}
use single_terminal_login_sy.Mysql.Tables.{Tables}
use single_terminal_login_sy.Mysql.Sound.{IsSound}
use single_terminal_login_sy.Mysql.Laws.{MysqlLaws, Plain}
use single_terminal_login_sy.SqlApi.Laws.{Idle}
use single_terminal_login_sy.Manager.{UserLoginImpl, deal_client_message}
use single_terminal_login_sy.Manager.Requests.{
  LogoutAnswers, IsLogoutRequest, deal_client_message-SignedOut,
}
use single_terminal_login_sy.Journey.{
  sent, named, served, ReadsBack, passed_lem, has_message, has_operate, has_info, user_item_lem,
  user_item-IsObject,
}

module _ (j : Cjson) (laws : CjsonLaws j) (user : Text) (fd : ℤ) where
  logout_request_lem :
      ReadsBack j (served j logout (user_item j user) fd)
      → IsLogoutRequest j (j.print_unformatted (served j logout (user_item j user) fd)) user
  logout_request_lem back =
      let (type_item, has_type, type_number, type_value) =
        has_operate j laws logout (user_item j user) fd in
      record {
        root = served j logout (user_item j user) fd;
        message = user_item j user;
        info = extend_info j fd;
        type_item = type_item;
        user_item = j.create_string user;
        parses = back;
        has_type = has_type;
        type_is_number = type_number;
        type_is_logout = type_value;
        has_message = has_message j laws logout (user_item j user) fd;
        message_is_object = user_item-IsObject j laws user;
        has_info = has_info j laws logout (user_item j user) fd;
        has_user = user_item_lem j laws user;
        user_is_string = laws.create_string-IsString user;
        user_is = laws.valuestring-create_string user;
      }

module _ {m : Mysql} (laws : MysqlLaws m) (j : Cjson) (json_laws : CjsonLaws j) (sys : Kernel)
    (time : Trace → ℕ) where
  open laws use {same, tables}

  -- A device logs a user out whose name has no quote or backslash, the device's message and its two
  -- extended forms are read back from their texts, the dispatcher is connected to the login
  -- service, and the tables are sound, with row numbers below 2^31 and no row pending. Then the
  -- device, the receiver and the dispatcher return without a system call, the last two change the
  -- text that they get from the one before, and the login manager writes one answer on the last
  -- text and sleeps two seconds when the write did not fail: the answer of a logout that either
  -- failed, with the tables unchanged, or succeeded, with the user logged in nowhere and the tables
  -- sound; or it reads a freed row that has changed, which is undefined behaviour, and then it has
  -- written nothing and the tables are unchanged.
  pub get_json_string_from_params-SignedOut :
      (user : Text) (fd service sender code : ℤ) (c : Client) (r : Daemon MessageReceiver)
      (d : Daemon MessageDispatcher) (s : Daemon (UserLoginImpl m)) (t : Tables)
      → ReadsBack j (sent j logout (user_item j user))
      → ReadsBack j (named j logout (user_item j user) fd)
      → ReadsBack j (served j logout (user_item j user) fd)
      → find_key d.own.service_fd_map loginer_service ≡ some service
      → Plain user
      → IsSound same t
      → t.next_id ≤ 2 ^ 31
      → Idle laws s.own.sql_api t
      → (m₁ m₂ m₃ : Text) × (Logout.get_json_string_from_params j sys (user ∷ []) c
          ≡ (done (some m₁), c))
        × (get_need_send_message j m₁ fd r ≡ (done m₂, r))
        × (get_service_fd_and_message j m₂ d ≡ (done (some (service, m₃)), d))
        × LogoutAnswers laws j time sys user sender
            (served j logout (user_item j user) fd)
            (extend_info j fd)
            s
            t
            (deal_client_message j time sys sender code m₃ s)
  unfolding Logout.get_json_string_from_params count_params logout_request_lem
  get_json_string_from_params-SignedOut user fd service sender code c r d s t back back_named
        back_served found plain sound ids idle =
      let (read, dispatched) =
        passed_lem j json_laws logout (user_item j user) fd service r d back back_named found in
      let q = logout_request_lem j json_laws user fd back_served in
      let answers =
        deal_client_message-SignedOut laws j time sys
          (j.print_unformatted (served j logout (user_item j user) fd)) user sender code s t idle q
          plain sound ids in
      (
        j.print_unformatted (sent j logout (user_item j user)),
        j.print_unformatted (named j logout (user_item j user) fd),
        j.print_unformatted (served j logout (user_item j user) fd),
        refl,
        read,
        dispatched,
        answers,
      )
