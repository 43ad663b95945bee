-- ===== src/Journey/Join.antt =====
-- Regist.h, messageReceiver.cpp, messageDispatcher.cpp and userLoginImpl.cpp: a registration on its way
-- from the device to the tables.
use single_terminal_login_sy.Base.{ℕ, ◌<◌, ◌^◌, ◌≡◌, refl, some, [], ◌∷◌}
use single_terminal_login_sy.Base.Text.{Text}
use single_terminal_login_sy.Base.Int.{ℤ}
use single_terminal_login_sy.Codes.{regist}
use single_terminal_login_sy.Exec.{done}
use single_terminal_login_sy.Cjson.{Cjson}
use single_terminal_login_sy.Cjson.Laws.{CjsonLaws}
use single_terminal_login_sy.Daemon.{Daemon, find_key}
use single_terminal_login_sy.Daemon.System.{Kernel, Trace}
use single_terminal_login_sy.Client.Socket.{Client}
use single_terminal_login_sy.Client.Command.{count_params, credentials_item}
use single_terminal_login_sy.Client.Regist as Regist
use single_terminal_login_sy.Receiver.{MessageReceiver, extend_info, get_need_send_message}
use single_terminal_login_sy.Dispatcher.{
  MessageDispatcher, loginer_service, get_service_fd_and_message,
}
use single_terminal_login_sy.Mysql.{Mysql}
use single_terminal_login_sy.Mysql.Tables.{Tables, count_user}
use single_terminal_login_sy.Mysql.Laws.{MysqlLaws, Plain}
use single_terminal_login_sy.SqlApi.Laws.{Idle}
use single_terminal_login_sy.Manager.{UserLoginImpl, deal_client_message}
use single_terminal_login_sy.Manager.Requests.{
  RegistAnswers, IsRegistRequest, deal_client_message-RegistStep,
}
use single_terminal_login_sy.Journey.{
  sent, named, served, ReadsBack, passed_lem, has_message, has_operate, has_info, has_user,
  has_pass, credentials_item-IsObject,
}

module _ (j : Cjson) (laws : CjsonLaws j) (user pass : Text) (fd : ℤ) where
  regist_request_lem :
      ReadsBack j (served j regist (credentials_item j user pass) fd)
      → IsRegistRequest j
          (j.print_unformatted (served j regist (credentials_item j user pass) fd))
          user
          pass
  regist_request_lem back =
      let (type_item, has_type, type_number, type_value) =
        has_operate j laws regist (credentials_item j user pass) fd in
      record {
        root = served j regist (credentials_item j user pass) fd;
        message = credentials_item j user pass;
        info = extend_info j fd;
        type_item = type_item;
        user_item = j.create_string user;
        pass_item = j.create_string pass;
        parses = back;
        has_type = has_type;
        type_is_number = type_number;
        type_is_regist = type_value;
        has_message = has_message j laws regist (credentials_item j user pass) fd;
        message_is_object = credentials_item-IsObject j laws user pass;
        has_info = has_info j laws regist (credentials_item j user pass) fd;
        has_user = has_user j laws user pass;
        user_is_string = laws.create_string-IsString user;
        user_is = laws.valuestring-create_string user;
        has_pass = has_pass j laws user pass;
        pass_is_string = laws.create_string-IsString pass;
        pass_is = laws.valuestring-create_string pass;
      }

module _ {m : Mysql} (laws : MysqlLaws m) (j : Cjson) (json_laws : CjsonLaws j) (sys : Kernel)
    (time : Trace → ℕ) where
  open laws use {same, tables}

  -- A device registers a user and a password without quote and backslash, the device's message and
  -- its two extended forms are read back from their texts, the dispatcher is connected to the login
  -- service, the count of the user's accounts fits in an int, and no row is pending. Then the
  -- device, the receiver and the dispatcher return without a system call, the last two change the
  -- text that they get from the one before, and the login manager writes one answer on the last
  -- text and sleeps two seconds when the write did not fail: the answer of a registration that
  -- failed, found the name taken, or added the account; or it reads a freed row that has changed,
  -- which is undefined behaviour, and then it has written nothing and the tables are unchanged.
  pub get_json_string_from_params-RegistStep :
      (user pass : Text) (fd service sender code : ℤ) (c : Client) (r : Daemon MessageReceiver)
      (d : Daemon MessageDispatcher) (s : Daemon (UserLoginImpl m)) (t : Tables)
      → ReadsBack j (sent j regist (credentials_item j user pass))
      → ReadsBack j (named j regist (credentials_item j user pass) fd)
      → ReadsBack j (served j regist (credentials_item j user pass) fd)
      → find_key d.own.service_fd_map loginer_service ≡ some service
      → Plain user
      → Plain pass
      → count_user same user t.accounts < 2 ^ 31
      → Idle laws s.own.sql_api t
      → (m₁ m₂ m₃ : Text) × (Regist.get_json_string_from_params j sys (user ∷ pass ∷ []) c
          ≡ (done (some m₁), c))
        × (get_need_send_message j m₁ fd r ≡ (done m₂, r))
        × (get_service_fd_and_message j m₂ d ≡ (done (some (service, m₃)), d))
        × RegistAnswers laws j time sys user pass sender
            (served j regist (credentials_item j user pass) fd)
            (extend_info j fd)
            s
            t
            (deal_client_message j time sys sender code m₃ s)
  unfolding Regist.get_json_string_from_params count_params regist_request_lem
  get_json_string_from_params-RegistStep user pass fd service sender code c r d s t back back_named
        back_served found plain plain_pass small idle =
      let (read, dispatched) =
        passed_lem j json_laws regist (credentials_item j user pass) fd service r d back back_named
          found in
      let q = regist_request_lem j json_laws user pass fd back_served in
      let answers =
        deal_client_message-RegistStep laws j time sys
          (j.print_unformatted (served j regist (credentials_item j user pass) fd)) user sender code
          s t idle pass q plain plain_pass small in
      (
        j.print_unformatted (sent j regist (credentials_item j user pass)),
        j.print_unformatted (named j regist (credentials_item j user pass) fd),
        j.print_unformatted (served j regist (credentials_item j user pass) fd),
        refl,
        read,
        dispatched,
        answers,
      )
