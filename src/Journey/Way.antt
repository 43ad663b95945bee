-- ===== src/Journey/Way.antt =====
-- Login.h, messageReceiver.cpp and messageDispatcher.cpp: a login on its way to the login manager.
use single_terminal_login_sy.Base.{ap, ◌∙◌, ◌≡◌, refl, some, [], ◌∷◌}
use single_terminal_login_sy.Base.Text.{Text, codes}
use single_terminal_login_sy.Base.Int.{narrow, narrow-IsInt, ℤ, IsInt}
use single_terminal_login_sy.Codes.{login}
use single_terminal_login_sy.Exec.{done}
use single_terminal_login_sy.Cjson.{Cjson}
use single_terminal_login_sy.Cjson.Laws.{CjsonLaws}
use single_terminal_login_sy.Daemon.{Daemon, find_key}
use single_terminal_login_sy.Daemon.System.{Kernel}
use single_terminal_login_sy.Client.Socket.{Client}
use single_terminal_login_sy.Client.Command.{count_params, credentials_item}
use single_terminal_login_sy.Client.Login as Login
use single_terminal_login_sy.Receiver.{MessageReceiver, extend_info, get_need_send_message}
use single_terminal_login_sy.Dispatcher.{
  MessageDispatcher, loginer_service, get_service_fd_and_message,
}
use single_terminal_login_sy.Manager.Session.{IsLoginRequest}
use single_terminal_login_sy.Journey.{
  sent, named, served, ReadsBack, passed_lem, has_message, has_operate, has_info, has_user,
  has_pass, credentials_item-IsObject,
}

module _ (j : Cjson) (laws : CjsonLaws j) (user pass : Text) (fd : ℤ) (small : IsInt fd) where
  login_request_lem :
      ReadsBack j (served j login (credentials_item j user pass) fd)
      → IsLoginRequest j
          (j.print_unformatted (served j login (credentials_item j user pass) fd))
          user
          pass
          fd
  login_request_lem back =
      let (type_item, has_type, type_number, type_value) =
        has_operate j laws login (credentials_item j user pass) fd in
      let (fd_item, has_fd, fd_number, fd_value) =
        laws.get-add_number j.create_object (codes "clientFd") fd small
          (laws.get-create (codes "clientFd")) in
      record {
        root = served j login (credentials_item j user pass) fd;
        message = credentials_item j user pass;
        info = extend_info j fd;
        type_item = type_item;
        user_item = j.create_string user;
        pass_item = j.create_string pass;
        fd_item = fd_item;
        parses = back;
        has_type = has_type;
        type_is_number = type_number;
        type_is_login = type_value;
        has_message = has_message j laws login (credentials_item j user pass) fd;
        message_is_object = credentials_item-IsObject j laws user pass;
        has_info = has_info j laws login (credentials_item j user pass) fd;
        info_is_object =
            laws.add_number-IsObject j.create_object (codes "clientFd") fd laws.create-IsObject;
        has_user = has_user j laws user pass;
        user_is_string = laws.create_string-IsString user;
        user_is = laws.valuestring-create_string user;
        has_pass = has_pass j laws user pass;
        pass_is_string = laws.create_string-IsString pass;
        pass_is = laws.valuestring-create_string pass;
        has_fd = has_fd;
        fd_is_number = fd_number;
        fd_is = ap narrow fd_value ∙ narrow-IsInt fd small;
      }

module _ (j : Cjson) (laws : CjsonLaws j) (sys : Kernel) where
  -- When the device's message and its two extended forms are read back from their texts, the device
  -- logs in with a user and a password, the receiver reads from it under a descriptor in the range of
  -- int and the dispatcher is connected to the login service, then each of the three programs returns
  -- without a system call, the receiver and the dispatcher change the text that they get from the one
  -- before, and the last text is a login request for this user, this password and this descriptor.
  pub get_json_string_from_params-IsLoginRequest :
      (user pass : Text) (fd service : ℤ) (c : Client) (r : Daemon MessageReceiver)
      (d : Daemon MessageDispatcher)
      → IsInt fd
      → ReadsBack j (sent j login (credentials_item j user pass))
      → ReadsBack j (named j login (credentials_item j user pass) fd)
      → ReadsBack j (served j login (credentials_item j user pass) fd)
      → find_key d.own.service_fd_map loginer_service ≡ some service
      → (m₁ m₂ m₃ : Text) × (Login.get_json_string_from_params j sys (user ∷ pass ∷ []) c
          ≡ (done (some m₁), c))
        × (get_need_send_message j m₁ fd r ≡ (done m₂, r))
        × (get_service_fd_and_message j m₂ d ≡ (done (some (service, m₃)), d))
        × IsLoginRequest j m₃ user pass fd
  unfolding Login.get_json_string_from_params count_params
  get_json_string_from_params-IsLoginRequest user pass fd service c r d small back back_named
        back_served found =
      let (read, dispatched) =
        passed_lem j laws login (credentials_item j user pass) fd service r d back back_named
          found in
      (
        j.print_unformatted (sent j login (credentials_item j user pass)),
        j.print_unformatted (named j login (credentials_item j user pass) fd),
        j.print_unformatted (served j login (credentials_item j user pass) fd),
        refl,
        read,
        dispatched,
        login_request_lem j laws user pass fd small back_served,
      )
