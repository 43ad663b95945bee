-- ===== src/Manager/Reply.antt =====
-- userLoginImpl.cpp, getResponseMessage: its text is one that the receiver understands.
use single_terminal_login_sy.Base.{ap, ◌∙◌, ℕ, ◌≡◌, refl, true, none, some}
use single_terminal_login_sy.Base.Text.{Text, codes, text_eq}
use single_terminal_login_sy.Base.Int.{narrow, narrow-IsInt, ℤ, IsInt}
use single_terminal_login_sy.Exec.{done}
use single_terminal_login_sy.Mysql.{Mysql}
use single_terminal_login_sy.Cjson.{Cjson}
use single_terminal_login_sy.Cjson.Laws.{CjsonLaws}
use single_terminal_login_sy.Daemon.{Daemon}
use single_terminal_login_sy.Daemon.System.{Trace}
use single_terminal_login_sy.Receiver.Response.{IsResponse}
use single_terminal_login_sy.Manager.{
  UserLoginImpl, code_and_msg, response_to, get_response_message,
}

module _ (j : Cjson) (laws : CjsonLaws j) where
  -- What getResponseMessage makes is a response, when it is read back.
  pub response_to-IsResponse :
      (msg : Text) (logout_fd code : ℤ) (received info : j.Item)
      → IsInt logout_fd
      → j.is_object info ≡ true
      → j.get_object_item info (codes "logoutFd") ≡ none
      → j.parse (j.print_unformatted (response_to j logout_fd code msg received info))
        ≡ some (response_to j logout_fd code msg received info)
      → IsResponse j
          (j.print_unformatted (response_to j logout_fd code msg received info))
          msg
          logout_fd
  unfolding text_eq
  response_to-IsResponse msg logout_fd code received info small obj absent back =
      let with_code = j.add_number_to_object j.create_object (codes "code") code in
      let (msg_item, has_msg, msg_string, msg_value) =
        laws.get-add_string with_code (codes "msg") msg (
          laws.get-add_number_none j.create_object (codes "code") (codes "msg") code refl
            (laws.get-create (codes "msg"))) in
      let (fd_item, has_fd, fd_number, fd_value) =
        laws.get-add_number info (codes "logoutFd") logout_fd small absent in
      let no_info = laws.get-add_string_none with_code (codes "msg") (codes "extendInfo") msg refl (
        laws.get-add_number_none j.create_object (codes "code") (codes "extendInfo") code refl
          (laws.get-create (codes "extendInfo"))) in
      record {
        root = response_to j logout_fd code msg received info;
        msg_item = msg_item;
        info = j.add_number_to_object info (codes "logoutFd") logout_fd;
        fd_item = fd_item;
        parses = back;
        has_msg =
            laws.get-add_linked_first (code_and_msg j code msg) (codes "extendInfo") (codes "msg")
              received (j.add_number_to_object info (codes "logoutFd") logout_fd) msg_item has_msg;
        msg_is_string = msg_string;
        msg_value = msg_value;
        has_info =
            laws.get-add_linked (code_and_msg j code msg) (codes "extendInfo") received
              (j.add_number_to_object info (codes "logoutFd") logout_fd) no_info;
        info_is_object = laws.add_number-IsObject info (codes "logoutFd") logout_fd obj;
        has_fd = has_fd;
        fd_is_number = fd_number;
        fd_value = ap narrow fd_value ∙ narrow-IsInt logout_fd small;
      }

module _ {m : Mysql} (j : Cjson) (laws : CjsonLaws j) (time : Trace → ℕ) where
  -- For a message whose extendInfo is an object without logoutFd, and a descriptor in the range of
  -- int, when the response is read back from its text, getResponseMessage gives a text that the
  -- receiver reads as a response with the text and the descriptor that it was given.
  pub get_response_message-IsResponse :
      (message msg : Text) (logout_fd code : ℤ) (received info : j.Item)
      (s : Daemon (UserLoginImpl m))
      → IsInt logout_fd
      → j.parse message ≡ some received
      → j.get_object_item received (codes "extendInfo") ≡ some info
      → j.is_object info ≡ true
      → j.get_object_item info (codes "logoutFd") ≡ none
      → j.parse (j.print_unformatted (response_to j logout_fd code msg received info))
        ≡ some (response_to j logout_fd code msg received info)
      → (text : Text) × (get_response_message j time message logout_fd code msg s
          ≡ (done (some text), s))
        × IsResponse j text msg logout_fd
  unfolding get_response_message
  get_response_message-IsResponse message msg logout_fd code received info s small e has obj absent
        back =
      (
        j.print_unformatted (response_to j logout_fd code msg received info),
        rw (e, has) refl,
        response_to-IsResponse j laws msg logout_fd code received info small obj absent back,
      )
