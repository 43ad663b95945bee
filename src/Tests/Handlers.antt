-- ===== src/Tests/Handlers.antt =====
-- The receiver's handler, for a message of device 7 whose answer names device 5.
use single_terminal_login_sy.Base.{◌≡◌, refl, [], ◌∷◌, some, arith}
use single_terminal_login_sy.Base.Text.{codes, text_eq, c_str}
use single_terminal_login_sy.Base.Int.{narrow, to_int, pos}
use single_terminal_login_sy.Base.Decimal.{show_ℤ, show_ℕ}
use single_terminal_login_sy.Cjson.{Cjson}
use single_terminal_login_sy.Daemon.{send, called}
use single_terminal_login_sy.Daemon.System.{Kernel}
use single_terminal_login_sy.Receiver.{deal_client_message}
use single_terminal_login_sy.Receiver.Response.{IsResponse, logout_notice}
use single_terminal_login_sy.Receiver.Handler.{answered, deal_client_message_notifies}
use single_terminal_login_sy.Tests.Json.{
  num, str, obj, no_fields, field, json, print_tree, find_text, find_field, append_field,
}
use single_terminal_login_sy.Tests.Messages.{receiver, request, response}
use single_terminal_login_sy.Tests.Kernels.{kernel_of}

abbrev library : Cjson
library = json (response (pos 5) ∷ request (pos 2) ∷ [])

-- The dispatcher's answer is the response.
abbrev answering : Kernel
answering = kernel_of (pos 2) (pos 50) (print_tree (response (pos 5)))

request_back :
    find_text (response (pos 5) ∷ request (pos 2) ∷ []) (print_tree (request (pos 2)))
    ≡ some (request (pos 2))
unfolding find_text print_tree append_field text_eq show_ℤ show_ℕ
request_back = refl

the_response : IsResponse library (c_str (print_tree (response (pos 5)))) (codes "ok") (pos 5)
unfolding find_text print_tree append_field find_field text_eq show_ℤ show_ℕ c_str narrow to_int
the_response = record {
  root = response (pos 5);
  msg_item = str (codes "ok");
  info = obj (field (codes "logoutFd") (num (pos 5)) no_fields);
  fd_item = num (pos 5);
  parses = refl;
  has_msg = refl;
  msg_is_string = refl;
  msg_value = refl;
  has_info = refl;
  info_is_object = refl;
  has_fd = refl;
  fd_is_number = refl;
  fd_value = refl;
}

deal_client_message_notifies_example :
    deal_client_message library answering (pos 7) (pos 0) (print_tree (request (pos 2))) receiver
    ≡ send answering (pos 7) (codes "ok") (
        called answering
          (logout_notice (pos 5))
          (answered library answering (pos 7) (request (pos 2)) receiver))
deal_client_message_notifies_example =
    deal_client_message_notifies library answering (pos 7) (request (pos 2)) receiver (pos 0)
      (print_tree (request (pos 2))) (codes "ok") (pos 5) 50 request_back refl refl (omega arith)
      the_response refl refl
