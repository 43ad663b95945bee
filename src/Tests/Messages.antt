-- ===== src/Tests/Messages.antt =====
-- The theorems on the receiver and the dispatcher at messages of one device, descriptor 7.
use single_terminal_login_sy.Base.{◌≡◌, refl, [], ◌∷◌, false, some, arith}
use single_terminal_login_sy.Base.Text.{Text, codes, text_eq, c_str}
use single_terminal_login_sy.Base.Int.{IsInt, narrow-IsInt, ℤ, pos, negsuc}
use single_terminal_login_sy.Base.Decimal.{show_ℤ, show_ℕ}
use single_terminal_login_sy.Exec.{done}
use single_terminal_login_sy.Cjson.{Cjson}
use single_terminal_login_sy.Daemon.{Daemon, send, called, find_key}
use single_terminal_login_sy.Daemon.System.{sys_write, sys_read}
use single_terminal_login_sy.Receiver.{
  MessageReceiver, get_need_send_message, deal_service_response,
}
use single_terminal_login_sy.Receiver.Response.{
  IsResponse, logout_notice, deal_service_response_unreachable, deal_service_response_answers,
}
use single_terminal_login_sy.Receiver.Request.{get_need_send_message_forged}
use single_terminal_login_sy.Dispatcher.{MessageDispatcher}
use single_terminal_login_sy.Dispatcher as Dispatcher
use single_terminal_login_sy.Dispatcher.Relay.{
  IsRequest, deal_client_message_relays, deal_client_message_other,
}
use single_terminal_login_sy.Tests.Json.{
  Tree, num, str, obj, no_fields, field, json, json_laws, print_tree, find_text, find_field,
  append_field, find-print, get, add,
}
use single_terminal_login_sy.Tests.Kernels.{working, deaf, fresh}

abbrev pub receiver : Daemon MessageReceiver
receiver = fresh (record { send_to_message_dispatcher_service_fd = pos 4 })

abbrev dispatcher : Daemon MessageDispatcher
dispatcher = fresh (record { service_fd_map = (pos 1, pos 6) ∷ [] })

-- {"msg":"ok","extendInfo":{"logoutFd":z}}
abbrev pub response : ℤ → Tree
response z = obj (
    field (codes "msg") (str (codes "ok"))
      (field (codes "extendInfo") (obj (field (codes "logoutFd") (num z) no_fields)) no_fields))

-- {"messageType":z}
abbrev pub request : ℤ → Tree
request z = obj (field (codes "messageType") (num z) no_fields)

-- {"extendInfo":{"clientFd":9}}
abbrev pub forged : Tree
forged =
    obj (
      field (codes "extendInfo") (obj (field (codes "clientFd") (num (pos 9)) no_fields)) no_fields)

abbrev pub own_info : Tree
own_info = obj (field (codes "clientFd") (num (pos 9)) no_fields)

abbrev with_info : Tree → Tree
with_info t =
    add t (codes "extendInfo") (obj (append_field no_fields (codes "clientFd") (num (pos 7))))

forged_known : find_text (with_info forged ∷ forged ∷ []) (print_tree forged) ≡ some forged
unfolding find_text print_tree append_field text_eq show_ℤ show_ℕ
forged_known = refl

pub forged_own : get forged (codes "extendInfo") ≡ some own_info
unfolding find_field text_eq
forged_own = refl

login_connected : find_key dispatcher.own.service_fd_map (pos 1) ≡ some (pos 6)
unfolding find_key
login_connected = refl

response-IsResponse :
    (z : ℤ) → IsInt z → IsResponse (json (response z ∷ [])) (print_tree (response z)) (codes "ok") z
unfolding find_field text_eq
response-IsResponse z small = record {
  root = response z;
  msg_item = str (codes "ok");
  info = obj (field (codes "logoutFd") (num z) no_fields);
  fd_item = num z;
  parses = find-print (response z) [];
  has_msg = refl;
  msg_is_string = refl;
  msg_value = refl;
  has_info = refl;
  info_is_object = refl;
  has_fd = refl;
  fd_is_number = refl;
  fd_value = narrow-IsInt z small;
}

request-IsRequest :
    (z : ℤ) → IsInt z → IsRequest (json (request z ∷ [])) (print_tree (request z)) (request z) z
unfolding find_field text_eq
request-IsRequest z small = record {
  item = num z;
  parses = find-print (request z) [];
  has_type = refl;
  type_is_number = refl;
  type_is = narrow-IsInt z small;
}

deal_service_response_unreachable_example :
    deal_service_response
      (json (response (pos 5) ∷ []))
      deaf
      (pos 7)
      (print_tree (response (pos 5)))
      receiver
    ≡ (done false, called deaf (logout_notice (pos 5)) receiver)
deal_service_response_unreachable_example =
    deal_service_response_unreachable (json (response (pos 5) ∷ [])) deaf (pos 7)
      (print_tree (response (pos 5))) (codes "ok") (pos 5) receiver
      (response-IsResponse (pos 5) (omega arith)) refl refl

deal_service_response_answers_example :
    deal_service_response
      (json (response (negsuc 0) ∷ []))
      working
      (pos 7)
      (print_tree (response (negsuc 0)))
      receiver
    ≡ send working (pos 7) (codes "ok") receiver
deal_service_response_answers_example =
    deal_service_response_answers (json (response (negsuc 0) ∷ [])) working (pos 7)
      (print_tree (response (negsuc 0))) (codes "ok") (negsuc 0) receiver
      (response-IsResponse (negsuc 0) (omega arith)) refl

-- The library that knows a message and the message with the descriptor 7 added.
abbrev knows : Tree → Cjson
knows t = json (with_info t ∷ t ∷ [])

get_need_send_message_forged_example :
    (text : Text) × (root : Tree) × (get_need_send_message
        (knows forged)
        (print_tree forged)
        (pos 7)
        receiver
      ≡ (done text, receiver))
    × (find_text (with_info forged ∷ forged ∷ []) text ≡ some root)
    × (get root (codes "extendInfo") ≡ some own_info)
get_need_send_message_forged_example =
    get_need_send_message_forged (knows forged) (json_laws (with_info forged ∷ forged ∷ []))
      (print_tree forged) (pos 7) forged own_info receiver forged_known forged_own
      (find-print (with_info forged) (forged ∷ []))

deal_client_message_other_example :
    Dispatcher.deal_client_message
      (json (request (pos 9) ∷ []))
      working
      (pos 7)
      (pos 0)
      (print_tree (request (pos 9)))
      dispatcher
    ≡ (done false, dispatcher)
deal_client_message_other_example =
    deal_client_message_other (json (request (pos 9) ∷ [])) working (pos 7) (pos 0)
      (print_tree (request (pos 9))) (request (pos 9)) (pos 9) dispatcher
      (request-IsRequest (pos 9) (omega arith)) refl

deal_client_message_relays_example :
    Dispatcher.deal_client_message
      (json (request (pos 2) ∷ []))
      working
      (pos 7)
      (pos 0)
      (print_tree (request (pos 2)))
      dispatcher
    ≡ send working (pos 7) (c_str (codes "hi")) (
        called working (sys_read (pos 6) 10240) (
          called working
            (sys_write
              (pos 6)
              (print_tree (add (request (pos 2)) (codes "operateType") (num (pos 2)))))
            dispatcher))
deal_client_message_relays_example =
    deal_client_message_relays (json (request (pos 2) ∷ [])) working (pos 7) (pos 0)
      (print_tree (request (pos 2))) (request (pos 2)) (pos 2) (pos 6) 2 dispatcher
      (request-IsRequest (pos 2) (omega arith)) refl login_connected refl refl (omega arith)
