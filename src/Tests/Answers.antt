-- ===== src/Tests/Answers.antt =====
-- The theorems on the login manager's answers, for messages of one device.
use single_terminal_login_sy.Base.{◌≡◌, ◌⊎◌, refl, [], ◌∷◌, none, some, arith}
use single_terminal_login_sy.Base.Text.{Text, codes, text_eq}
use single_terminal_login_sy.Base.Int.{pos, negsuc}
use single_terminal_login_sy.Base.Decimal.{show_ℤ, show_ℕ}
use single_terminal_login_sy.Exec.{done}
use single_terminal_login_sy.Daemon.{Daemon}
use single_terminal_login_sy.Receiver.Response.{IsResponse}
use single_terminal_login_sy.Tests.Json.{
  Tree, json, json_laws, print_tree, find_text, find_field, append_field, find-print, append_fields,
  rest_after, get,
}
use single_terminal_login_sy.Manager as Manager
use single_terminal_login_sy.Manager.Codes.{operate-login_codes}
use single_terminal_login_sy.Manager.{UserLoginImpl, operate, response_to, get_response_message}
use single_terminal_login_sy.Manager.Reply.{get_response_message-IsResponse}
use single_terminal_login_sy.Tests.Server.{server}
use single_terminal_login_sy.Tests.Data.{session_of, start}
use single_terminal_login_sy.Tests.Kernels.{fresh}
use single_terminal_login_sy.Tests.Messages.{forged, own_info, forged_own}

abbrev manager : Daemon (UserLoginImpl server)
manager = fresh (record { sql_api = session_of start })

-- {"code":0,"msg":"ok","extendInfo":{"clientFd":9,"logoutFd":5}}
abbrev reply_tree : Tree
reply_tree = response_to (json []) (pos 5) (pos 0) (codes "ok") forged own_info

own_info_plain : get own_info (codes "logoutFd") ≡ none
unfolding find_field text_eq
own_info_plain = refl

asked_known : find_text (reply_tree ∷ forged ∷ []) (print_tree forged) ≡ some forged
unfolding find_text print_tree append_field append_fields rest_after text_eq show_ℤ show_ℕ
asked_known = refl

get_response_message-IsResponse_example :
    (text : Text) × (get_response_message
        (json (reply_tree ∷ forged ∷ []))
        (λ _. 100)
        (print_tree forged)
        (pos 5)
        (pos 0)
        (codes "ok")
        manager
      ≡ (done (some text), manager))
    × IsResponse (json (reply_tree ∷ forged ∷ [])) text (codes "ok") (pos 5)
get_response_message-IsResponse_example =
    get_response_message-IsResponse (json (reply_tree ∷ forged ∷ []))
      (json_laws (reply_tree ∷ forged ∷ [])) (λ _. 100) (print_tree forged) (codes "ok") (pos 5)
      (pos 0) forged own_info manager (omega arith) asked_known forged_own refl own_info_plain
      (find-print reply_tree (forged ∷ []))

-- A login without user name.
nameless_run :
    operate (json (forged ∷ [])) (λ _. 100) (print_tree forged) (some (pos 2)) manager ≡ (
      done (record {
        errcode = negsuc 0;
        errmsg = codes "SYSTEM ERROR: process login occur unexpect error!";
        logout_fd = negsuc 0;
      }),
      manager,
    )
unfolding Manager.process_login find_field text_eq
nameless_run = rw (find-print forged []) refl

operate-login_codes_example : (negsuc 0 ≡ pos 0) ⊎ (negsuc 0 ≡ negsuc 0)
operate-login_codes_example =
    operate-login_codes (json (forged ∷ [])) (λ _. 100) (print_tree forged) manager manager
      (record {
        errcode = negsuc 0;
        errmsg = codes "SYSTEM ERROR: process login occur unexpect error!";
        logout_fd = negsuc 0;
      })
      nameless_run
