-- ===== src/Tests/Takeovers.antt =====
-- A login takes the account over: ann's device 9 logs her in, device 5 is told to end and does.
use single_terminal_login_sy.Base.{◌≡◌, refl, [], ◌∷◌, some, arith}
use single_terminal_login_sy.Base.Text.{codes, c_str, text_eq}
use single_terminal_login_sy.Base.Int.{pos}
use single_terminal_login_sy.Base.Decimal.{show_ℤ, show_ℕ}
use single_terminal_login_sy.Exec.{fault, exited}
use single_terminal_login_sy.Mysql.Tables.{active}
use single_terminal_login_sy.Loginer.{accept}
use single_terminal_login_sy.Loginer.Single.{OnlyDevice, previous_fd}
use single_terminal_login_sy.Daemon.{called, send}
use single_terminal_login_sy.Daemon.System.{Kernel}
use single_terminal_login_sy.Client.Socket.{Client}
use single_terminal_login_sy.Client.Main.{just_recv_message}
use single_terminal_login_sy.Receiver.{deal_client_message}
use single_terminal_login_sy.Receiver.Response.{logout_notice}
use single_terminal_login_sy.Receiver.Handler.{answered, reply}
use single_terminal_login_sy.Manager.Session.{answer_to}
use single_terminal_login_sy.Journey.Takeover.{Receives, deal_client_message-just_recv_message}
use single_terminal_login_sy.Tests.Server.Meaning.{server_laws}
use single_terminal_login_sy.Tests.Data.{
  ann, secret, start, session_of, session_of-Idle, start-IsSound, start-Fits,
}
use single_terminal_login_sy.Tests.Json.{
  find_text, print_tree, append_field, append_fields, rest_after, json_laws,
}
use single_terminal_login_sy.Tests.Kernels.{kernel_of}
use single_terminal_login_sy.Tests.Journeys.{
  receiver, message, request, info, answer, library, the_request, after, replaced_run, answer_back,
  info_plain, first_device,
}

-- The dispatcher gives the login manager's answer.
abbrev answering : Kernel
answering = kernel_of (pos 2) (pos 300) (print_tree answer)

-- ann's first device, to which the notice comes.
abbrev telling : Kernel
telling = kernel_of (pos 2) (pos 6) (codes "logout")

abbrev old_device : Client
old_device = record { client_socket = pos 4; trace = [] }

message_back : find_text (request ∷ answer ∷ message ∷ []) (print_tree message) ≡ some message
unfolding find_text print_tree append_field append_fields text_eq show_ℤ show_ℕ
message_back = refl

relayed :
    c_str (reply library answering (pos 9) message receiver).bytes
    ≡ answer_to library request info (accept (pos 5))
unfolding c_str print_tree append_field append_fields rest_after text_eq show_ℤ show_ℕ
relayed = refl

told : Receives telling old_device (previous_fd (active server_laws.same ann start.logins))
told = record { length_is = refl; text_is = refl }

deal_client_message-just_recv_message_example :
    (deal_client_message library answering (pos 9) (pos 0) (print_tree message) receiver
      ≡ send answering (pos 9) (accept (pos 5)).msg (
          called answering
            (logout_notice (previous_fd (active server_laws.same ann start.logins)))
            (answered library answering (pos 9) message receiver)))
    × OnlyDevice server_laws ann secret
        (pos 9)
        100
        start
        (accept (pos 5))
        (server_laws.tables after.mysql)
    × ((just_recv_message telling old_device).0 ≡ fault exited)
unfolding the_request
deal_client_message-just_recv_message_example =
    deal_client_message-just_recv_message server_laws library
      (json_laws (request ∷ answer ∷ message ∷ [])) answering (print_tree request) ann secret
      (print_tree message) (pos 9) (pos 0) 100 300 message the_request (session_of start) start
      (accept (pos 5)) after receiver telling old_device (omega arith) (omega arith) start-IsSound
      start-Fits (session_of-Idle start) replaced_run refl info_plain answer_back first_device
      message_back refl refl (omega arith) relayed refl told
