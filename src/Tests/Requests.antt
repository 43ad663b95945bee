-- ===== src/Tests/Requests.antt =====
-- The login manager's answers: ann logs in from device 9, and out, and bob registers.
use single_terminal_login_sy.Base.{some, List, ◌≡◌, refl, [], ◌∷◌, arith, ◌<◌, ◌^◌}
use single_terminal_login_sy.Base.Text.{Text, codes, text_eq}
use single_terminal_login_sy.Base.Int.{pos}
use single_terminal_login_sy.Base.Decimal.{show_ℤ, show_ℕ}
use single_terminal_login_sy.Exec.{done}
use single_terminal_login_sy.Mysql.Tables.{count_user}
use single_terminal_login_sy.Manager.{deal_client_message}
use single_terminal_login_sy.Manager.Answered.{Answers, deal_client_message-LoginStep}
use single_terminal_login_sy.Manager.Requests.{LogoutAnswers, RegistAnswers}
use single_terminal_login_sy.Codes.{MessageType}
use single_terminal_login_sy.Client.Command.{user_item, credentials_item}
use single_terminal_login_sy.Client.Logout as Logout
use single_terminal_login_sy.Client.Regist as Regist
use single_terminal_login_sy.Receiver.{get_need_send_message}
use single_terminal_login_sy.Dispatcher.{get_service_fd_and_message}
use single_terminal_login_sy.Journey.{sent, named, served}
use single_terminal_login_sy.Journey.Leave.{get_json_string_from_params-SignedOut}
use single_terminal_login_sy.Journey.Join.{get_json_string_from_params-RegistStep}
use single_terminal_login_sy.Tests.Server.Meaning.{server_laws}
use single_terminal_login_sy.Tests.Data.{
  ann, secret, start, session_of-Idle, start-IsSound, start-Fits,
}
use single_terminal_login_sy.Tests.Json.{Tree, json, print_tree, find_text, append_field, json_laws}
use single_terminal_login_sy.Tests.Kernels.{working}
use single_terminal_login_sy.Tests.Journeys as Journeys
use single_terminal_login_sy.Tests.Journeys.{
  device, receiver, dispatcher, manager, info, login_connected,
}

deal_client_message-LoginStep_example :
    Answers server_laws Journeys.library
      (λ _. 100)
      working
      (print_tree Journeys.request)
      ann
      secret
      (pos 9)
      (pos 8)
      (pos 0)
      Journeys.the_request
      manager
      start
deal_client_message-LoginStep_example =
    deal_client_message-LoginStep server_laws Journeys.library (λ _. 100) working
      (print_tree Journeys.request) ann secret (pos 9) (pos 8) (pos 0) Journeys.the_request manager
      start (omega arith) (omega arith) start-IsSound start-Fits (session_of-Idle start)

abbrev logout_message : Tree
logout_message = sent (json []) MessageType.logout (user_item (json []) ann)

abbrev logout_extended : Tree
logout_extended = named (json []) MessageType.logout (user_item (json []) ann) (pos 9)

abbrev logout_request : Tree
logout_request = served (json []) MessageType.logout (user_item (json []) ann) (pos 9)

abbrev logout_known : List Tree
logout_known = logout_request ∷ logout_extended ∷ logout_message ∷ []

logout_message_back : find_text logout_known (print_tree logout_message) ≡ some logout_message
unfolding find_text print_tree append_field text_eq show_ℤ show_ℕ
logout_message_back = refl

logout_extended_back : find_text logout_known (print_tree logout_extended) ≡ some logout_extended
unfolding find_text print_tree append_field text_eq show_ℤ show_ℕ
logout_extended_back = refl

logout_request_back : find_text logout_known (print_tree logout_request) ≡ some logout_request
unfolding find_text print_tree append_field text_eq show_ℤ show_ℕ
logout_request_back = refl

get_json_string_from_params-SignedOut_example :
    (m₁ m₂ m₃ : Text) × (Logout.get_json_string_from_params
        (json logout_known)
        working
        (ann ∷ [])
        device
      ≡ (done (some m₁), device))
    × (get_need_send_message (json logout_known) m₁ (pos 9) receiver ≡ (done m₂, receiver))
    × (get_service_fd_and_message (json logout_known) m₂ dispatcher
        ≡ (done (some (pos 6, m₃)), dispatcher))
    × LogoutAnswers server_laws
        (json logout_known)
        (λ _. 100)
        working
        ann
        (pos 8)
        logout_request
        info
        manager
        start
        (deal_client_message (json logout_known) (λ _. 100) working (pos 8) (pos 0) m₃ manager)
get_json_string_from_params-SignedOut_example =
    get_json_string_from_params-SignedOut server_laws (json logout_known) (json_laws logout_known)
      working (λ _. 100) ann (pos 9) (pos 6) (pos 8) (pos 0) device receiver dispatcher manager
      start logout_message_back logout_extended_back logout_request_back login_connected
      (omega arith) start-IsSound (omega arith) (session_of-Idle start)

bob_free : count_user server_laws.same (codes "bob") start.accounts < 2 ^ 31
unfolding server_laws count_user text_eq
bob_free = omega arith

abbrev regist_message : Tree
regist_message = sent (json []) MessageType.regist (credentials_item (json []) (codes "bob") secret)

abbrev regist_extended : Tree
regist_extended =
    named (json []) MessageType.regist (credentials_item (json []) (codes "bob") secret) (pos 9)

abbrev regist_request : Tree
regist_request =
    served (json []) MessageType.regist (credentials_item (json []) (codes "bob") secret) (pos 9)

abbrev regist_known : List Tree
regist_known = regist_request ∷ regist_extended ∷ regist_message ∷ []

regist_message_back : find_text regist_known (print_tree regist_message) ≡ some regist_message
unfolding find_text print_tree append_field text_eq show_ℤ show_ℕ
regist_message_back = refl

regist_extended_back : find_text regist_known (print_tree regist_extended) ≡ some regist_extended
unfolding find_text print_tree append_field text_eq show_ℤ show_ℕ
regist_extended_back = refl

regist_request_back : find_text regist_known (print_tree regist_request) ≡ some regist_request
unfolding find_text print_tree append_field text_eq show_ℤ show_ℕ
regist_request_back = refl

get_json_string_from_params-RegistStep_example :
    (m₁ m₂ m₃ : Text) × (Regist.get_json_string_from_params
        (json regist_known)
        working
        (codes "bob" ∷ secret ∷ [])
        device
      ≡ (done (some m₁), device))
    × (get_need_send_message (json regist_known) m₁ (pos 9) receiver ≡ (done m₂, receiver))
    × (get_service_fd_and_message (json regist_known) m₂ dispatcher
        ≡ (done (some (pos 6, m₃)), dispatcher))
    × RegistAnswers server_laws
        (json regist_known)
        (λ _. 100)
        working
        (codes "bob")
        secret
        (pos 8)
        regist_request
        info
        manager
        start
        (deal_client_message (json regist_known) (λ _. 100) working (pos 8) (pos 0) m₃ manager)
get_json_string_from_params-RegistStep_example =
    get_json_string_from_params-RegistStep server_laws (json regist_known) (json_laws regist_known)
      working (λ _. 100) (codes "bob") secret (pos 9) (pos 6) (pos 8) (pos 0) device receiver
      dispatcher manager start regist_message_back regist_extended_back regist_request_back
      login_connected (omega arith) (omega arith) bob_free (session_of-Idle start)
