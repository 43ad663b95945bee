-- ===== src/Journey/Takeover.antt =====
-- messageReceiver.cpp, userLoginImpl.cpp and client/main/main.cpp: a login takes the account over from the
-- device that had it.
use single_terminal_login_sy.Base.{ℕ, ◌<◌, ◌≡◌, ap, ◌∙◌, true, false, none, some, arith}
use single_terminal_login_sy.Base.Text.{Text, codes, c_str, text_eq, NoNul}
use single_terminal_login_sy.Base.Int.{ℤ, pos, is_pos, is_neg}
use single_terminal_login_sy.Codes.{code_value}
use single_terminal_login_sy.Exec.{done, fault, exited}
use single_terminal_login_sy.Mysql.{Mysql}
use single_terminal_login_sy.Mysql.Tables.{Tables, active}
use single_terminal_login_sy.Mysql.Sound.{IsSound}
use single_terminal_login_sy.Mysql.Laws.{MysqlLaws, Plain}
use single_terminal_login_sy.SqlApi.{SqlApi}
use single_terminal_login_sy.SqlApi.Laws.{Idle}
use single_terminal_login_sy.Loginer.{LoginReply, process_login}
use single_terminal_login_sy.Loginer.Refine.{Fits}
use single_terminal_login_sy.Loginer.Single.{OnlyDevice, previous_fd}
use single_terminal_login_sy.Cjson.{Cjson}
use single_terminal_login_sy.Cjson.Laws.{CjsonLaws}
use single_terminal_login_sy.Daemon.{Daemon, called, send}
use single_terminal_login_sy.Daemon.System.{Kernel, sys_write}
use single_terminal_login_sy.Client.Socket.{Client}
use single_terminal_login_sy.Client.Main.{just_recv_message}
use single_terminal_login_sy.Client.Main.Notices.{got, ending, just_recv_message_ends}
use single_terminal_login_sy.Receiver.{
  MessageReceiver, message_max_len, deal_service_response, deal_client_message,
}
use single_terminal_login_sy.Receiver.Response.{logout_notice}
use single_terminal_login_sy.Receiver.Handler.{question, answered, reply, ask_lem}
use single_terminal_login_sy.Manager.{response_to}
use single_terminal_login_sy.Manager.Session.{IsLoginRequest, answer_to}
use single_terminal_login_sy.Journey.Answer.{deal_service_response-OnlyDevice}

-- A device whose next read gives what the receiver wrote to it.
pub record Receives (sys : Kernel) (c : Client) (fd : ℤ) : Type 0 where
  pub length_is : (got sys c).ret ≡ pos 6
  pub text_is : sys_write fd (got sys c).bytes ≡ logout_notice fd

-- Such a device ends.
receives_lem :
    (sys : Kernel) (c : Client) (fd : ℤ)
    → Receives sys c fd
    → (just_recv_message sys c).0 ≡ fault exited
unfolding text_eq
receives_lem sys c fd r =
    just_recv_message_ends sys c 6 r.length_is (omega arith) (rw same clean) (rw same (λ e. cc))
    ∙ ap (λ t. ending (text_eq t (codes "logout"))) same
  where
    same : (got sys c).bytes ≡ codes "logout"
    same = cc (r.text_is)

    clean : NoNul (codes "logout")
    clean = omega arith

module _ {m : Mysql} (laws : MysqlLaws m) (j : Cjson) (json_laws : CjsonLaws j) (sys : Kernel) where
  open laws use {same, tables}

  -- A user and a password without quote and backslash are used to log in from a device, on sound
  -- tables with counts and row numbers in the range of int and with no row pending, while the user
  -- is logged in on an old device with a descriptor above 0; the request of the login manager holds
  -- no logoutFd of its own, its answer is read back from its text, and the receiver, whose writes
  -- to the dispatcher and to the old device do not fail, reads it in less than 10240 bytes. When
  -- Loginer reports success, and so read no freed row that had changed, the receiver's handler of
  -- the device's message asks the dispatcher, writes "logout" to the old device and then Loginer's
  -- text to the new one; on the tables the user is logged in on the new one only; and the old
  -- device ends when its next read gives what the receiver wrote to it.
  pub deal_client_message-just_recv_message :
      (text user pass message : Text) (fd code : ℤ) (now n : ℕ) (json : j.Item)
      (q : IsLoginRequest j text user pass fd) (s : SqlApi m) (t : Tables) (r : LoginReply)
      (copy : SqlApi m) (d : Daemon MessageReceiver) (sys_old : Kernel) (old : Client)
      → Plain user
      → Plain pass
      → IsSound same t
      → Fits t same user pass
      → Idle laws s t
      → process_login user pass fd now s ≡ (done r, copy)
      → r.ret ≡ true
      → j.get_object_item q.info (codes "logoutFd") ≡ none
      → j.parse (answer_to j q.root q.info r)
        ≡ some (response_to j r.logout_fd (code_value r.code) r.msg q.root q.info)
      → is_pos (previous_fd (active same user t.logins)) ≡ true
      → j.parse message ≡ some json
      → is_neg (sys d.trace (question j sys fd json d)).ret ≡ false
      → (reply j sys fd json d).ret ≡ pos n
      → n < message_max_len
      → c_str (reply j sys fd json d).bytes ≡ answer_to j q.root q.info r
      → is_neg
          (sys
            (answered j sys fd json d).trace
            (logout_notice (previous_fd (active same user t.logins)))).ret
        ≡ false
      → Receives sys_old old (previous_fd (active same user t.logins))
      → (deal_client_message j sys fd code message d
          ≡ send sys fd r.msg (
              called sys
                (logout_notice (previous_fd (active same user t.logins)))
                (answered j sys fd json d)))
        × OnlyDevice laws user pass fd now t r (tables copy.mysql)
        × ((just_recv_message sys_old old).0 ≡ fault exited)
  deal_client_message-just_recv_message text user pass message fd code now n json q s t r copy d
        sys_old old plain plain_pass sound fits idle run ok absent back old_pos parsed sent got_it
        short relayed told receives =
      let (answers, only) =
        deal_service_response-OnlyDevice laws j json_laws sys text user pass fd now q s t r copy
          (answered j sys fd json d) plain plain_pass sound fits idle run ok absent back old_pos
          told in
      (
        ask_lem j sys fd json d code message n parsed sent got_it short
            ∙ ap (λ x. deal_service_response j sys fd x (answered j sys fd json d)) relayed
            ∙ answers,
        only,
        receives_lem sys_old old (previous_fd (active same user t.logins)) receives,
      )
