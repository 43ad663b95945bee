-- ===== src/Journey/Answer.antt =====
-- userLoginImpl.cpp and messageReceiver.cpp: what follows a login, in the tables and on the devices.
use single_terminal_login_sy.Base.{
  ℕ, ◌≡◌, ap, ◌∙◌, inl, inr, Bool, true, false, none, some, Bool-cases, List, [], ◌∷◌, arith,
}
use single_terminal_login_sy.Base.Text.{Text, codes}
use single_terminal_login_sy.Base.Int.{ℤ, IsInt, is_pos, is_neg}
use single_terminal_login_sy.Codes.{code_value}
use single_terminal_login_sy.Exec.{done}
use single_terminal_login_sy.Mysql.{Mysql}
use single_terminal_login_sy.Mysql.Tables.{Login, Tables, active, is_active}
use single_terminal_login_sy.Mysql.Sound.{IsSound}
use single_terminal_login_sy.Mysql.Laws.{MysqlLaws, Plain}
use single_terminal_login_sy.SqlApi.{SqlApi}
use single_terminal_login_sy.SqlApi.Laws.{Idle}
use single_terminal_login_sy.Loginer.{LoginReply, process_login}
use single_terminal_login_sy.Loginer.Refine.{Fits}
use single_terminal_login_sy.Loginer.Single.{OnlyDevice, previous_fd}
use single_terminal_login_sy.Loginer.Terminal.{process_login-OnlyDevice}
use single_terminal_login_sy.Cjson.{Cjson}
use single_terminal_login_sy.Cjson.Laws.{CjsonLaws}
use single_terminal_login_sy.Daemon.{Daemon, called, send}
use single_terminal_login_sy.Daemon.System.{Kernel}
use single_terminal_login_sy.Receiver.{MessageReceiver, deal_service_response}
use single_terminal_login_sy.Receiver.Response.{logout_notice, deal_service_response_notifies}
use single_terminal_login_sy.Manager.{response_to}
use single_terminal_login_sy.Manager.Reply.{response_to-IsResponse}
use single_terminal_login_sy.Mysql.Rows.{Rows}
use single_terminal_login_sy.Manager.Session.{fd-IsInt, IsLoginRequest, answer_to}

active_fd-IsInt :
    (same : Text → Text → Bool) (user : Text) (n : ℕ) (rs : List Login)
    → Rows n rs
    → IsInt (previous_fd (active same user rs))
unfolding active
active_fd-IsInt same user n [] h = omega arith
active_fd-IsInt same user n (r ∷ rs) h = elim (Bool-cases (is_active same user r)) [
  | inl hit ↦ rw hit h.1
  | inr miss ↦ rw miss (active_fd-IsInt same user r.id rs h.2)
]

module _ {m : Mysql} (laws : MysqlLaws m) (j : Cjson) (json_laws : CjsonLaws j) (sys : Kernel) where
  open laws use {same, tables}

  -- For a login request that holds no logoutFd of its own, a user and a password without quote and
  -- backslash, sound tables with counts and row numbers in the range of int, and no row pending, when
  -- the answer is read back from its text: if Loginer reports success and the user was logged in on a
  -- device with a descriptor above 0, whose write does not fail, the receiver writes "logout" to this
  -- device and then Loginer's text to the device that asked, and on the tables the user is logged in
  -- on that one only.
  pub deal_service_response-OnlyDevice :
      (text user pass : Text) (fd : ℤ) (now : ℕ) (q : IsLoginRequest j text user pass fd)
      (s : SqlApi m) (t : Tables) (reply : LoginReply) (copy : SqlApi m)
      (r : Daemon MessageReceiver)
      → Plain user
      → Plain pass
      → IsSound same t
      → Fits t same user pass
      → Idle laws s t
      → process_login user pass fd now s ≡ (done reply, copy)
      → reply.ret ≡ true
      → j.get_object_item q.info (codes "logoutFd") ≡ none
      → j.parse (answer_to j q.root q.info reply)
        ≡ some (response_to j reply.logout_fd (code_value reply.code) reply.msg q.root q.info)
      → is_pos (previous_fd (active same user t.logins)) ≡ true
      → is_neg (sys r.trace (logout_notice (previous_fd (active same user t.logins)))).ret ≡ false
      → (deal_service_response j sys fd (answer_to j q.root q.info reply) r
          ≡ send sys fd reply.msg
              (called sys (logout_notice (previous_fd (active same user t.logins))) r))
        × OnlyDevice laws user pass fd now t reply (tables copy.mysql)
  deal_service_response-OnlyDevice text user pass fd now q s t reply copy r plain plain_pass sound
        fits idle run ok absent back old_pos told =
      let (row, only, here, named) =
        process_login-OnlyDevice laws user pass fd now plain plain_pass
          (fd-IsInt j text user pass fd q) s t sound fits idle reply copy run ok in
      let small : IsInt reply.logout_fd =
        rw named (active_fd-IsInt same user t.next_id t.logins sound.rows) in
      let response =
        response_to-IsResponse j json_laws reply.msg reply.logout_fd (code_value reply.code) q.root
          q.info small q.info_is_object absent back in
      (
        deal_service_response_notifies j sys fd (answer_to j q.root q.info reply) reply.msg
              reply.logout_fd r response (rw named old_pos) (rw named told)
            ∙ ap (λ z. send sys fd reply.msg (called sys (logout_notice z) r)) named,
        (row, only, here, named),
      )
