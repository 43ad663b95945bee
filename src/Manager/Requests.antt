-- ===== src/Manager/Requests.antt =====
-- userLoginImpl.cpp, dealClientMessage: that every logout and registration is answered, and with what.
use single_terminal_login_sy.Base.{
  inl, inr, Bool, ℕ, ◌<◌, ◌≤◌, ◌^◌, ◌≡◌, refl, ◌⊎◌, some, true, false, [],
}
use single_terminal_login_sy.Base.Text.{Text, codes}
use single_terminal_login_sy.Base.Int.{narrow, ℤ, pos}
use single_terminal_login_sy.Exec.{Outcome, fault, use_after_free, done}
use single_terminal_login_sy.Mysql.{Mysql}
use single_terminal_login_sy.Mysql.Tables.{Tables, active, count_user}
use single_terminal_login_sy.Mysql.Sound.{IsSound}
use single_terminal_login_sy.Mysql.Laws.{MysqlLaws, Plain}
use single_terminal_login_sy.SqlApi.{SqlApi}
use single_terminal_login_sy.SqlApi.Laws.{Idle}
use single_terminal_login_sy.Loginer as Loginer
use single_terminal_login_sy.Loginer.{LogoutReply, logged_out}
use single_terminal_login_sy.Loginer.Logout.{process_logout-SignedOut}
use single_terminal_login_sy.Register as Register
use single_terminal_login_sy.Register.{RegistReply}
use single_terminal_login_sy.Register.Outcomes.{RegistStep, process_regist-RegistStep}
use single_terminal_login_sy.Cjson.{Cjson}
use single_terminal_login_sy.Daemon.{Daemon}
use single_terminal_login_sy.Daemon.System.{Kernel, Trace}
use single_terminal_login_sy.Manager.{
  UserLoginImpl, Answer, settle, of_logout, of_regist, get_operate_type, operate, process_logout,
  process_regist, deal_client_message,
}
use single_terminal_login_sy.Manager.Session.{replied, returned}
use single_terminal_login_sy.Manager.Answered.{stopped_lem, text_of, answered_lem}

-- A logout request in the form that the dispatcher passes on.
pub record IsLogoutRequest (j : Cjson) (text user : Text) : Type 0 where
  pub root : j.Item
  pub message : j.Item
  pub info : j.Item
  pub type_item : j.Item
  pub user_item : j.Item
  pub parses : j.parse text ≡ some root
  pub has_type : j.get_object_item root (codes "operateType") ≡ some type_item
  pub type_is_number : j.is_number type_item ≡ true
  pub type_is_logout : narrow (j.valueint type_item) ≡ pos 3
  pub has_message : j.get_object_item root (codes "message") ≡ some message
  pub message_is_object : j.is_object message ≡ true
  pub has_info : j.get_object_item root (codes "extendInfo") ≡ some info
  pub has_user : j.get_object_item message (codes "userName") ≡ some user_item
  pub user_is_string : j.is_string user_item ≡ true
  pub user_is : j.valuestring user_item ≡ user

-- A registration in the form that the dispatcher passes on.
pub record IsRegistRequest (j : Cjson) (text user pass : Text) : Type 0 where
  pub root : j.Item
  pub message : j.Item
  pub info : j.Item
  pub type_item : j.Item
  pub user_item : j.Item
  pub pass_item : j.Item
  pub parses : j.parse text ≡ some root
  pub has_type : j.get_object_item root (codes "operateType") ≡ some type_item
  pub type_is_number : j.is_number type_item ≡ true
  pub type_is_regist : narrow (j.valueint type_item) ≡ pos 1
  pub has_message : j.get_object_item root (codes "message") ≡ some message
  pub message_is_object : j.is_object message ≡ true
  pub has_info : j.get_object_item root (codes "extendInfo") ≡ some info
  pub has_user : j.get_object_item message (codes "userName") ≡ some user_item
  pub user_is_string : j.is_string user_item ≡ true
  pub user_is : j.valuestring user_item ≡ user
  pub has_pass : j.get_object_item message (codes "passWord") ≡ some pass_item
  pub pass_is_string : j.is_string pass_item ≡ true
  pub pass_is : j.valuestring pass_item ≡ pass

-- What dealClientMessage sends after the reply to a logout, and to a registration.
abbrev pub settled_logout : LogoutReply → Answer
settled_logout reply =
    settle (codes "SYSTEM ERROR: process logout occur unexpect error!") (of_logout reply)

abbrev pub settled_regist : RegistReply → Answer
settled_regist reply =
    settle (codes "SYSTEM ERROR: process regist occur unexpect error!") (of_regist reply)

-- How the handler ends on a logout: an answer is sent, or the run stops at a freed row.
abbrev pub LogoutAnswers :
    {m : Mysql} (laws : MysqlLaws m) (j : Cjson) (time : Trace → ℕ) (sys : Kernel) (user : Text)
    (sender : ℤ) (root info : j.Item) (s : Daemon (UserLoginImpl m)) (t : Tables)
    → Outcome Bool × Daemon (UserLoginImpl m)
    → Type 0
LogoutAnswers {m = m} laws j time sys user sender root info s t out =
    (copy : SqlApi m) × (((reply : LogoutReply) × (out
          ≡ replied sys sender (text_of j root info (settled_logout reply)) (returned s copy))
        × (((reply.ret ≡ false) × (laws.tables copy.mysql ≡ t))
            ⊎ ((reply ≡ logged_out)
                × (active laws.same user (laws.tables copy.mysql).logins ≡ [])
                × IsSound laws.same (laws.tables copy.mysql))))
      ⊎ ((out ≡ (fault use_after_free, returned s copy)) × (laws.tables copy.mysql ≡ t)))

-- How the handler ends on a regist: an answer is sent, or the run stops at a freed row.
abbrev pub RegistAnswers :
    {m : Mysql} (laws : MysqlLaws m) (j : Cjson) (time : Trace → ℕ) (sys : Kernel)
    (user pass : Text) (sender : ℤ) (root info : j.Item) (s : Daemon (UserLoginImpl m)) (t : Tables)
    → Outcome Bool × Daemon (UserLoginImpl m)
    → Type 0
RegistAnswers {m = m} laws j time sys user pass sender root info s t out =
    (copy : SqlApi m) × (((reply : RegistReply) × (out
          ≡ replied sys sender (text_of j root info (settled_regist reply)) (returned s copy))
        × RegistStep laws.same user pass (time s.trace) t reply (laws.tables copy.mysql))
      ⊎ ((out ≡ (fault use_after_free, returned s copy)) × (laws.tables copy.mysql ≡ t)))

module _ {m : Mysql} (laws : MysqlLaws m) (j : Cjson) (time : Trace → ℕ) (sys : Kernel)
    (text user : Text) (sender code : ℤ) (s : Daemon (UserLoginImpl m)) (t : Tables)
    (idle : Idle laws s.own.sql_api t) where
  open laws use {same, tables}

  module _ (q : IsLogoutRequest j text user) where
    logout_type_lem : get_operate_type j time text s ≡ (done (some (pos 3)), s)
    unfolding get_operate_type
    logout_type_lem = rw (q.parses, q.has_type, q.type_is_number, q.type_is_logout) refl

    logout_lem :
        (reply : LogoutReply) (copy : SqlApi m)
        → Loginer.process_logout user s.own.sql_api ≡ (done reply, copy)
        → operate j time text (some (pos 3)) s ≡ (done (settled_logout reply), returned s copy)
    unfolding process_logout
    logout_lem reply copy run =
        rw
          (
            q.parses, q.has_message, q.message_is_object, q.has_user, q.user_is_string, q.user_is,
            run,
          )
          refl

    logout_stop_lem :
        (copy : SqlApi m)
        → Loginer.process_logout user s.own.sql_api ≡ (fault use_after_free, copy)
        → operate j time text (some (pos 3)) s ≡ (fault use_after_free, returned s copy)
    unfolding process_logout
    logout_stop_lem copy run =
        rw
          (
            q.parses, q.has_message, q.message_is_object, q.has_user, q.user_is_string, q.user_is,
            run,
          )
          refl

    -- For a logout request of a user without quote and backslash, sound tables with row numbers
    -- below 2^31, and no row pending: the login manager's handler writes one answer to the asker,
    -- sleeps two seconds when the write did not fail, and the answer's reply either reports a
    -- failure, with the tables unchanged, or reports success, with the user logged in nowhere and
    -- the tables sound; or it reads a freed row that has changed, which is undefined behaviour, and
    -- then it has written nothing and the tables are unchanged.
    pub deal_client_message-SignedOut :
        (plain : Plain user)
        → IsSound same t
        → t.next_id ≤ 2 ^ 31
        → LogoutAnswers laws j time sys user sender q.root q.info s t
            (deal_client_message j time sys sender code text s)
    deal_client_message-SignedOut plain sound ids =
        elim (process_logout-SignedOut laws user plain s.own.sql_api t idle sound ids) [
          | inl (reply, copy, after, run, i, ends) ↦ (
            copy,
            inl (
              reply,
              answered_lem j time text q.root q.info q.parses q.has_info sys sender code
                  (some (pos 3)) (settled_logout reply) s (returned s copy) logout_type_lem
                  (logout_lem reply copy run),
              rw i.holds ends,
            ),
          )
          | inr (copy, run, i) ↦ (
            copy,
            inr (
              stopped_lem j time sys text sender code (some (pos 3)) use_after_free s
                  (returned s copy) logout_type_lem (logout_stop_lem copy run),
              i.holds,
            ),
          )
        ]

  module _ (pass : Text) (q : IsRegistRequest j text user pass) where
    regist_type_lem : get_operate_type j time text s ≡ (done (some (pos 1)), s)
    unfolding get_operate_type
    regist_type_lem = rw (q.parses, q.has_type, q.type_is_number, q.type_is_regist) refl

    regist_lem :
        (reply : RegistReply) (copy : SqlApi m)
        → Register.process_regist user pass (time s.trace) [] s.own.sql_api ≡ (done reply, copy)
        → operate j time text (some (pos 1)) s ≡ (done (settled_regist reply), returned s copy)
    unfolding process_regist
    regist_lem reply copy run =
        rw
          (
            q.parses, q.has_message, q.message_is_object, q.has_user, q.has_pass, q.user_is_string,
            q.pass_is_string, q.user_is, q.pass_is, run,
          )
          refl

    regist_stop_lem :
        (copy : SqlApi m)
        → Register.process_regist user pass (time s.trace) [] s.own.sql_api
          ≡ (fault use_after_free, copy)
        → operate j time text (some (pos 1)) s ≡ (fault use_after_free, returned s copy)
    unfolding process_regist
    regist_stop_lem copy run =
        rw
          (
            q.parses, q.has_message, q.message_is_object, q.has_user, q.has_pass, q.user_is_string,
            q.pass_is_string, q.user_is, q.pass_is, run,
          )
          refl

    -- For a registration request of a user and a password without quote and backslash, a count of
    -- the user's accounts that fits in an int, and no row pending: the login manager's handler
    -- writes one answer to the asker, sleeps two seconds when the write did not fail, and the
    -- answer's reply with the tables is one of three: a statement failed and nothing changed, the
    -- name is taken and nothing changed, or the name was free and the account is added; or it reads
    -- a freed row that has changed, which is undefined behaviour, and then it has written nothing
    -- and the tables are unchanged.
    pub deal_client_message-RegistStep :
        Plain user
        → Plain pass
        → count_user same user t.accounts < 2 ^ 31
        → RegistAnswers laws j time sys user pass sender q.root q.info s t
            (deal_client_message j time sys sender code text s)
    deal_client_message-RegistStep plain plain_pass small =
        elim (process_regist-RegistStep laws user pass (time s.trace) [] plain plain_pass
          s.own.sql_api t small idle) [
            | inl (reply, copy, after, run, i, step) ↦ (
              copy,
              inl (
                reply,
                answered_lem j time text q.root q.info q.parses q.has_info sys sender code
                    (some (pos 1)) (settled_regist reply) s (returned s copy) regist_type_lem
                    (regist_lem reply copy run),
                rw i.holds step,
              ),
            )
            | inr (copy, run, i) ↦ (
              copy,
              inr (
                stopped_lem j time sys text sender code (some (pos 1)) use_after_free s
                    (returned s copy) regist_type_lem (regist_stop_lem copy run),
                i.holds,
              ),
            )
          ]
