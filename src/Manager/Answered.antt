-- ===== src/Manager/Answered.antt =====
-- userLoginImpl.cpp, dealClientMessage: that every login request is answered, and with what.
use single_terminal_login_sy.Base.{ℕ, ◌≡◌, refl, ◌∙◌, ◌⊎◌, inl, inr, [], Option, some}
use single_terminal_login_sy.Base.Text.{Text, codes}
use single_terminal_login_sy.Base.Int.{ℤ, pos}
use single_terminal_login_sy.Exec.{Fault, use_after_free, done, fault, assertion}
use single_terminal_login_sy.Mysql.{Mysql}
use single_terminal_login_sy.Mysql.Tables.{Tables, active}
use single_terminal_login_sy.Mysql.Sound.{IsSound}
use single_terminal_login_sy.Mysql.Laws.{MysqlLaws, Plain}
use single_terminal_login_sy.SqlApi.{SqlApi}
use single_terminal_login_sy.SqlApi.Laws.{Idle}
use single_terminal_login_sy.Loginer as Loginer
use single_terminal_login_sy.Loginer.{LoginReply}
use single_terminal_login_sy.Loginer.Step.{LoginStep}
use single_terminal_login_sy.Loginer.Refine.{Fits, process_login-LoginStep}
use single_terminal_login_sy.Cjson.{Cjson}
use single_terminal_login_sy.Daemon.{Daemon}
use single_terminal_login_sy.Daemon.System.{Kernel, Trace}
use single_terminal_login_sy.Manager.{
  UserLoginImpl, Answer, settle, of_login, response_to, get_operate_type, operate,
  get_response_message, deal_client_message,
}
use single_terminal_login_sy.Manager.Session.{
  replied, replied_lem, IsLoginRequest, returned, type_lem, process_login_lem,
}

-- What dealClientMessage sends after Loginer's reply: its code, text and descriptor when it reports
-- success, and the error of the operation otherwise, with Loginer's descriptor.
abbrev pub settled : LoginReply → Answer
settled reply = settle (codes "SYSTEM ERROR: process login occur unexpect error!") (of_login reply)

abbrev pub text_of : (j : Cjson) → j.Item → j.Item → Answer → Text
text_of j root info a = j.print_unformatted (response_to j a.logout_fd a.errcode a.errmsg root info)

module _ {m : Mysql} (j : Cjson) (time : Trace → ℕ) (text : Text) (root info : j.Item)
    (parses : j.parse text ≡ some root)
    (has_info : j.get_object_item root (codes "extendInfo") ≡ some info) where
  text_lem :
      (a : Answer) (after : Daemon (UserLoginImpl m))
      → get_response_message j time text a.logout_fd a.errcode a.errmsg after
        ≡ (done (some (text_of j root info a)), after)
  unfolding get_response_message
  text_lem a after = rw (parses, has_info) refl

  -- A message whose operation is known and gives an answer has it sent.
  pub answered_lem :
      (sys : Kernel) (sender code : ℤ) (t : Option ℤ) (a : Answer)
      (s after : Daemon (UserLoginImpl m))
      → get_operate_type j time text s ≡ (done t, s)
      → operate j time text t s ≡ (done a, after)
      → deal_client_message j time sys sender code text s
        ≡ replied sys sender (text_of j root info a) after
  unfolding deal_client_message
  answered_lem sys sender code t a s after typed ran =
      rw (typed, ran, text_lem a after)
        (replied_lem j time sys sender (text_of j root info a) after)

-- A run of the operation that faults stops the handler.
pub stopped_lem :
    {m : Mysql} (j : Cjson) (time : Trace → ℕ) (sys : Kernel) (text : Text) (sender code : ℤ)
    (t : Option ℤ) (f : Fault) (s after : Daemon (UserLoginImpl m))
    → get_operate_type j time text s ≡ (done t, s)
    → operate j time text t s ≡ (fault f, after)
    → deal_client_message j time sys sender code text s ≡ (fault f, after)
unfolding deal_client_message
stopped_lem j time sys text sender code t f s after typed ran = rw (typed, ran) refl

module _ {m : Mysql} (laws : MysqlLaws m) (j : Cjson) (time : Trace → ℕ) (sys : Kernel)
    (text user pass : Text) (fd sender code : ℤ) (q : IsLoginRequest j text user pass fd)
    (s : Daemon (UserLoginImpl m)) where
  open laws use {same, tables}

  settled_lem :
      (reply : LoginReply) (copy : SqlApi m)
      → Loginer.process_login user pass fd (time s.trace) s.own.sql_api ≡ (done reply, copy)
      → operate j time text (some (pos 2)) s ≡ (done (settled reply), returned s copy)
  settled_lem reply copy run = rw (process_login_lem j time text user pass fd q s, run) refl

  aborted_lem :
      (copy : SqlApi m) (f : Fault)
      → Loginer.process_login user pass fd (time s.trace) s.own.sql_api ≡ (fault f, copy)
      → operate j time text (some (pos 2)) s ≡ (fault f, returned s copy)
  aborted_lem copy f run = rw (process_login_lem j time text user pass fd q s, run) refl

  -- How dealClientMessage can end on the request.
  abbrev pub Answers : Tables → Type 0
  Answers t =
      (copy : SqlApi m) × (((reply : LoginReply) × (deal_client_message j time sys sender code text
              s
            ≡ replied sys sender (text_of j q.root q.info (settled reply)) (returned s copy))
          × LoginStep same user pass fd (time s.trace) t reply (tables copy.mysql))
        ⊎ ((f : Fault) × (deal_client_message j time sys sender code text s
              ≡ (fault f, returned s copy))
            × ((f ≡ use_after_free) ⊎ ((f ≡ assertion) × (active same user t.logins ≡ [])))
            × (tables copy.mysql ≡ t)))

  -- For a login request of a user and a password without quote and backslash, sound tables whose
  -- counts and row numbers fit in an int, and no row pending: whatever the statements' outcomes,
  -- the login manager's handler writes one answer to the asker, sleeps two seconds and returns 0
  -- when the write did not fail, and returns -1 when it did, the answer made from a reply of
  -- Loginer that, with the tables before and after, is one of the five kinds of steps of the
  -- relation between tables; or the assertion on the number of rows aborts it with no device of the
  -- user logged in, or it reads a freed row that has changed, which is undefined behaviour, and
  -- then it has written nothing and the tables are unchanged.
  pub deal_client_message-LoginStep :
      (t : Tables)
      → Plain user
      → Plain pass
      → IsSound same t
      → Fits t same user pass
      → Idle laws s.own.sql_api t
      → Answers t
  deal_client_message-LoginStep t plain plain_pass sound fits idle =
      let (copy, after, i, ends) =
        process_login-LoginStep laws user pass fd (time s.trace) plain plain_pass s.own.sql_api t
          sound fits idle in
      elim ends [
        | inl (reply, run, step) ↦ (
          copy,
          inl (
            reply,
            answered_lem j time text q.root q.info q.parses q.has_info sys sender code
                (some (pos 2)) (settled reply) s (returned s copy)
                (type_lem j time text user pass fd q s) (settled_lem reply copy run),
            rw i.holds step,
          ),
        )
        | inr (f, run, why, kept) ↦ (
          copy,
          inr (
            f,
            stopped_lem j time sys text sender code (some (pos 2)) f s (returned s copy)
                (type_lem j time text user pass fd q s) (aborted_lem copy f run),
            why,
            i.holds ∙ kept,
          ),
        )
      ]
