-- ===== src/Manager/Quiet.antt =====
-- userLoginImpl.cpp: the handler leaves the daemon's heap in order.
use single_terminal_login_sy.Base.{ℕ, Bool, true, false, Option, none, some}
use single_terminal_login_sy.Base.Text.{Text}
use single_terminal_login_sy.Base.Int.{ℤ}
use single_terminal_login_sy.Exec.{Exec}
use single_terminal_login_sy.Exec.Keeps.{Keeps}
use single_terminal_login_sy.Mysql.{Mysql}
use single_terminal_login_sy.SqlApi.{SqlApi}
use single_terminal_login_sy.Cjson.{Cjson}
use single_terminal_login_sy.Daemon.{Daemon}
use single_terminal_login_sy.Daemon.System.{Kernel, Trace}
use single_terminal_login_sy.Daemon.Write.{IsQuiet}
use single_terminal_login_sy.Daemon.Quiet.{IsSame, IsQuiet-of_Keeps, quiet_rules}
use single_terminal_login_sy.Manager.{
  UserLoginImpl, with_copy, now, get_operate_type, operate_type_of, run_login, login_items,
  login_message, process_login, logout_items, logout_message, process_logout, regist_items,
  regist_message, process_regist, operate, get_response_message, respond, conclude,
  deal_client_message,
}

module _ {m : Mysql} (j : Cjson) (time : Trace → ℕ) (first : Daemon (UserLoginImpl m)) where
  copy-Keeps : {A : Type 0} (run : Exec (SqlApi m) A) → Keeps (IsSame first) (with_copy {m = m} run)
  copy-Keeps run = record {
    after = λ s p. record { heap_eq = p.heap_eq; next_eq = p.next_eq; interest_eq = p.interest_eq };
  }

  now-Keeps : Keeps (IsSame first) (now {m = m} j time)
  now-Keeps = record { after = λ s p. p }

  run-Keeps : (u p : Text) (fd : ℤ) → Keeps (IsSame first) (run_login {m = m} j time u p fd)
  run-Keeps u p fd = search (quiet_rules, copy-Keeps, now-Keeps)

  login_items-Keeps :
      (u p f : Option j.Item) → Keeps (IsSame first) (login_items {m = m} j time u p f)
  login_items-Keeps none p f = search quiet_rules
  login_items-Keeps (some u) none f = search quiet_rules
  login_items-Keeps (some u) (some p) none = search quiet_rules
  login_items-Keeps (some u) (some p) (some f) = search (quiet_rules, run-Keeps)

  login-Keeps : (m' i : Option j.Item) → Keeps (IsSame first) (login_message {m = m} j time m' i)
  login-Keeps none i = search quiet_rules
  login-Keeps (some m') none = search quiet_rules
  login-Keeps (some m') (some i) = search (quiet_rules, login_items-Keeps)

  logout_items-Keeps : (u : Option j.Item) → Keeps (IsSame first) (logout_items {m = m} j time u)
  logout_items-Keeps none = search quiet_rules
  logout_items-Keeps (some u) = search (quiet_rules, copy-Keeps)

  logout-Keeps : (m' : Option j.Item) → Keeps (IsSame first) (logout_message {m = m} j time m')
  logout-Keeps none = search quiet_rules
  logout-Keeps (some m') = search (quiet_rules, logout_items-Keeps)

  regist_items-Keeps :
      (u p : Option j.Item) → Keeps (IsSame first) (regist_items {m = m} j time u p)
  regist_items-Keeps none p = search quiet_rules
  regist_items-Keeps (some u) none = search quiet_rules
  regist_items-Keeps (some u) (some p) = search (quiet_rules, copy-Keeps, now-Keeps)

  regist-Keeps : (m' : Option j.Item) → Keeps (IsSame first) (regist_message {m = m} j time m')
  regist-Keeps none = search quiet_rules
  regist-Keeps (some m') = search (quiet_rules, regist_items-Keeps)

  run_login-Keeps : (text : Text) → Keeps (IsSame first) (process_login {m = m} j time text)
  unfolding process_login
  run_login-Keeps text = search (quiet_rules, login-Keeps)

  run_logout-Keeps : (text : Text) → Keeps (IsSame first) (process_logout {m = m} j time text)
  unfolding process_logout
  run_logout-Keeps text = search (quiet_rules, logout-Keeps)

  run_regist-Keeps : (text : Text) → Keeps (IsSame first) (process_regist {m = m} j time text)
  unfolding process_regist
  run_regist-Keeps text = search (quiet_rules, regist-Keeps)

  operate-Keeps :
      (text : Text) (t : Option ℤ) → Keeps (IsSame first) (operate {m = m} j time text t)
  operate-Keeps text none = search quiet_rules
  operate-Keeps text (some t) =
      search (quiet_rules, run_login-Keeps, run_logout-Keeps, run_regist-Keeps) depth 9

  type_of-Keeps : (o : Option j.Item) → Keeps (IsSame first) (operate_type_of {m = m} j time o)
  type_of-Keeps none = search quiet_rules
  type_of-Keeps (some item) = search quiet_rules

  type-Keeps : (text : Text) → Keeps (IsSame first) (get_operate_type {m = m} j time text)
  unfolding get_operate_type
  type-Keeps text = search (quiet_rules, type_of-Keeps)

  respond-Keeps :
      (fd code : ℤ) (msg : Text) (r : j.Item) (o : Option j.Item)
      → Keeps (IsSame first) (respond {m = m} j time fd code msg r o)
  respond-Keeps fd code msg r none = search quiet_rules
  respond-Keeps fd code msg r (some info) = search quiet_rules

  response-Keeps :
      (text : Text) (fd code : ℤ) (msg : Text)
      → Keeps (IsSame first) (get_response_message {m = m} j time text fd code msg)
  unfolding get_response_message
  response-Keeps text fd code msg = search (quiet_rules, respond-Keeps)

  conclude-Keeps : (sys : Kernel) (b : Bool) → Keeps (IsSame first) (conclude {m = m} j time sys b)
  conclude-Keeps sys false = search quiet_rules
  conclude-Keeps sys true = search quiet_rules

  handler-Keeps :
      (sys : Kernel) (fd code : ℤ) (msg : Text)
      → Keeps (IsSame first) (deal_client_message {m = m} j time sys fd code msg)
  unfolding deal_client_message
  handler-Keeps sys fd code msg =
      search (quiet_rules, type-Keeps, operate-Keeps, response-Keeps, conclude-Keeps) depth 9

-- UserLoginImpl's handler leaves the heap, the next address and the interest list as they are when it
-- returns, whatever it does to the database.
pub manager-IsQuiet :
    {m : Mysql} (j : Cjson) (time : Trace → ℕ) (sys : Kernel) (epoll_fd : ℤ)
    → IsQuiet epoll_fd (deal_client_message {m = m} j time sys)
manager-IsQuiet j time sys epoll_fd =
    IsQuiet-of_Keeps epoll_fd (deal_client_message j time sys)
      (λ first. handler-Keeps j time first sys)
