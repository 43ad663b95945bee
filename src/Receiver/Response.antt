-- ===== src/Receiver/Response.antt =====
-- messageReceiver.cpp, dealServiceResponse: what is written to which device.
use single_terminal_login_sy.Base.{◌≡◌, refl, ap, ◌∙◌, Bool, true, false, not, some, if◌then◌else◌}
use single_terminal_login_sy.Base.Text.{Text, codes}
use single_terminal_login_sy.Base.Int.{narrow, ℤ, is_neg, is_pos}
use single_terminal_login_sy.Exec.{Exec, done, pure, continue}
use single_terminal_login_sy.Cjson.{Cjson}
use single_terminal_login_sy.Daemon.{Daemon, called, send}
use single_terminal_login_sy.Daemon.System.{Kernel, Call, sys_write}
use single_terminal_login_sy.Receiver.{MessageReceiver, deal_items, deal_service_response, notice}

-- A response of the form that the login manager gives, with its text and the device to log out.
pub record IsResponse (j : Cjson) (response msg : Text) (logout_fd : ℤ) : Type 0 where
  pub root : j.Item
  pub msg_item : j.Item
  pub info : j.Item
  pub fd_item : j.Item
  pub parses : j.parse response ≡ some root
  pub has_msg : j.get_object_item root (codes "msg") ≡ some msg_item
  pub msg_is_string : j.is_string msg_item ≡ true
  pub msg_value : j.valuestring msg_item ≡ msg
  pub has_info : j.get_object_item root (codes "extendInfo") ≡ some info
  pub info_is_object : j.is_object info ≡ true
  pub has_fd : j.get_object_item info (codes "logoutFd") ≡ some fd_item
  pub fd_is_number : j.is_number fd_item ≡ true
  pub fd_value : narrow (j.valueint fd_item) ≡ logout_fd

abbrev pub logout_notice : ℤ → Call
logout_notice logout_fd = sys_write logout_fd (codes "logout")

-- What follows the notice.
abbrev told : Kernel → ℤ → Text → Bool → Exec (Daemon MessageReceiver) Bool
told sys fd msg b = if b then send sys fd msg else pure false

module _ (j : Cjson) (sys : Kernel) where
  items_lem :
      (fd : ℤ) (response msg : Text) (logout_fd : ℤ) (s : Daemon MessageReceiver)
      (r : IsResponse j response msg logout_fd)
      → deal_items j sys fd (some r.msg_item) (some r.info) s
        ≡ continue (notice sys logout_fd s) (told sys fd msg)
  items_lem fd response msg logout_fd s r =
      rw (r.msg_is_string, r.info_is_object, r.has_fd, r.fd_is_number, r.fd_value, r.msg_value) refl

  pub deal_service_response_lem :
      (fd : ℤ) (response msg : Text) (logout_fd : ℤ) (s : Daemon MessageReceiver)
      → IsResponse j response msg logout_fd
      → deal_service_response j sys fd response s
        ≡ continue (notice sys logout_fd s) (told sys fd msg)
  unfolding deal_service_response
  deal_service_response_lem fd response msg logout_fd s r =
      rw (r.parses, r.has_msg, r.has_info) (items_lem fd response msg logout_fd s r)

  -- For a response with its members of the right types that names a device above 0, when the write
  -- to it does not fail, dealServiceResponse writes "logout" to this device first and the text of the
  -- response to the asking device next, makes no other call, and returns 0 unless the second write
  -- fails.
  pub deal_service_response_notifies :
      (fd : ℤ) (response msg : Text) (logout_fd : ℤ) (s : Daemon MessageReceiver)
      → IsResponse j response msg logout_fd
      → is_pos logout_fd ≡ true
      → is_neg (sys s.trace (logout_notice logout_fd)).ret ≡ false
      → deal_service_response j sys fd response s
        ≡ send sys fd msg (called sys (logout_notice logout_fd) s)
  deal_service_response_notifies fd response msg logout_fd s r p ok =
      deal_service_response_lem fd response msg logout_fd s r ∙ notified
    where
      notified :
          continue (notice sys logout_fd s) (told sys fd msg)
          ≡ send sys fd msg (called sys (logout_notice logout_fd) s)
      notified =
          ap
            (λ b.
              continue ((if b then send sys logout_fd (codes "logout") else pure true) s)
                (told sys fd msg))
            p
          ∙ ap (λ b. told sys fd msg (not b) (called sys (logout_notice logout_fd) s)) ok

  -- For a response whose logoutFd, cast to int, is above 0, when the write of "logout" to that
  -- descriptor fails, dealServiceResponse returns -1 and the asking device gets nothing.
  pub deal_service_response_unreachable :
      (fd : ℤ) (response msg : Text) (logout_fd : ℤ) (s : Daemon MessageReceiver)
      → IsResponse j response msg logout_fd
      → is_pos logout_fd ≡ true
      → is_neg (sys s.trace (logout_notice logout_fd)).ret ≡ true
      → deal_service_response j sys fd response s
        ≡ (done false, called sys (logout_notice logout_fd) s)
  deal_service_response_unreachable fd response msg logout_fd s r p bad =
      deal_service_response_lem fd response msg logout_fd s r
      ∙ ap
          (λ b.
            continue ((if b then send sys logout_fd (codes "logout") else pure true) s)
              (told sys fd msg))
          p
      ∙ ap (λ b. told sys fd msg (not b) (called sys (logout_notice logout_fd) s)) bad

  -- For a response with its members of the right types whose logoutFd, cast to int, is not above 0,
  -- dealServiceResponse writes its text to the asking device and makes no other call.
  pub deal_service_response_answers :
      (fd : ℤ) (response msg : Text) (logout_fd : ℤ) (s : Daemon MessageReceiver)
      → IsResponse j response msg logout_fd
      → is_pos logout_fd ≡ false
      → deal_service_response j sys fd response s ≡ send sys fd msg s
  deal_service_response_answers fd response msg logout_fd s r p =
      deal_service_response_lem fd response msg logout_fd s r
      ∙ ap
          (λ b.
            continue ((if b then send sys logout_fd (codes "logout") else pure true) s)
              (told sys fd msg))
          p
