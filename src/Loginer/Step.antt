-- ===== src/Loginer/Step.antt =====
-- The single-terminal rule as a relation between tables, with no SQL and no connection in it.
use single_terminal_login_sy.Base.{ℕ, ◌<◌, ◌≡◌, Bool, false, [], ◌∷◌}
use single_terminal_login_sy.Base.Text.{Text}
use single_terminal_login_sy.Base.Int.{ℤ, pos, negsuc}
use single_terminal_login_sy.Mysql.Tables.{
  Login, Tables, active, count_password, insert_login, update_logout,
}
use single_terminal_login_sy.Loginer.{LoginReply, accept, finish_replace}

-- One attempt of `user` to log in from the device `fd` at time `now`: the tables before it, the
-- reply, and the tables after it.
pub data LoginStep (same : Text → Text → Bool) (user pass : Text) (fd : ℤ) (now : ℕ) (t : Tables)
    (reply : LoginReply) (after : Tables) : Type 0 where
  -- nothing was done, and the reply names no device to sign out
  refused :
      reply.ret ≡ false
      → reply.logout_fd ≡ negsuc 0
      → after ≡ t
      → LoginStep same user pass fd now t reply after
  -- the password is right and no device was logged in
  first :
      0 < count_password same user pass t.accounts
      → active same user t.logins ≡ []
      → reply ≡ accept (negsuc 0)
      → after ≡ insert_login user pass fd now t
      → LoginStep same user pass fd now t reply after
  -- the password is right and the device of the row `old` gives way
  replaced :
      (old : Login)
      → 0 < count_password same user pass t.accounts
      → active same user t.logins ≡ old ∷ []
      → reply ≡ accept old.fd
      → after ≡ insert_login user pass fd now (update_logout (pos old.id) t)
      → LoginStep same user pass fd now t reply after
  -- the update went through and the insert failed: no device is logged in
  signed_out_only :
      (old : Login)
      → active same user t.logins ≡ old ∷ []
      → reply ≡ finish_replace old.fd false
      → after ≡ update_logout (pos old.id) t
      → LoginStep same user pass fd now t reply after
  -- the update failed: the reply names the old device, which stays logged in
  named_only :
      (old : Login)
      → active same user t.logins ≡ old ∷ []
      → reply ≡ finish_replace old.fd false
      → after ≡ t
      → LoginStep same user pass fd now t reply after
