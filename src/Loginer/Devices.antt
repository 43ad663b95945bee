-- ===== src/Loginer/Devices.antt =====
-- Logins and logouts on the abstract state of the service: the device on which each user is logged in.
-- It forgets rows, their numbers, times and order, and who is logged out.
use single_terminal_login_sy.Base.{
  ℕ, ◌≤◌, ◌^◌, ◌≡◌, refl, ap, ◌∙◌, fun_ext, ◌⊎◌, inl, inr, Bool, true, false, Option, none, some,
  List, [], ◌∷◌, if◌then◌else◌, Bool-cases, arith,
}
use single_terminal_login_sy.Base.Text.{Text}
use single_terminal_login_sy.Base.Int.{ℤ, pos, to_int_small}
use single_terminal_login_sy.Exec.{Outcome, Fault, use_after_free, done, fault, assertion}
use single_terminal_login_sy.Mysql.{Mysql}
use single_terminal_login_sy.Mysql.Tables.{Login, Tables, active, insert_login, update_logout}
use single_terminal_login_sy.Mysql.Rows.{active-Rows, active-sign_out}
use single_terminal_login_sy.Mysql.Sound.{IsSound, active-sign_out_other}
use single_terminal_login_sy.Mysql.Laws.{MysqlLaws, Plain}
use single_terminal_login_sy.SqlApi.{SqlApi}
use single_terminal_login_sy.SqlApi.Laws.{Idle}
use single_terminal_login_sy.Loginer.{LoginReply, process_login, process_logout, logged_out}
use single_terminal_login_sy.Loginer.Step.{
  LoginStep, refused, first, replaced, signed_out_only, named_only,
}
use single_terminal_login_sy.Loginer.Refine.{Fits, at_most_one, process_login-LoginStep}
use single_terminal_login_sy.Loginer.Logout.{
  LogoutEnds, logout_absent, logout_present, either, map-LogoutEnds,
}
use single_terminal_login_sy.Loginer.Single.{LoginStep-others}

abbrev pub first_fd : List Login → Option ℤ
first_fd [] = none
first_fd (r ∷ rs) = some r.fd

module _ (same : Text → Text → Bool) where
  -- The device of each user, none for a user who is not logged in.
  abbrev pub devices : Tables → Text → Option ℤ
  devices t user = first_fd (active same user t.logins)

  abbrev pub assign : Text → Option ℤ → (Text → Option ℤ) → Text → Option ℤ
  assign user d before other = if same user other then d else before other

  -- One attempt to log in, on the devices: accepted, it moves the user to the device; refused, it
  -- leaves all devices as they are, or, when an insert failed after the update, the user without one.
  pub data SessionStep (user : Text) (fd : ℤ) (before : Text → Option ℤ) (accepted : Bool)
      (after : Text → Option ℤ) : Type 0 where
    kept : accepted ≡ false → after ≡ before → SessionStep user fd before accepted after
    moved :
        accepted ≡ true
        → after ≡ assign user (some fd) before
        → SessionStep user fd before accepted after
    ended :
        accepted ≡ false
        → after ≡ assign user none before
        → SessionStep user fd before accepted after

  -- Of one user at most the device is another one.
  abbrev pub Moves : Tables → Tables → Type 0
  Moves t after =
      (devices after ≡ devices t)
      ⊎ ((user : Text) × (d : Option ℤ) × (devices after ≡ assign user d (devices t)))

  SessionStep-Moves :
      (user : Text) (fd : ℤ) (t after : Tables) (accepted : Bool)
      → SessionStep user fd (devices t) accepted (devices after)
      → Moves t after
  SessionStep-Moves user fd t after accepted (kept b e) = inl e
  SessionStep-Moves user fd t after accepted (moved b e) = inr (user, some fd, e)
  SessionStep-Moves user fd t after accepted (ended b e) = inr (user, none, e)

module _ {m : Mysql} (laws : MysqlLaws m) where
  open laws use {same, same_refl, same_symm, same_trans, tables}

  -- Two spellings of a name have the same rows.
  active-same :
      (user other : Text) (rs : List Login)
      → same user other ≡ true
      → active same other rs ≡ active same user rs
  unfolding active
  active-same user other [] e = refl
  active-same user other (r ∷ rs) e = elim (Bool-cases (same r.user_name user)) [
    | inl hit ↦ rw (hit, same_trans r.user_name user other hit e, active-same user other rs e) refl
    | inr miss ↦
        let not_other : same r.user_name other ≡ false =
          ground (arith, miss, e, same_symm user other, same_trans r.user_name other user) in
        rw (miss, not_other) (active-same user other rs e)
  ]

  -- The devices are known from those of the user and those of the others.
  devices-assign :
      (user : Text) (d : Option ℤ) (t after : Tables)
      → first_fd (active same user after.logins) ≡ d
      → ((other : Text)
          → same user other ≡ false
          → active same other after.logins ≡ active same other t.logins)
      → devices same after ≡ assign same user d (devices same t)
  devices-assign user d t after own others = fun_ext λ other. elim (Bool-cases (same user other)) [
    | inl hit ↦ rw hit (ap first_fd (active-same user other after.logins hit) ∙ own)
    | inr miss ↦ rw miss (ap first_fd (others other miss))
  ]

  -- Signing out the user's one row.
  signed_out :
      (user : Text) (t after : Tables) (r : Login)
      → IsSound same t
      → active same user t.logins ≡ r ∷ []
      → after ≡ update_logout (pos r.id) t
      → devices same after ≡ assign same user none (devices same t)
  unfolding update_logout
  signed_out user t after r v one e =
      devices-assign user none t after (rw (e, active-sign_out same user t.logins one) refl)
        (λ other ne. rw e (
          active-sign_out_other same same_symm same_trans user other t.next_id t.logins one ne
            v.rows))

  module _ (user pass : Text) (fd : ℤ) (now : ℕ) (t : Tables) (reply : LoginReply) (after : Tables)
      (v : IsSound same t) where
    LoginStep-SessionStep :
        LoginStep same user pass fd now t reply after
        → SessionStep same user fd (devices same t) reply.ret (devices same after)
    unfolding insert_login update_logout active
    LoginStep-SessionStep (refused failed x e) = kept failed (ap (devices same) e)
    LoginStep-SessionStep (first right free r e) = moved (ap (λ (q : LoginReply). q.ret) r) (
        devices-assign user (some fd) t after (rw (e, same_refl user) refl) (λ other ne.
          LoginStep-others laws user pass fd now t reply after other ne v (first right free r e)))
    LoginStep-SessionStep (replaced old right one r e) = moved (ap (λ (q : LoginReply). q.ret) r) (
        devices-assign user (some fd) t after (rw (e, same_refl user) refl) (λ other ne.
          LoginStep-others laws user pass fd now t reply after other ne v
            (replaced old right one r e)))
    LoginStep-SessionStep (signed_out_only old one r e) =
        ended (ap (λ (q : LoginReply). q.ret) r) (signed_out user t after old v one e)
    LoginStep-SessionStep (named_only old one r e) =
        kept (ap (λ (q : LoginReply). q.ret) r) (ap (devices same) e)

  -- How a call of processLogin ends, on the devices.
  abbrev pub DeviceEnds : Text → ℤ → Tables → Outcome LoginReply × SqlApi m → Type 0
  DeviceEnds user fd t out =
      (s' : SqlApi m) × (((reply : LoginReply) × (out ≡ (done reply, s'))
          × SessionStep same user fd (devices same t) reply.ret (devices same (tables s'.mysql)))
        ⊎ ((f : Fault) × (out ≡ (fault f, s'))
            × ((f ≡ use_after_free) ⊎ ((f ≡ assertion) × (devices same t user ≡ none)))
            × (devices same (tables s'.mysql) ≡ devices same t)))

  -- For a user and a password without quote and backslash, sound tables whose counts and row
  -- numbers fit in an int, and no row pending: seen as a map from users to devices, a call of
  -- processLogin that returns is one step of the service, which moves the user to the device that
  -- asked, and then it reports success, or it reports a failure and leaves every device as it is or
  -- the user without one; a call that does not return is aborted by the assertion, with no device
  -- of the user, or reads a freed row that has changed, which is undefined behaviour, and leaves
  -- every device as it is.
  pub process_login-SessionStep :
      (user pass : Text) (fd : ℤ) (now : ℕ) (s : SqlApi m) (t : Tables)
      → Plain user
      → Plain pass
      → IsSound same t
      → Fits t same user pass
      → Idle laws s t
      → DeviceEnds user fd t (process_login user pass fd now s)
  process_login-SessionStep user pass fd now s t plain plain_pass v fits idle =
      let (s', after, i, ends) =
        process_login-LoginStep laws user pass fd now plain plain_pass s t v fits idle in
      elim ends [
        | inl (reply, e, step) ↦ (
          s',
          inl (reply, e, rw i.holds (LoginStep-SessionStep user pass fd now t reply after v step)),
        )
        | inr (f, e, why, kept_tables) ↦ (
          s',
          inr (f, e, either why (λ h. (h.0, ap first_fd (h.1))), rw (i.holds, kept_tables) refl),
        )
      ]

  -- For a user without quote and backslash, sound tables with row numbers below 2^31, and no row
  -- pending: seen as a map from users to devices, processLogout reports a failure and leaves every
  -- device as it is, or reports success and leaves the user without a device and every other user's
  -- device as it is; or it reads a freed row that has changed, which is undefined behaviour, and
  -- has changed no table.
  pub process_logout-assign :
      (user : Text) (s : SqlApi m) (t : Tables) (plain : Plain user) (idle : Idle laws s t)
      → IsSound same t
      → t.next_id ≤ 2 ^ 31
      → LogoutEnds laws user plain s t idle (λ after reply.
        (reply ≡ logged_out) × (devices same after ≡ assign same user none (devices same t)))
  process_logout-assign user s t plain idle v ids =
      elim (at_most_one (active same user t.logins) (v.single user)) [
        | inl free ↦
            map-LogoutEnds laws user plain s t idle
              (λ after reply h. (
                h.0,
                devices-assign user none t after (rw (h.1, free) refl)
                    (λ other ne. ap (λ (x : Tables). active same other x.logins) (h.1)),
              ))
              (logout_absent laws user plain s t idle free)
        | inr (r, one) ↦
            let (low, int) = active-Rows same user t.next_id t.logins one v.rows in
            map-LogoutEnds laws user plain s t idle
              (λ after reply h. (
                h.0,
                signed_out user t after r v one
                    (h.1 ∙ ap (λ (y : ℤ). update_logout y t) (to_int_small r.id (omega arith))),
              ))
              (logout_present laws user plain s t idle r one (omega arith))
      ]

  -- However a login ends, and however a logout does.
  pub process_login-Moves :
      (user pass : Text) (fd : ℤ) (now : ℕ) (s : SqlApi m) (t : Tables)
      → Plain user
      → Plain pass
      → IsSound same t
      → Fits t same user pass
      → Idle laws s t
      → Moves same t (tables (process_login user pass fd now s).1.mysql)
  process_login-Moves user pass fd now s t plain plain_pass v fits idle =
      let (s', ends) =
        process_login-SessionStep user pass fd now s t plain plain_pass v fits idle in
      elim ends [
        | inl (reply, e, step) ↦
            rw e (SessionStep-Moves same user fd t (tables s'.mysql) reply.ret step)
        | inr (f, e, why, same_devices) ↦ rw e (inl same_devices)
      ]

  pub process_logout-Moves :
      (user : Text) (s : SqlApi m) (t : Tables)
      → Plain user
      → Idle laws s t
      → IsSound same t
      → t.next_id ≤ 2 ^ 31
      → Moves same t (tables (process_logout user s).1.mysql)
  process_logout-Moves user s t plain idle v ids =
      elim (process_logout-assign user s t plain idle v ids) [
        | inl (reply, s', after, e, i, inl (refusal, kept_tables)) ↦
            rw (e, i.holds, kept_tables) (inl refl)
        | inl (reply, s', after, e, i, inr (told, one)) ↦ rw (e, i.holds) (inr (user, none, one))
        | inr (s', e, i) ↦ rw (e, i.holds) (inl refl)
      ]
