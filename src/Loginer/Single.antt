-- ===== src/Loginer/Single.antt =====
-- What the rule of Loginer/Step guarantees: one device for each user.
use single_terminal_login_sy.Base.{ℕ, ◌≡◌, refl, ap, true, false, List, [], ◌∷◌}
use single_terminal_login_sy.Base.Text.{Text}
use single_terminal_login_sy.Base.Int.{ℤ, pos, negsuc, IsInt}
use single_terminal_login_sy.Mysql.{Mysql}
use single_terminal_login_sy.Mysql.Tables.{Login, Tables, active, insert_login, update_logout}
use single_terminal_login_sy.Mysql.Rows.{active-sign_out}
use single_terminal_login_sy.Mysql.Sound.{
  IsSound, update_logout-IsSound, insert_login-IsSound, active-sign_out_other,
}
use single_terminal_login_sy.Mysql.Laws.{MysqlLaws}
use single_terminal_login_sy.Loginer.{LoginReply}
use single_terminal_login_sy.Loginer.Step.{
  LoginStep, refused, first, replaced, signed_out_only, named_only,
}

-- The descriptor of the device that was logged in, or -1.
abbrev pub previous_fd : List Login → ℤ
previous_fd [] = negsuc 0
previous_fd (r ∷ rs) = r.fd

module _ {m : Mysql} (laws : MysqlLaws m) (user pass : Text) (fd : ℤ) (now : ℕ) (t : Tables)
    (reply : LoginReply) (after : Tables) where
  open laws use {same, same_refl, same_symm, same_trans}

  -- Every attempt to log in keeps the invariant, whatever fails on the way.
  pub LoginStep-IsSound :
      IsInt fd → IsSound same t → LoginStep same user pass fd now t reply after → IsSound same after
  LoginStep-IsSound int v (refused _ _ e) = rw e v
  LoginStep-IsSound int v (first _ free _ e) =
      rw e (insert_login-IsSound same same_symm same_trans user pass fd now t int free v)
  LoginStep-IsSound int v (replaced old _ one _ e) = rw e (
      insert_login-IsSound same same_symm same_trans user pass fd now _ int
        (unfold update_logout in active-sign_out same user t.logins one)
        (update_logout-IsSound same (pos old.id) t v))
  LoginStep-IsSound int v (signed_out_only old _ _ e) =
      rw e (update_logout-IsSound same (pos old.id) t v)
  LoginStep-IsSound int v (named_only _ _ _ e) = rw e v

  abbrev pub OnlyDevice : Type 0
  OnlyDevice =
      (row : Login) × (active same user after.logins ≡ row ∷ [])
      × (row.fd ≡ fd)
      × (reply.logout_fd ≡ previous_fd (active same user t.logins))

  pub LoginStep-OnlyDevice :
      reply.ret ≡ true → LoginStep same user pass fd now t reply after → OnlyDevice
  unfolding insert_login update_logout active
  LoginStep-OnlyDevice ok (refused failed _ _) = cc (failed)
  LoginStep-OnlyDevice ok (first _ free r e) = rw (e, r, free, same_refl user) (_, refl, refl, refl)
  LoginStep-OnlyDevice ok (replaced old _ one r e) =
      rw (e, r, same_refl user, active-sign_out same user t.logins one, one) (_, refl, refl, refl)
  LoginStep-OnlyDevice ok (signed_out_only _ _ r _) = cc (ap (λ (q : LoginReply). q.ret) r)
  LoginStep-OnlyDevice ok (named_only _ _ r _) = cc (ap (λ (q : LoginReply). q.ret) r)

  -- Nobody else's rows change.
  pub LoginStep-others :
      (other : Text)
      → same user other ≡ false
      → IsSound same t
      → LoginStep same user pass fd now t reply after
      → active same other after.logins ≡ active same other t.logins
  unfolding insert_login update_logout active
  LoginStep-others other ne v (refused _ _ e) = rw e
  LoginStep-others other ne v (first _ _ _ e) = rw (e, ne)
  LoginStep-others other ne v (replaced old _ one _ e) =
      rw (e, ne)
        (active-sign_out_other same same_symm same_trans user other t.next_id t.logins one ne
          v.rows)
  LoginStep-others other ne v (signed_out_only old one _ e) =
      rw e (
        active-sign_out_other same same_symm same_trans user other t.next_id t.logins one ne v.rows)
  LoginStep-others other ne v (named_only _ _ _ e) = rw e
