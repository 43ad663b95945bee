-- ===== src/Tests/Server/Meaning.antt =====
-- What `run` makes of each statement.
use single_terminal_login_sy.Base.{
  ℕ, suc, ◌<◌, ◌≡◌, ◌≢◌, refl, sym, ap, ◌∙◌, inl, inr, true, none, List, [], ◌∷◌, ◌++◌, length,
  arith, Bool-cases,
}
use single_terminal_login_sy.Base.Text.{Text, codes, text_eq, text_eq_iff, text_eq_refl}
use single_terminal_login_sy.Base.Int.{ℤ, pos, negsuc, eq_ℤ, eq_ℤ_refl, eq_ℤ_eq}
use single_terminal_login_sy.Base.Decimal.{show_ℕ, show_ℤ, read_digits, digit_value}
use single_terminal_login_sy.Base.Decimal.RoundTrip.{read-show_ℕ}
use single_terminal_login_sy.Mysql.Laws.{MysqlLaws, Plain, one_cell, id_fd_rows, id_rows}
use single_terminal_login_sy.Mysql.Tables.{
  Tables, Login, active, count_user, count_password, insert_account, insert_login, sign_out,
  update_logout,
}
use single_terminal_login_sy.Mysql.Statements.{
  count_password_sql, count_user_sql, count_active_sql, active_fd_sql, active_id_sql,
  insert_login_sql, logout_int_sql, logout_sql, insert_account_sql,
}
use single_terminal_login_sy.Tests.Split.{
  Lacks, split, split_cut, split_whole, Lacks-append, show_ℕ-Lacks, show_ℤ-Lacks,
  read-show_ℕ-append,
}
use single_terminal_login_sy.Tests.Server.{run, answers, sign_out_named, read_int, server}

Lacks-of_Plain : (s : Text) → Plain s → Lacks b'\'' s
Lacks-of_Plain [] h = tt
Lacks-of_Plain (c ∷ s) (a, b, h) = (a, Lacks-of_Plain s h)

-- A text of digits that stands for a number reads as that number.
read_pos_of : (n : ℕ) (s : Text) → Lacks b'-' s → read_digits 10 0 s ≡ n → read_int s ≡ pos n
unfolding read_digits
read_pos_of n [] l e = ap pos e
read_pos_of n (c ∷ s) l e = ground (arith, e, l.0)

read_fd : (fd : ℤ) → read_int (show_ℤ fd) ≡ fd
unfolding show_ℤ
read_fd (pos n) = read_pos_of n (show_ℕ n) (show_ℕ-Lacks b'-' n (omega arith)) (read-show_ℕ n)
read_fd (negsuc n) = rw (read-show_ℕ (suc n))

fd_whole :
    (fd : ℤ) (now : ℕ)
    → split b'\'' (show_ℤ fd ++ (codes ", 1, " ++ (show_ℕ now ++ codes ")")))
      ≡ (show_ℤ fd ++ (codes ", 1, " ++ (show_ℕ now ++ codes ")"))) ∷ []
fd_whole fd now = split_whole b'\'' _ (
    Lacks-append b'\'' (show_ℤ fd) _ (show_ℤ-Lacks b'\'' fd (omega arith)) (
      Lacks-append b'\'' (codes ", 1, ") _ (omega arith) (
        Lacks-append b'\'' (show_ℕ now) (codes ")") (show_ℕ-Lacks b'\'' now (omega arith))
          (omega arith))))

module _ (user : Text) (plain : Plain user) (t : Tables) where
  cut_user : (rest : Text) → split b'\'' (user ++ b'\'' ∷ rest) ≡ user ∷ split b'\'' rest
  cut_user rest = split_cut b'\'' user rest (Lacks-of_Plain user plain)

  pub run-count_user :
      run (count_user_sql user) (split b'\'' (count_user_sql user)) t
      ≡ answers (one_cell (show_ℕ (count_user text_eq user t.accounts))) t
  unfolding count_user_sql run split
  run-count_user = rw (cut_user []) refl

  pub run-count_active :
      run (count_active_sql user) (split b'\'' (count_active_sql user)) t
      ≡ answers (one_cell (show_ℕ (length (active text_eq user t.logins)))) t
  unfolding count_active_sql run split
  run-count_active = rw (cut_user (codes " and FuiStatus = 1")) refl

  pub run-active_fd :
      run (active_fd_sql user) (split b'\'' (active_fd_sql user)) t
      ≡ answers (record { rows = id_fd_rows (active text_eq user t.logins); fields = 2 }) t
  unfolding active_fd_sql run split
  run-active_fd = rw (cut_user (codes " and FuiStatus = 1")) refl

  pub run-active_id :
      run (active_id_sql user) (split b'\'' (active_id_sql user)) t
      ≡ answers (record { rows = id_rows (active text_eq user t.logins); fields = 1 }) t
  unfolding active_id_sql run split
  run-active_id = rw (cut_user (codes " and FuiStatus = 1")) refl

  module _ (pass : Text) (plain_pass : Plain pass) where
    cut_pass : (rest : Text) → split b'\'' (pass ++ b'\'' ∷ rest) ≡ pass ∷ split b'\'' rest
    cut_pass rest = split_cut b'\'' pass rest (Lacks-of_Plain pass plain_pass)

    pub run-count_password :
        run (count_password_sql user pass) (split b'\'' (count_password_sql user pass)) t
        ≡ answers (one_cell (show_ℕ (count_password text_eq user pass t.accounts))) t
    unfolding count_password_sql run split
    run-count_password =
        rw (cut_user (codes " and FstrPassWord = '" ++ (pass ++ codes "'")), cut_pass []) refl

    -- `now)`, cut at a quote or at a comma
    last_whole :
        (sep now : ℕ)
        → sep < b'0'
        → b')' ≢ sep
        → split sep (show_ℕ now ++ codes ")") ≡ (show_ℕ now ++ codes ")") ∷ []
    last_whole sep now l h =
        split_whole sep _
          (Lacks-append sep (show_ℕ now) (codes ")") (show_ℕ-Lacks sep now l) (h, tt))

    read_last : (now : ℕ) → read_digits 10 0 (show_ℕ now ++ codes ")") ≡ now
    unfolding read_digits digit_value
    read_last now = read-show_ℕ-append now (codes ")")

    pub run-insert_account :
        (now : ℕ)
        → run (insert_account_sql user pass now) (split b'\'' (insert_account_sql user pass now)) t
          ≡ (true, none, insert_account user pass now t)
    unfolding insert_account_sql run split
    run-insert_account now = rw (
      cut_user (codes " ,'" ++ (pass ++ (codes "', " ++ (show_ℕ now ++ codes ")")))),
      cut_pass (codes ", " ++ (show_ℕ now ++ codes ")")),
      last_whole b'\'' now (omega arith) (omega arith),
      last_whole b',' now (omega arith) (omega arith),
      read_last now,
    )

    pub run-insert_login :
        (fd : ℤ) (now : ℕ)
        → run
            (insert_login_sql user pass fd now)
            (split b'\'' (insert_login_sql user pass fd now))
            t
          ≡ (true, none, insert_login user pass fd now t)
    unfolding insert_login_sql run split
    run-insert_login fd now = rw (
      cut_user (
          codes ", '"
          ++ (pass
              ++ (codes "', " ++ (show_ℤ fd ++ (codes ", 1, " ++ (show_ℕ now ++ codes ")")))))),
      cut_pass (codes ", " ++ (show_ℤ fd ++ (codes ", 1, " ++ (show_ℕ now ++ codes ")")))),
      fd_whole fd now,
      split_cut b',' (show_ℤ fd) (codes " 1, " ++ (show_ℕ now ++ codes ")"))
          (show_ℤ-Lacks b',' fd (omega arith)),
      last_whole b',' now (omega arith) (omega arith),
      read_last now,
      read_fd fd,
    )

strip : Text → Text → Text
strip [] s = s
strip (p ∷ ps) [] = []
strip (p ∷ ps) (c ∷ s) = strip ps s

strip-append : (p s : Text) → strip p (p ++ s) ≡ s
unfolding strip
strip-append [] s = refl
strip-append (c ∷ p) s = strip-append p s

abbrev update_head : Text
update_head = codes "update user.t_user_login set FuiStatus = 2 where FuiId = "

logout_int_sql_lem : (z : ℤ) → strip update_head (logout_int_sql z) ≡ show_ℤ z
unfolding logout_int_sql
logout_int_sql_lem z = strip-append update_head (show_ℤ z)

logout_sql_lem : (n : ℕ) → strip update_head (logout_sql n) ≡ show_ℤ (pos n)
unfolding logout_sql show_ℤ
logout_sql_lem n = strip-append update_head (show_ℕ n)

-- Two update texts agree only at the same number.
logout_sql_inj : (z : ℤ) (n : ℕ) → logout_int_sql z ≡ logout_sql n → z ≡ pos n
logout_sql_inj z n e =
    let printed : show_ℤ z ≡ show_ℤ (pos n) =
      sym (logout_int_sql_lem z) ∙ ap (strip update_head) e ∙ logout_sql_lem n in
    sym (read_fd z) ∙ ap read_int printed ∙ read_fd (pos n)

pub logout_sql_pos : (n : ℕ) → logout_int_sql (pos n) ≡ logout_sql n
unfolding logout_int_sql logout_sql show_ℤ
logout_sql_pos n = refl

text_eq-logout : (z : ℤ) (n : ℕ) → text_eq (logout_int_sql z) (logout_sql n) ≡ eq_ℤ z (pos n)
text_eq-logout z n = elim (Bool-cases (eq_ℤ z (pos n))) [
  | inl same ↦
      (text_eq_iff _ _).1 (ap logout_int_sql (eq_ℤ_eq z (pos n) same) ∙ logout_sql_pos n) ∙ sym same
  | inr differ ↦ elim (Bool-cases (text_eq (logout_int_sql z) (logout_sql n))) [
    | inl hit ↦
        let z_eq = logout_sql_inj z n ((text_eq_iff _ _).0 hit) in
        cc (ap (λ (y : ℤ). eq_ℤ y (pos n)) z_eq, eq_ℤ_refl (pos n))
    | inr miss ↦ miss ∙ sym differ
  ]
]

sign_out_named_lem :
    (z : ℤ) (rs : List Login) → sign_out_named (logout_int_sql z) rs ≡ sign_out z rs
unfolding sign_out_named sign_out
sign_out_named_lem z [] = refl
sign_out_named_lem z (r ∷ rs) = rw (text_eq-logout z r.id, sign_out_named_lem z rs)

quote_free : (z : ℤ) → Lacks b'\'' (logout_int_sql z)
unfolding logout_int_sql
quote_free z =
    Lacks-append b'\'' update_head (show_ℤ z) (omega arith) (show_ℤ-Lacks b'\'' z (omega arith))

pub run-logout :
    (z : ℤ) (t : Tables)
    → run (logout_int_sql z) (split b'\'' (logout_int_sql z)) t ≡ (true, none, update_logout z t)
unfolding run update_logout
run-logout z t =
    rw (split_whole b'\'' (logout_int_sql z) (quote_free z), sign_out_named_lem z t.logins)

pub text_eq_symm : (s t : Text) → text_eq s t ≡ true → text_eq t s ≡ true
text_eq_symm s t h = (text_eq_iff t s).1 (sym ((text_eq_iff s t).0 h))

pub text_eq_trans : (s t u : Text) → text_eq s t ≡ true → text_eq t u ≡ true → text_eq s u ≡ true
text_eq_trans s t u h k = (text_eq_iff s u).1 ((text_eq_iff s t).0 h ∙ (text_eq_iff t u).0 k)

-- The server meets every law.
unfoldable pub server_laws : MysqlLaws server
server_laws = record {
  tables = λ c. c.tables;
  same = text_eq;
  same_refl = text_eq_refl;
  same_symm = text_eq_symm;
  same_trans = text_eq_trans;
  counts_password = λ user pass p q c.
      let e = run-count_password user p c.tables pass q in rw e (refl, inr (inr (refl, refl)));
  counts_user =
      λ user p c. let e = run-count_user user p c.tables in rw e (refl, inr (inr (refl, refl)));
  counts_active =
      λ user p c. let e = run-count_active user p c.tables in rw e (refl, inr (inr (refl, refl)));
  selects_fd =
      λ user p c. let e = run-active_fd user p c.tables in rw e (refl, inr (inr (refl, refl)));
  selects_id =
      λ user p c. let e = run-active_id user p c.tables in rw e (refl, inr (inr (refl, refl)));
  inserts_login = λ user pass fd now p q c.
      let e = run-insert_login user p c.tables pass q fd now in rw e (inl (refl, refl));
  updates_int = λ id c. rw (run-logout id c.tables) (inl (refl, refl));
  updates = λ id c. rw (← logout_sql_pos id, run-logout (pos id) c.tables) (inl (refl, refl));
  inserts_account = λ user pass now p q c.
      let e = run-insert_account user p c.tables pass q now in rw e (inl (refl, refl));
}
