-- ===== src/Mysql/Statements.antt =====
-- The SQL texts that loginer.cpp and register.cpp put together with a stringstream.
use single_terminal_login_sy.Base.{ℕ, ◌++◌}
use single_terminal_login_sy.Base.Text.{Text, codes}
use single_terminal_login_sy.Base.Int.{ℤ}
use single_terminal_login_sy.Base.Decimal.{show_ℕ, show_ℤ}

-- Loginer::isValidUserNameAndPassWord
unfoldable pub count_password_sql : Text → Text → Text
count_password_sql user pass =
    codes "select count(1) from user.t_user_password where FstrUserName = '"
    ++ (user ++ (codes "' and FstrPassWord = '" ++ (pass ++ codes "'")))

-- Register::isAlreadyRegist
unfoldable pub count_user_sql : Text → Text
count_user_sql user =
    codes "select count(1) from user.t_user_password where FstrUserName = '" ++ (user ++ codes "'")

-- Loginer::isAlreadyLogined
unfoldable pub count_active_sql : Text → Text
count_active_sql user =
    codes "select count(1) from user.t_user_login where FstrUserName = '"
    ++ (user ++ codes "' and FuiStatus = 1")

-- Loginer::getAlreadyLoginedClientFd
unfoldable pub active_fd_sql : Text → Text
active_fd_sql user =
    codes "select FuiId,FuiFd from user.t_user_login where FstrUserName = '"
    ++ (user ++ codes "' and FuiStatus = 1")

-- Loginer::processLogout
unfoldable pub active_id_sql : Text → Text
active_id_sql user =
    codes "select FuiId from user.t_user_login where FstrUserName = '"
    ++ (user ++ codes "' and FuiStatus = 1")

-- Loginer::login
unfoldable pub insert_login_sql : Text → Text → ℤ → ℕ → Text
insert_login_sql user pass fd now =
    codes
      "insert into user.t_user_login (FstrUserName,FstrPassWord,FuiFd,FuiStatus,FuiCreateTime) values ('"
    ++ (user
        ++ (codes "', '"
            ++ (pass
                ++ (codes "', " ++ (show_ℤ fd ++ (codes ", 1, " ++ (show_ℕ now ++ codes ")")))))))

-- Loginer::processLogout, with an `int` id
unfoldable pub logout_int_sql : ℤ → Text
logout_int_sql id = codes "update user.t_user_login set FuiStatus = 2 where FuiId = " ++ show_ℤ id

-- Loginer::setLogoutStatusThenLogin, with an `unsigned long long` id
unfoldable pub logout_sql : ℕ → Text
logout_sql id = codes "update user.t_user_login set FuiStatus = 2 where FuiId = " ++ show_ℕ id

-- Register::regist
unfoldable pub insert_account_sql : Text → Text → ℕ → Text
insert_account_sql user pass now =
    codes "insert into user.t_user_password (FstrUserName, FstrPassWord, FuiCreateTime) values ('"
    ++ (user ++ (codes "' ,'" ++ (pass ++ (codes "', " ++ (show_ℕ now ++ codes ")")))))
