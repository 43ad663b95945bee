-- ===== src/Lib.antt =====
-- The single terminal login system: an account may be logged in on one device at a time, and a login
-- on a second device sends the first one a notice to log out.
--
-- Three processes make up the service. A receiver accepts the devices' connections and passes each
-- message, with the device's descriptor, to a dispatcher; the dispatcher passes it to the login
-- manager that serves its kind; the login manager keeps accounts and logins in a MySQL database and
-- answers along the same way. All of them run an epoll loop, mylib/mylib_daemon: a read event fills
-- a buffer and registers it for writing, the write event hands it to the service's handler.
--
-- Files:
--   Base       names of the library passed on, Boolean tests, and its parts: Int (integers and the
--              casts of C), Text (texts as lists of bytes), Decimal (decimal digits and strtoul).
--   Exec       code that changes a state and may fault: an assertion, a null pointer, an access out
--              of bounds, a use after free, a call of exit; Exec/Keeps has the rules for what a run
--              keeps.
--   Mysql      the client library of MySQL, as a parameter: the record Mysql. Mysql/Tables is the
--              meaning of the tables, Mysql/Rows, Mysql/Sound and Mysql/Known what holds in them,
--              Mysql/Laws what the server is assumed to do for the statements of the code,
--              Mysql/Statements the texts of those statements.
--   SqlApi     mylib/mylib_sql/sqlApi.cpp, class SqlApi; SqlApi/Connect opens the connection.
--   Codes      mylib/enum/code.h and mylib/enum/Enum.h.
--   Loginer    service/loginManager/login/loginer.cpp. Loginer/Parts has what each member does to the
--              tables, Loginer/Step the abstract steps of a login, Loginer/Refine the refinement,
--              Loginer/Single and Loginer/Terminal what follows for sessions, Loginer/Devices
--              logins and logouts on the map from users to devices, Loginer/Logout the logout.
--   Register   service/loginManager/regist/register.cpp.
--   Daemon     mylib/mylib_daemon/daemon.cpp, class DaemonBase; Daemon/Loop is the loop of the services'
--              main.cpp. Daemon/System has the calls to the operating system, which is a parameter that
--              answers from the calls so far; Daemon/Epoll reads the interest list off those calls;
--              Daemon/Heap, Daemon/Read and Daemon/Write are about the buffers, Daemon/Quiet about
--              handlers, Daemon/Reach about runs of the loop, Daemon/Own about what a service owns in
--              them; Daemon/Init is daemonInit.
--   Cjson      the JSON library, as a parameter, with what is assumed of it in Cjson/Laws.
--   Client     client/main and client/processCommandLine. Client/Words is str2vec, with its reference
--              definition in Client/Words/Reference and its theorems in Client/Words/Laws;
--              Client/Socket the state and the calls; Client/Table commandLine.h and commandLine.cpp;
--              Client/Command what the classes Client/Login, Client/Regist, Client/Logout,
--              Client/Exiter and Client/Help share; Client/Main main.cpp, with theorems on the lines
--              typed in Client/Main/Lines and on the server's messages in Client/Main/Notices.
--   Log        mylib/mylib_log/logrecord.c, with its theorem in Log/Lines.
--   Receiver   service/messageReceiver/messageReceiver.cpp; Receiver/Request and Receiver/Response have
--              the theorems on what goes to the dispatcher and to the devices, Receiver/Handler those on
--              the whole handler; Receiver/Main is its main.cpp and Receiver/Runs about its runs.
--              Receiver/Loginer is the older loginer.cpp of this directory, which
--              Receiver/Loginer/Same compares with the login manager's, and Receiver/Register the older
--              register.cpp.
--   Dispatcher service/messageDispatcher/messageDispatcher.cpp; Dispatcher/Relay has its theorems,
--              Dispatcher/Main is its main.cpp and Dispatcher/Runs about its runs.
--   Manager    service/loginManager/main/userLoginImpl.cpp, over Loginer and Register;
--              Manager/Reply and Manager/Codes are about what the receiver gets, Manager/Quiet about the
--              buffers, Manager/Session about a whole login request, Manager/Answered and
--              Manager/Requests about the answers to logins, logouts and registrations.
--              Manager/Order is the invariant of the tables, Manager/Followed what a call does to it and
--              to the devices, Manager/Leaves and Manager/Rested what a message does,
--              Manager/Sessions the theorems on messages and runs. Manager/Main is its
--              main.cpp and Manager/Runs about the buffers in its runs.
--   Journey    a message on its way through the client, the receiver, the dispatcher and the manager:
--              a login (Journey/Way) and its way back (Journey/Answer), to the device that it
--              replaces (Journey/Takeover), a logout (Journey/Leave) and a registration
--              (Journey/Join).
--   Tests      a MySQL server by clauses, and the theorems at concrete inputs.
--
-- The code's strings are texts of bytes with no length bound but the ones written out. strtoul takes
-- as fuel the length of its text, which bounds the digits it reads. Casts keep the width of C:
-- to_int wraps to 32 bits, and narrow does so for the long long that cJSON keeps a number in,
-- wherever the code stores it in an int. str2vec takes as fuel one more than the length of its text:
-- each round moves on by a separator of one byte.
--
-- Not modelled: the texts of the system's errors and the lines that the client prints with them, the
-- client's handler of SIGINT, the log lines of the services, and the vendored code (mylib/cJSON,
-- whose calls are the parameter Cjson, and the build tools). What the older files under
-- service/messageReceiver repeat word for word is modelled once. The two threads of the client share
-- its socket: each has its own round. malloc gives an address that it has not given before, or NULL.
--
-- SqlApi::select frees a result set before anybody reads the rows that it keeps. Whether the freed rows
-- still read as they did is a parameter of the model, with no assumption on it (survives of Mysql); a
-- read of rows that do not is undefined behaviour and stops the run (use_after_free of Exec).
mod Base
pub mod Exec
pub mod Mysql
pub mod SqlApi
pub mod Codes
pub mod Loginer
pub mod Register
pub mod Daemon
pub mod Client
pub mod Log
pub mod Cjson
pub mod Receiver
pub mod Dispatcher
pub mod Manager
pub mod Journey
mod Tests
