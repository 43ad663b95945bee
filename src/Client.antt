-- ===== src/Client.antt =====
-- client: the program on a device. Client/Socket has its state, Client/Command what the classes for the
-- commands share, Client/Login, Client/Regist, Client/Logout, Client/Exiter and Client/Help those
-- classes, Client/Table the table of commands, Client/Main the threads.
pub mod Words
pub mod Socket
pub mod Command
pub mod Login
pub mod Regist
pub mod Logout
pub mod Exiter
pub mod Help
pub mod Table
pub mod Main
