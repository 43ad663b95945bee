-- ===== src/Tests/Devices.antt =====
-- The theorems on the client, for a user who logs in as ann.
use single_terminal_login_sy.Base.{◌≡◌, ◌≢◌, refl, [], ◌∷◌, List, some, arith}
use single_terminal_login_sy.Base.Text.{Text, codes, text_eq}
use single_terminal_login_sy.Base.Int.{pos}
use single_terminal_login_sy.Codes.{login}
use single_terminal_login_sy.Exec.{fault, out_of_bounds}
use single_terminal_login_sy.Daemon.System.{Kernel}
use single_terminal_login_sy.Client.Words.{str2vec}
use single_terminal_login_sy.Client.Words.Reference.{words, join}
use single_terminal_login_sy.Client.Words.Laws.{str2vec-words, str2vec-join}
use single_terminal_login_sy.Client.Socket.{Client}
use single_terminal_login_sy.Client.Command.{credentials_message}
use single_terminal_login_sy.Client.Main.{command_round, just_recv_message, run_words}
use single_terminal_login_sy.Client.Main.Lines.{
  IsLine, after_line, typed, command_round-words, command_round_overflow, command_round-login,
  exchanged,
}
use single_terminal_login_sy.Client.Main.Notices.{ending, just_recv_message_ends}
use single_terminal_login_sy.Tests.Json.{json, print_tree}
use single_terminal_login_sy.Tests.Kernels.{kernel_of}

-- A device that has connected to the server, on descriptor 4.
abbrev device : Client
device = record { client_socket = pos 4; trace = [] }

abbrev login_words : List Text
login_words = codes "login" ∷ codes "ann" ∷ codes "pw" ∷ []

-- More words than the array of parameters has slots.
abbrev long_words : List Text
long_words =
    codes "a"
    ∷ codes "b"
    ∷ codes "c"
    ∷ codes "d"
    ∷ codes "e"
    ∷ codes "f"
    ∷ codes "g"
    ∷ codes "h"
    ∷ codes "i"
    ∷ codes "j"
    ∷ codes "k"
    ∷ codes "l"
    ∷ []

abbrev typing : Text → Kernel
typing line = kernel_of (pos 2) (pos 1) line

abbrev login_line : Text
login_line = codes "login ann pw\n"

abbrev long_line : Text
long_line = codes "a b c d e f g h i j k l\n"

login-IsLine : IsLine (typed (typing login_line) (json []) device) login_words
unfolding join
login-IsLine = record {
  read = refl;
  bytes_are = refl;
  no_nul = omega arith;
  spaceless = omega arith;
  some_word = λ e. cc;
  not_empty = λ e. cc;
}

long-IsLine : IsLine (typed (typing long_line) (json []) device) long_words
unfolding join
long-IsLine = record {
  read = refl;
  bytes_are = refl;
  no_nul = omega arith;
  spaceless = omega arith;
  some_word = λ e. cc;
  not_empty = λ e. cc;
}

str2vec-words_example :
    (str2vec (codes "login  ann ") (codes " ") ≡ some (words b' ' (codes "login  ann ")))
    × (join b' ' (words b' ' (codes "login  ann ")) ≡ codes "login  ann ")
str2vec-words_example = str2vec-words b' ' (codes "login  ann ") (λ e. cc)

joined_words : join b' ' login_words ≢ []
unfolding join
joined_words e = cc

str2vec-join_example : str2vec (join b' ' login_words) (codes " ") ≡ some login_words
str2vec-join_example = str2vec-join b' ' login_words (λ e. cc) (omega arith) joined_words

command_round-words_example :
    command_round (typing login_line) (json []) device
    ≡ run_words
        (typing login_line)
        (json [])
        login_words
        (after_line (typing login_line) (json []) device)
command_round-words_example =
    command_round-words (typing login_line) (json []) device login_words login-IsLine

command_round_overflow_example :
    command_round (typing long_line) (json []) device
    ≡ (fault out_of_bounds, after_line (typing long_line) (json []) device)
command_round_overflow_example =
    command_round_overflow (typing long_line) (json []) device (codes "a")
      (codes "b"
        ∷ codes "c"
        ∷ codes "d"
        ∷ codes "e"
        ∷ codes "f"
        ∷ codes "g"
        ∷ codes "h"
        ∷ codes "i"
        ∷ codes "j"
        ∷ codes "k"
        ∷ codes "l"
        ∷ [])
      long-IsLine (omega arith)

command_round-login_example :
    command_round (typing login_line) (json []) device
    ≡ exchanged
        (typing login_line)
        (json [])
        (pos 4)
        (print_tree (credentials_message (json []) login (codes "ann") (codes "pw")))
        (after_line (typing login_line) (json []) device)
command_round-login_example =
    command_round-login (typing login_line) (json []) device (codes "ann") (codes "pw") login-IsLine

-- The server tells the device to log out.
abbrev telling : Kernel
telling = kernel_of (pos 2) (pos 6) (codes "logout")

just_recv_message_ends_example :
    (just_recv_message telling device).0 ≡ ending (text_eq (codes "logout") (codes "logout"))
just_recv_message_ends_example =
    just_recv_message_ends telling device 6 refl (omega arith) (omega arith) (λ e. cc)
