-- ===== src/Dispatcher/Relay.antt =====
-- messageDispatcher.cpp, dealClientMessage: what the login service is sent and what comes back.
use single_terminal_login_sy.Base.{
  ◌≡◌, ◌<◌, refl, ap, ◌∙◌, true, false, not, Option, none, some, ℕ, ltb, if◌then◌else◌, arith,
}
use single_terminal_login_sy.Base.Text.{Text, codes, c_str}
use single_terminal_login_sy.Base.Int.{narrow, ℤ, pos, negsuc, is_neg}
use single_terminal_login_sy.Exec.{Exec, done, pure, crash, continue, ◌>>=◌, out_of_bounds}
use single_terminal_login_sy.Cjson.{Cjson}
use single_terminal_login_sy.Daemon.{Daemon, called, call, send, find_key}
use single_terminal_login_sy.Daemon.System.{Kernel, Reply, Call, sys_write, sys_read}
use single_terminal_login_sy.Daemon.Write.{IsQuiet}
use single_terminal_login_sy.Exec.Keeps.{Keeps}
use single_terminal_login_sy.Daemon.Quiet.{IsSame, IsQuiet-of_Keeps, quiet_rules}
use single_terminal_login_sy.Dispatcher.{
  MessageDispatcher, find_service, loginer_service, is_login_type, deal_login, deal_type,
  with_operate_type, get_service_fd_and_message, relay, forward, deal_client_message,
  message_max_len,
}

module _ (j : Cjson) where
  abbrev pub operated : j.Item → ℤ → j.Item
  operated json t = j.add_number_to_object json (codes "operateType") t

  -- A message of a type that the dispatcher serves.
  pub record IsRequest (message : Text) (json : j.Item) (t : ℤ) : Type 0 where
    pub item : j.Item
    pub parses : j.parse message ≡ some json
    pub has_type : j.get_object_item json (codes "messageType") ≡ some item
    pub type_is_number : j.is_number item ≡ true
    pub type_is : narrow (j.valueint item) ≡ t

  abbrev pub typed : j.Item → ℤ → Exec (Daemon MessageDispatcher) (Option (ℤ × Text))
  typed json t = if is_login_type t then deal_login j json t else pure none

  request_lem :
      (message : Text) (json : j.Item) (t : ℤ) (s : Daemon MessageDispatcher)
      → IsRequest message json t
      → get_service_fd_and_message j message s ≡ typed json t s
  unfolding get_service_fd_and_message
  request_lem message json t s r = rw (r.parses, r.has_type, r.type_is_number, r.type_is) refl

  pub served_lem :
      (message : Text) (json : j.Item) (t service : ℤ) (s : Daemon MessageDispatcher)
      → IsRequest message json t
      → is_login_type t ≡ true
      → find_key s.own.service_fd_map loginer_service ≡ some service
      → get_service_fd_and_message j message s
        ≡ (done (some (service, j.print_unformatted (operated json t))), s)
  unfolding deal_login
  served_lem message json t service s r ty found =
      request_lem message json t s r
      ∙ ap (λ b. (if b then deal_login j json t else pure none) s) ty
      ∙ ap (λ o. (done (with_operate_type j json t o), s)) found

  -- A message whose type, cast to int, is none of 1, 2 and 3 is refused with no system call: nobody
  -- gets an answer.
  pub deal_client_message_other :
      (sys : Kernel) (fd code : ℤ) (message : Text) (json : j.Item) (t : ℤ)
      (s : Daemon MessageDispatcher)
      → IsRequest message json t
      → is_login_type t ≡ false
      → deal_client_message j sys fd code message s ≡ (done false, s)
  unfolding deal_client_message
  deal_client_message_other sys fd code message json t s r ty =
      ap (λ o. continue o (forward sys fd))
        (request_lem message json t s r
          ∙ ap (λ b. (if b then deal_login j json t else pure none) s) ty)

module _ (j : Cjson) (sys : Kernel) where
  abbrev pub question : ℤ → j.Item → ℤ → Call
  question service json t = sys_write service (j.print_unformatted (operated j json t))

  abbrev pub answer : ℤ → Call
  answer service = sys_read service message_max_len

  abbrev pub questioned : ℤ → j.Item → ℤ → Daemon MessageDispatcher → Daemon MessageDispatcher
  questioned service json t s = called sys (question service json t) s

  -- What the service replies.
  abbrev pub reply_of : ℤ → j.Item → ℤ → Daemon MessageDispatcher → Reply
  reply_of service json t s = sys (questioned service json t s).trace (answer service)

  -- For a message whose type, cast to int, is 1, 2 or 3, when the service is connected, the write
  -- to it does not fail and its reply has less than 10240 bytes, dealClientMessage writes the
  -- message with operateType added to the service, reads once, and writes what it read to the
  -- asker.
  pub deal_client_message_relays :
      (fd code : ℤ) (message : Text) (json : j.Item) (t service : ℤ) (n : ℕ)
      (s : Daemon MessageDispatcher)
      → IsRequest j message json t
      → is_login_type t ≡ true
      → find_key s.own.service_fd_map loginer_service ≡ some service
      → is_neg (sys s.trace (question service json t)).ret ≡ false
      → (reply_of service json t s).ret ≡ pos n
      → n < message_max_len
      → deal_client_message j sys fd code message s
        ≡ send sys fd
            (c_str (reply_of service json t s).bytes)
            (called sys (answer service) (questioned service json t s))
  unfolding deal_client_message
  deal_client_message_relays fd code message json t service n s r ty found sent got short =
      ap (λ o. continue o (forward sys fd)) (served_lem j message json t service s r ty found)
      ∙ ap
          (λ b.
            (if not b
                then (do x ← call sys (answer service); relay sys fd x.bytes x.ret)
                else pure false)
              (questioned service json t s))
          sent
      ∙ ap
          (λ z.
            relay sys fd (reply_of service json t s).bytes z
              (called sys (answer service) (questioned service json t s)))
          got
      ∙ ap
          (λ b.
            (if b
                then send sys fd (c_str (reply_of service json t s).bytes)
                else crash out_of_bounds)
              (called sys (answer service) (questioned service json t s)))
          is_short
    where
      is_short : ltb n message_max_len ≡ true
      is_short = ground arith

module _ (j : Cjson) (sys : Kernel) (first : Daemon MessageDispatcher) where
  find-Keeps : (service : ℤ) → Keeps (IsSame first) (find_service service)
  find-Keeps service = record { after = λ s p. p }

  type-Keeps : (json : j.Item) (o : Option j.Item) → Keeps (IsSame first) (deal_type j json o)
  unfolding deal_login
  type-Keeps json none = search quiet_rules
  type-Keeps json (some item) = search (quiet_rules, find-Keeps)

  relay-Keeps : (fd : ℤ) (text : Text) (z : ℤ) → Keeps (IsSame first) (relay sys fd text z)
  relay-Keeps fd text (negsuc n) = search quiet_rules
  relay-Keeps fd text (pos n) = search quiet_rules

  forward-Keeps : (fd : ℤ) (o : Option (ℤ × Text)) → Keeps (IsSame first) (forward sys fd o)
  forward-Keeps fd none = search quiet_rules
  forward-Keeps fd (some (service, text)) = search (quiet_rules, relay-Keeps)

  service-Keeps : (msg : Text) → Keeps (IsSame first) (get_service_fd_and_message j msg)
  unfolding get_service_fd_and_message
  service-Keeps msg = search (quiet_rules, type-Keeps)

  handler-Keeps :
      (fd code : ℤ) (msg : Text) → Keeps (IsSame first) (deal_client_message j sys fd code msg)
  unfolding deal_client_message
  handler-Keeps fd code msg = search (quiet_rules, service-Keeps, forward-Keeps)

module _ (j : Cjson) (sys : Kernel) where
  -- MessageDispatcher's handler leaves the heap, the next address and the interest list as they are
  -- when it returns.
  pub dispatcher-IsQuiet : (epoll_fd : ℤ) → IsQuiet epoll_fd (deal_client_message j sys)
  dispatcher-IsQuiet epoll_fd =
      IsQuiet-of_Keeps epoll_fd (deal_client_message j sys) (handler-Keeps j sys)
