-- ===== src/Receiver/Handler.antt =====
-- messageReceiver.cpp, dealClientMessage as a whole: what a message of a device makes the receiver write,
-- to whom and in which order.
use single_terminal_login_sy.Base.{ℕ, ◌<◌, ◌≡◌, refl, ◌∙◌, true, false, some, ltb, arith}
use single_terminal_login_sy.Base.Text.{Text, codes, c_str}
use single_terminal_login_sy.Base.Int.{ℤ, pos, is_neg, is_pos}
use single_terminal_login_sy.Cjson.{Cjson}
use single_terminal_login_sy.Daemon.{Daemon, called, send}
use single_terminal_login_sy.Daemon.System.{Kernel, Call, Reply, sys_write, sys_read}
use single_terminal_login_sy.Receiver.{
  MessageReceiver, message_max_len, extend_info, get_need_send_message, deal_service_response,
  deal_client_message,
}
use single_terminal_login_sy.Receiver.Response.{
  IsResponse, logout_notice, deal_service_response_notifies,
}

module _ (j : Cjson) (sys : Kernel) (fd : ℤ) (json : j.Item) (s : Daemon MessageReceiver) where
  -- The dispatcher's descriptor.
  abbrev pub dispatcher : ℤ
  dispatcher = s.own.send_to_message_dispatcher_service_fd

  -- The message with the descriptor goes to the dispatcher, whose answer is read next.
  abbrev pub question : Call
  question =
      sys_write dispatcher
        (j.print_unformatted (j.add_item_to_object json (codes "extendInfo") (extend_info j fd)))

  abbrev pub questioned : Daemon MessageReceiver
  questioned = called sys question s

  abbrev pub answer : Call
  answer = sys_read dispatcher message_max_len

  abbrev pub answered : Daemon MessageReceiver
  answered = called sys answer questioned

  abbrev pub reply : Reply
  reply = sys questioned.trace answer

  pub ask_lem :
      (code : ℤ) (message : Text) (n : ℕ)
      → j.parse message ≡ some json
      → is_neg (sys s.trace question).ret ≡ false
      → reply.ret ≡ pos n
      → n < message_max_len
      → deal_client_message j sys fd code message s
        ≡ deal_service_response j sys fd (c_str reply.bytes) answered
  unfolding deal_client_message get_need_send_message
  ask_lem code message n e sent got short = rw (e, sent, got, is_short) refl
    where
      is_short : ltb n message_max_len ≡ true
      is_short = ground arith

  -- For a JSON message of a device, when the write to the dispatcher does not fail and its reply of
  -- less than 10240 bytes is a response that names a device whose descriptor, cast to int, is above
  -- 0 and can be written to, dealClientMessage makes four calls: it writes the message with the
  -- descriptor to the dispatcher, reads once, writes "logout" to the named device, and then the
  -- response's text to the one that asked.
  pub deal_client_message_notifies :
      (code : ℤ) (message msg : Text) (logout_fd : ℤ) (n : ℕ)
      → j.parse message ≡ some json
      → is_neg (sys s.trace question).ret ≡ false
      → reply.ret ≡ pos n
      → n < message_max_len
      → IsResponse j (c_str reply.bytes) msg logout_fd
      → is_pos logout_fd ≡ true
      → is_neg (sys answered.trace (logout_notice logout_fd)).ret ≡ false
      → deal_client_message j sys fd code message s
        ≡ send sys fd msg (called sys (logout_notice logout_fd) answered)
  deal_client_message_notifies code message msg logout_fd n e sent got short response old told =
      ask_lem code message n e sent got short
      ∙ deal_service_response_notifies j sys fd (c_str reply.bytes) msg logout_fd answered response
          old told
