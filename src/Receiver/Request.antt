-- ===== src/Receiver/Request.antt =====
-- messageReceiver.cpp, getNeedSendMessage and dealClientMessage: what the dispatcher is sent, and
-- that the handler keeps the daemon's heap in order.
use single_terminal_login_sy.Base.{◌≡◌, refl, true, Option, none, some}
use single_terminal_login_sy.Base.Text.{Text, codes}
use single_terminal_login_sy.Base.Int.{ℤ, IsInt, pos, negsuc}
use single_terminal_login_sy.Exec.{done, fault, null_pointer}
use single_terminal_login_sy.Cjson.{Cjson}
use single_terminal_login_sy.Cjson.Laws.{CjsonLaws}
use single_terminal_login_sy.Daemon.{Daemon}
use single_terminal_login_sy.Daemon.System.{Kernel}
use single_terminal_login_sy.Daemon.Write.{IsQuiet}
use single_terminal_login_sy.Exec.Keeps.{Keeps}
use single_terminal_login_sy.Daemon.Quiet.{IsSame, IsQuiet-of_Keeps, quiet_rules}
use single_terminal_login_sy.Receiver.{
  MessageReceiver, extend_info, get_need_send_message, deal_items, deal_logout_fd,
  deal_service_response, notice, after_response, ask, service_fd, deal_client_message,
}

module _ (j : Cjson) (sys : Kernel) (first : Daemon MessageReceiver) where
  notice-Keeps : (fd : ℤ) → Keeps (IsSame first) (notice sys fd)
  notice-Keeps fd = search quiet_rules

  fd-Keeps :
      (fd : ℤ) (msg : Text) (o : Option j.Item)
      → Keeps (IsSame first) (deal_logout_fd j sys fd msg o)
  fd-Keeps fd msg none = search quiet_rules
  fd-Keeps fd msg (some item) = search (quiet_rules, notice-Keeps)

  items-Keeps : (fd : ℤ) (m i : Option j.Item) → Keeps (IsSame first) (deal_items j sys fd m i)
  items-Keeps fd none i = search quiet_rules
  items-Keeps fd (some m) none = search quiet_rules
  items-Keeps fd (some m) (some i) = search (quiet_rules, fd-Keeps)

  response-Keeps :
      (fd : ℤ) (text : Text) → Keeps (IsSame first) (deal_service_response j sys fd text)
  unfolding deal_service_response
  response-Keeps fd text = search (quiet_rules, items-Keeps)

  after-Keeps :
      (fd : ℤ) (text : Text) (z : ℤ) → Keeps (IsSame first) (after_response j sys fd text z)
  after-Keeps fd text (negsuc n) = search quiet_rules
  after-Keeps fd text (pos n) = search (quiet_rules, response-Keeps)

  ask-Keeps : (fd service : ℤ) (text : Text) → Keeps (IsSame first) (ask j sys fd service text)
  ask-Keeps fd service text = search (quiet_rules, after-Keeps)

  need-Keeps : (msg : Text) (fd : ℤ) → Keeps (IsSame first) (get_need_send_message j msg fd)
  unfolding get_need_send_message
  need-Keeps msg fd = search quiet_rules

  service-Keeps : Keeps (IsSame first) service_fd
  service-Keeps = record { after = λ s p. p }

  handler-Keeps :
      (fd code : ℤ) (msg : Text) → Keeps (IsSame first) (deal_client_message j sys fd code msg)
  unfolding deal_client_message
  handler-Keeps fd code msg = search (quiet_rules, ask-Keeps, need-Keeps, service-Keeps)

module _ (j : Cjson) (sys : Kernel) where
  -- MessageReceiver's handler leaves the heap, the next address and the interest list as they are
  -- when it returns.
  pub receiver-IsQuiet : (epoll_fd : ℤ) → IsQuiet epoll_fd (deal_client_message j sys)
  receiver-IsQuiet epoll_fd =
      IsQuiet-of_Keeps epoll_fd (deal_client_message j sys) (handler-Keeps j sys)

  -- A message that is no JSON makes the receiver use a null pointer, whoever sends it.
  pub deal_client_message_not_json :
      (fd code : ℤ) (message : Text) (s : Daemon MessageReceiver)
      → j.parse message ≡ none
      → deal_client_message j sys fd code message s ≡ (fault null_pointer, s)
  unfolding deal_client_message get_need_send_message
  deal_client_message_not_json fd code message s e = rw e refl

module _ (j : Cjson) (laws : CjsonLaws j) where
  abbrev pub extended : j.Item → ℤ → j.Item
  extended json fd = j.add_item_to_object json (codes "extendInfo") (extend_info j fd)

  -- For a JSON message without extendInfo, from a descriptor in the range of int, when the extended
  -- message is read back from its text, the receiver passes on a text that holds the descriptor as
  -- the number extendInfo.clientFd.
  pub get_need_send_message_names :
      (message : Text) (fd : ℤ) (json : j.Item) (s : Daemon MessageReceiver)
      → IsInt fd
      → j.parse message ≡ some json
      → j.get_object_item json (codes "extendInfo") ≡ none
      → j.parse (j.print_unformatted (extended json fd)) ≡ some (extended json fd)
      → (text : Text) × (root info item : j.Item) × (get_need_send_message j message fd s
          ≡ (done text, s))
        × (j.parse text ≡ some root)
        × (j.get_object_item root (codes "extendInfo") ≡ some info)
        × (j.get_object_item info (codes "clientFd") ≡ some item)
        × (j.is_number item ≡ true)
        × (j.valueint item ≡ fd)
  unfolding get_need_send_message
  get_need_send_message_names message fd json s small e absent back =
      let (item, has, num, val) =
        laws.get-add_number j.create_object (codes "clientFd") fd small
          (laws.get-create (codes "clientFd")) in
      (
        j.print_unformatted (extended json fd),
        extended json fd,
        extend_info j fd,
        item,
        rw e refl,
        back,
        laws.get-add_item json (codes "extendInfo") (extend_info j fd) absent,
        has,
        num,
        val,
      )

  -- For a JSON message that has an extendInfo of its own, when the extended message is read back from
  -- its text, the receiver passes on a text whose extendInfo is the sender's, so that the sender
  -- chooses the descriptor.
  pub get_need_send_message_forged :
      (message : Text) (fd : ℤ) (json own : j.Item) (s : Daemon MessageReceiver)
      → j.parse message ≡ some json
      → j.get_object_item json (codes "extendInfo") ≡ some own
      → j.parse (j.print_unformatted (extended json fd)) ≡ some (extended json fd)
      → (text : Text) × (root : j.Item) × (get_need_send_message j message fd s ≡ (done text, s))
        × (j.parse text ≡ some root)
        × (j.get_object_item root (codes "extendInfo") ≡ some own)
  unfolding get_need_send_message
  get_need_send_message_forged message fd json own s e has back = (
    j.print_unformatted (extended json fd),
    extended json fd,
    rw e refl,
    back,
    laws.get-add_item_first json (codes "extendInfo") (codes "extendInfo") (extend_info j fd) own
        has,
  )
