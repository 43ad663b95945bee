-- ===== src/Journey.antt =====
-- The way of a message: client/processCommandLine, messageReceiver.cpp, messageDispatcher.cpp and
-- userLoginImpl.cpp on the same message, and its answer on the way back.
pub mod Way
pub mod Leave
pub mod Join
pub mod Answer
pub mod Takeover
use single_terminal_login_sy.Base.{ap, ◌∙◌, ◌≡◌, refl, map, true, false, none, some, arith}
use single_terminal_login_sy.Base.Text.{Text, codes, text_eq}
use single_terminal_login_sy.Base.Int.{narrow, narrow-IsInt, ℤ, IsInt}
use single_terminal_login_sy.Codes.{MessageType, regist, login, logout, type_value}
use single_terminal_login_sy.Exec.{done}
use single_terminal_login_sy.Cjson.{Cjson}
use single_terminal_login_sy.Cjson.Laws.{CjsonLaws, lower}
use single_terminal_login_sy.Daemon.{Daemon, find_key}
use single_terminal_login_sy.Client.Command.{typed_root, user_item, credentials_item}
use single_terminal_login_sy.Receiver.{MessageReceiver, extend_info, get_need_send_message}
use single_terminal_login_sy.Dispatcher.{
  MessageDispatcher, loginer_service, is_login_type, get_service_fd_and_message,
}
use single_terminal_login_sy.Dispatcher.Relay.{operated, IsRequest, served_lem}

-- The message of the device, of the receiver and of the dispatcher, `body` being what it is about.
module _ (j : Cjson) (t : MessageType) (body : j.Item) where
  abbrev pub sent : j.Item
  sent = j.add_item_to_object (typed_root j t) (codes "message") body

  abbrev pub named : ℤ → j.Item
  named fd = j.add_item_to_object sent (codes "extendInfo") (extend_info j fd)

  abbrev pub served : ℤ → j.Item
  served fd = operated j (named fd) (type_value t)

-- The text of a message is read back as the message.
abbrev pub ReadsBack : (j : Cjson) → j.Item → Type 0
ReadsBack j item = j.parse (j.print_unformatted item) ≡ some item

type_value-IsInt : (t : MessageType) → IsInt (type_value t)
type_value-IsInt regist = omega arith
type_value-IsInt login = omega arith
type_value-IsInt logout = omega arith

is_login_type-type_value : (t : MessageType) → is_login_type (type_value t) ≡ true
is_login_type-type_value regist = refl
is_login_type-type_value login = refl
is_login_type-type_value logout = refl

module _ (j : Cjson) (laws : CjsonLaws j) (t : MessageType) (body : j.Item) (fd : ℤ) where
  sent_type :
      j.get_object_item (sent j t body) (codes "messageType")
      ≡ some (j.create_number (type_value t))
  sent_type =
      laws.get-add_item_first (typed_root j t) (codes "message") (codes "messageType") body
        (j.create_number (type_value t))
        (laws.get-add_item j.create_object (codes "messageType") (j.create_number (type_value t))
          (laws.get-create (codes "messageType")))

  sent_message : j.get_object_item (sent j t body) (codes "message") ≡ some body
  unfolding text_eq
  sent_message = laws.get-add_item (typed_root j t) (codes "message") body (
      laws.get-add_item_none j.create_object (codes "messageType") (codes "message")
        (j.create_number (type_value t)) refl (laws.get-create (codes "message")))

  -- Neither the message nor its type is named k.
  sent-none :
      (k : Text)
      → text_eq (map lower (codes "messageType")) (map lower k) ≡ false
      → text_eq (map lower (codes "message")) (map lower k) ≡ false
      → j.get_object_item (sent j t body) k ≡ none
  sent-none k other_type other =
      laws.get-add_item_none (typed_root j t) (codes "message") k body other (
        laws.get-add_item_none j.create_object (codes "messageType") k
          (j.create_number (type_value t)) other_type (laws.get-create k))

  -- What the message is about is still found in what the dispatcher passes on.
  pub has_message : j.get_object_item (served j t body fd) (codes "message") ≡ some body
  has_message =
      laws.get-add_number_first (named j t body fd) (codes "operateType") (codes "message")
        (type_value t) body
        (laws.get-add_item_first (sent j t body) (codes "extendInfo") (codes "message")
          (extend_info j fd) body sent_message)

  pub has_operate :
      (n : j.Item) × (j.get_object_item (served j t body fd) (codes "operateType") ≡ some n)
      × (j.is_number n ≡ true)
      × (narrow (j.valueint n) ≡ type_value t)
  unfolding text_eq
  has_operate =
      let (n, has, number, value) =
        laws.get-add_number (named j t body fd) (codes "operateType") (type_value t)
          (type_value-IsInt t)
          (laws.get-add_item_none (sent j t body) (codes "extendInfo") (codes "operateType")
            (extend_info j fd) refl (sent-none (codes "operateType") refl refl)) in
      (n, has, number, ap narrow value ∙ narrow-IsInt (type_value t) (type_value-IsInt t))

  pub has_info :
      j.get_object_item (served j t body fd) (codes "extendInfo") ≡ some (extend_info j fd)
  unfolding text_eq
  has_info =
      laws.get-add_number_first (named j t body fd) (codes "operateType") (codes "extendInfo")
        (type_value t) (extend_info j fd)
        (laws.get-add_item (sent j t body) (codes "extendInfo") (extend_info j fd)
          (sent-none (codes "extendInfo") refl refl))

  request_lem :
      ReadsBack j (named j t body fd)
      → IsRequest j (j.print_unformatted (named j t body fd)) (named j t body fd) (type_value t)
  request_lem back = record {
    item = j.create_number (type_value t);
    parses = back;
    has_type =
        laws.get-add_item_first (sent j t body) (codes "extendInfo") (codes "messageType")
          (extend_info j fd) (j.create_number (type_value t)) sent_type;
    type_is_number = laws.create_number-IsNumber (type_value t);
    type_is =
        ap narrow (laws.valueint-create_number (type_value t) (type_value-IsInt t))
        ∙ narrow-IsInt (type_value t) (type_value-IsInt t);
  }

  -- What the receiver and the dispatcher make of the device's message.
  pub passed_lem :
      (service : ℤ) (r : Daemon MessageReceiver) (d : Daemon MessageDispatcher)
      → ReadsBack j (sent j t body)
      → ReadsBack j (named j t body fd)
      → find_key d.own.service_fd_map loginer_service ≡ some service
      → (get_need_send_message j (j.print_unformatted (sent j t body)) fd r
          ≡ (done (j.print_unformatted (named j t body fd)), r))
        × (get_service_fd_and_message j (j.print_unformatted (named j t body fd)) d
            ≡ (done (some (service, j.print_unformatted (served j t body fd))), d))
  unfolding get_need_send_message
  passed_lem service r d back back_named found = (
    rw back refl,
    served_lem j (j.print_unformatted (named j t body fd)) (named j t body fd) (type_value t)
        service d (request_lem back_named) (is_login_type-type_value t) found,
  )

module _ (j : Cjson) (laws : CjsonLaws j) (user : Text) where
  -- The user and the password of a message's body.
  pub user_item_lem :
      j.get_object_item (user_item j user) (codes "userName") ≡ some (j.create_string user)
  user_item_lem =
      laws.get-add_item j.create_object (codes "userName") (j.create_string user)
        (laws.get-create (codes "userName"))

  pub user_item-IsObject : j.is_object (user_item j user) ≡ true
  user_item-IsObject =
      laws.add_item-IsObject j.create_object (codes "userName") (j.create_string user)
        laws.create-IsObject

  module _ (pass : Text) where
    pub has_user :
        j.get_object_item (credentials_item j user pass) (codes "userName")
        ≡ some (j.create_string user)
    has_user =
        laws.get-add_item_first (user_item j user) (codes "passWord") (codes "userName")
          (j.create_string pass) (j.create_string user) user_item_lem

    pub has_pass :
        j.get_object_item (credentials_item j user pass) (codes "passWord")
        ≡ some (j.create_string pass)
    unfolding text_eq
    has_pass = laws.get-add_item (user_item j user) (codes "passWord") (j.create_string pass) (
        laws.get-add_item_none j.create_object (codes "userName") (codes "passWord")
          (j.create_string user) refl (laws.get-create (codes "passWord")))

    pub credentials_item-IsObject : j.is_object (credentials_item j user pass) ≡ true
    credentials_item-IsObject =
        laws.add_item-IsObject (user_item j user) (codes "passWord") (j.create_string pass)
          user_item-IsObject
