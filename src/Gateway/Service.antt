-- ===== src/Gateway/Service.antt =====
-- The handlers of `ChatGateway` (src/chat/chat.gateway.ts). `JwtService.verify` is a parameter, and
-- the rooms of socket.io are lists on the sockets.
use gp_connect_server.Common.{
  ℕ, ◌≡◌, ◌↔◌, Bool, true, false, not, ◌&&◌, ◌||◌, Option, none, some, List, [], ◌∷◌, map, ◌==◌,
  nat_eq, Eq, arith, includes, if◌then◌else◌,
}
use gp_connect_server.Schema.{Conversation}
use gp_connect_server.Prisma.{Prisma, Effect}
use gp_connect_server.Gateway.Strings.{Text, cookie_token, without_bearer}

-- The names of rooms: the id of a conversation, `user:<id>`, and the room of the socket itself.
pub data Room : Type 0 where
  conversation personal own : ℕ → Room

abbrev pub room_beq : Room → Room → Bool
room_beq (Room.conversation a) (Room.conversation b) = a == b
room_beq (Room.personal a) (Room.personal b) = a == b
room_beq (Room.own a) (Room.own b) = a == b
room_beq _ _ = false

pub room_beq_iff : (a b : Room) → (room_beq a b ≡ true) ↔ (a ≡ b)
room_beq_iff a b = (λ h. ground arith, λ h. ground arith)

instance abbrev pub room_eq : Eq Room
room_eq = record { beq = room_beq; beq_iff = room_beq_iff }

pub record Socket : Type 0 where
  pub id : ℕ
  pub user_id : Option ℕ
  pub rooms : List Room

pub record Handshake : Type 0 where
  pub cookie : Option Text
  pub auth_token : Option Text
  pub authorization : Option Text
  pub origin : Option Text

-- `a ?? b`
abbrev pub or_else : {A : Type 0} → Option A → A → A
or_else none b = b
or_else (some a) b = a

abbrev pub text_beq : Text → Text → Bool
text_beq [] [] = true
text_beq [] (d ∷ t) = false
text_beq (c ∷ s) [] = false
text_beq (c ∷ s) (d ∷ t) = (c == d) && text_beq s t

abbrev pub non_empty : Text → Bool
non_empty [] = false
non_empty (c ∷ s) = true

-- `origin && origin !== allowedOrigin`
abbrev pub foreign : Text → Option Text → Bool
foreign allowed none = false
foreign allowed (some o) = non_empty o && not (text_beq o allowed)

abbrev pub raw_token : Handshake → Text
raw_token h =
    or_else (cookie_token (or_else h.cookie [])) (or_else h.auth_token (or_else h.authorization []))

-- A cookie counts if it is not empty.
abbrev pub by_cookie : Handshake → Bool
by_cookie h = elim (cookie_token (or_else h.cookie [])) [ none ↦ false | some t ↦ non_empty t ]

-- `handleConnection`: the user of the socket, or none where it is disconnected.
unfoldable pub authenticate : (Text → Option ℕ) → Text → Handshake → Option ℕ
authenticate verify allowed h =
    let token = without_bearer (raw_token h) in
    if not (non_empty token)
    then none
    else if by_cookie h && foreign allowed h.origin
    then none
    else verify token

-- A connection that is accepted joins the room of its user.
unfoldable pub handle_connection :
    (Text → Option ℕ) → Text → ℕ → Handshake → List Socket → List Socket
unfolding authenticate
handle_connection verify allowed id h sockets = elim (authenticate verify allowed h) [
  | none ↦ sockets
  | some user_id ↦
      record { id = id; user_id = some user_id; rooms = Room.personal user_id ∷ Room.own id ∷ [] }
      ∷ sockets
]

-- What is done to the socket with the id.
unfoldable pub on_socket : ℕ → (Socket → Socket) → List Socket → List Socket
on_socket id f [] = []
on_socket id f (s ∷ sockets) = (if s.id == id then f s else s) ∷ on_socket id f sockets

unfoldable pub without_socket : ℕ → List Socket → List Socket
without_socket id [] = []
without_socket id (s ∷ sockets) =
    let rest = without_socket id sockets in if s.id == id then rest else s ∷ rest

unfoldable pub remove_room : Room → List Room → List Room
remove_room r [] = []
remove_room r (x ∷ rooms) = let rest = remove_room r rooms in if x == r then rest else x ∷ rest

abbrev pub joined : Room → Socket → Socket
joined r s = record s { rooms = r ∷ s.rooms }

unfoldable pub left : Room → Socket → Socket
unfolding remove_room
left r s = record s { rooms = remove_room r s.rooms }

-- `OR: [{ shipperId: userId }, { carrierId: userId }]`, where no user matches nothing.
abbrev pub participates_in : ℕ → Option ℕ → Conversation → Bool
participates_in id none c = false
participates_in id (some u) c = c.id == id && (c.shipper_id == u || c.carrier_id == u)

-- `allowed`: a name that is not the id of a conversation is that of none.
unfoldable pub may_join : (P : Prisma) → P.conversation.Table → Room → Socket → Bool
may_join P t (Room.conversation id) s =
    not (P.conversation.count (participates_in id s.user_id) t == 0)
may_join P t (Room.personal id) s = false
may_join P t (Room.own id) s = false

unfoldable pub join_checked : (P : Prisma) → P.conversation.Table → Room → Socket → Socket
unfolding may_join
join_checked P t r s = if may_join P t r s then joined r s else s

unfoldable pub handle_join :
    (P : Prisma) → P.conversation.Table → ℕ → Room → List Socket → List Socket
unfolding on_socket
handle_join P t id r sockets = on_socket id (join_checked P t r) sockets

unfoldable pub handle_leave : ℕ → Room → List Socket → List Socket
handle_leave id r sockets = on_socket id (left r) sockets

-- `server.to(room)`: the sockets in the room.
unfoldable pub in_room : Room → List Socket → List Socket
in_room r [] = []
in_room r (s ∷ sockets) =
    let rest = in_room r sockets in if includes s.rooms r then s ∷ rest else rest

-- `handleTypingStart` and `handleTypingStop`: the sockets that hear of it.
unfoldable pub typing_recipients : Socket → Room → List Socket → List Socket
unfolding in_room without_socket
typing_recipients s r sockets =
    if includes s.rooms r then without_socket s.id (in_room r sockets) else []

-- The rooms that an event of the other services is sent to.
abbrev pub rooms_of : Effect → List Room
rooms_of (Effect.message_created m c) = Room.conversation c ∷ []
rooms_of (Effect.offer_updated o c) = Room.conversation c ∷ []
rooms_of (Effect.appointment_updated a c) = Room.conversation c ∷ []
rooms_of (Effect.mission_status_changed m s cs) = map Room.conversation cs
rooms_of (Effect.proof_verified m t cs) = map Room.conversation cs
rooms_of (Effect.stats_updated us) = map Room.personal us
rooms_of _ = []
