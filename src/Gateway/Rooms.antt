-- ===== src/Gateway/Rooms.antt =====
-- Who is in a room, after any sequence of connections, joins, leaves and disconnections.
use gp_connect_server.Common.{
  ℕ, ◌≡◌, ◌≢◌, ◌⊎◌, inl, inr, true, Option, some, List, [], ◌∷◌, arith, Option-cases, Bool-cases,
  nat_beq_iff, ◌==◌, nat_eq, includes, subst,
}
use gp_connect_server.Schema.{Conversation}
use gp_connect_server.Prisma.{Prisma}
use gp_connect_server.Gateway.Strings.{Text}
use gp_connect_server.Gateway.Service.{
  Room, room_eq, Socket, Handshake, authenticate, handle_connection, on_socket, without_socket,
  remove_room, joined, left, participates_in, may_join, join_checked, handle_join, handle_leave,
  in_room, typing_recipients,
}

abbrev pub All : {A : Type 0} → (A → Type 0) → List A → Type 0
All Q [] = Unit {0}
All Q (x ∷ xs) = Q x × All Q xs

-- The user of the socket is a party of the conversation.
abbrev pub IsParty : (P : Prisma) → P.conversation.Table → ℕ → Socket → Type 0
IsParty P t id s =
    (c : Conversation) × (P.conversation.find_unique id t ≡ some c)
    × ((s.user_id ≡ some c.shipper_id) ⊎ (s.user_id ≡ some c.carrier_id))

-- A socket is only in rooms of conversations of its user, and in the room of no other user.
pub record IsSound (P : Prisma) (t : P.conversation.Table) (s : Socket) : Type 0 where
  pub conversations : (id : ℕ) → includes s.rooms (Room.conversation id) ≡ true → IsParty P t id s
  pub personal : (u : ℕ) → includes s.rooms (Room.personal u) ≡ true → s.user_id ≡ some u

-- One connection, message or disconnection that reaches the gateway.
pub data GatewayStep (P : Prisma) (t : P.conversation.Table)
    : List Socket → List Socket → Type 0 where
  connect :
      (verify : Text → Option ℕ) (allowed : Text) (id : ℕ) (h : Handshake) (sockets : List Socket)
      → GatewayStep P t sockets (handle_connection verify allowed id h sockets)
  join :
      (id : ℕ) (r : Room) (sockets : List Socket)
      → GatewayStep P t sockets (handle_join P t id r sockets)
  leave :
      (id : ℕ) (r : Room) (sockets : List Socket)
      → GatewayStep P t sockets (handle_leave id r sockets)
  disconnect :
      (id : ℕ) (sockets : List Socket) → GatewayStep P t sockets (without_socket id sockets)

pub data GatewayRun (P : Prisma) (t : P.conversation.Table) : List Socket → Type 0 where
  empty : GatewayRun P t []
  next :
      {sockets sockets' : List Socket}
      → GatewayRun P t sockets
      → GatewayStep P t sockets sockets'
      → GatewayRun P t sockets'

module _ (Q : Socket → Type 0) where
  on_socket-All :
      (id : ℕ) (f : Socket → Socket) (sockets : List Socket)
      → ((s : Socket) → Q s → Q (f s))
      → All Q sockets
      → All Q (on_socket id f sockets)
  unfolding on_socket
  on_socket-All id f [] pres all = tt
  on_socket-All id f (s ∷ sockets) pres all = (
    elim (Bool-cases (s.id == id)) [ inl y ↦ rw y (pres s all.0) | inr n ↦ rw n (all.0) ],
    on_socket-All id f sockets pres all.1,
  )

  without_socket-All :
      (id : ℕ) (sockets : List Socket) → All Q sockets → All Q (without_socket id sockets)
  unfolding without_socket
  without_socket-All id [] all = tt
  without_socket-All id (s ∷ sockets) all = elim (Bool-cases (s.id == id)) [
    | inl y ↦ rw y (without_socket-All id sockets all.1)
    | inr n ↦ rw n (all.0, without_socket-All id sockets all.1)
  ]

  in_room-All :
      {R : Socket → Type 0} (r : Room) (sockets : List Socket)
      → ((s : Socket) → Q s → includes s.rooms r ≡ true → R s)
      → All Q sockets
      → All R (in_room r sockets)
  unfolding in_room
  in_room-All r [] good all = tt
  in_room-All r (s ∷ sockets) good all = elim (Bool-cases (includes s.rooms r)) [
    | inl y ↦ rw y (good s all.0 y, in_room-All r sockets good all.1)
    | inr n ↦ rw n (in_room-All r sockets good all.1)
  ]

includes-remove_room :
    (r x : Room) (rooms : List Room)
    → includes (remove_room r rooms) x ≡ true
    → includes rooms x ≡ true
unfolding remove_room
includes-remove_room r x [] h = h
includes-remove_room r x (y ∷ rooms) h = ground (arith, includes-remove_room r x rooms)

abbrev connected : ℕ → ℕ → Socket
connected id user_id = record {
  id = id;
  user_id = some user_id;
  rooms = Room.personal user_id ∷ Room.own id ∷ [];
}

handle_connection-cases :
    (verify : Text → Option ℕ) (allowed : Text) (id : ℕ) (h : Handshake) (sockets : List Socket)
    → (handle_connection verify allowed id h sockets ≡ sockets)
      ⊎ ((u : ℕ) × (handle_connection verify allowed id h sockets ≡ connected id u ∷ sockets))
unfolding handle_connection
handle_connection-cases verify allowed id h sockets =
    elim (Option-cases (authenticate verify allowed h)) [
      | inl z ↦ inl (ground arith)
      | inr (u, e) ↦ inr (u, ground arith)
    ]

module _ (P : Prisma) (t : P.conversation.Table) where
  left-IsSound : (r : Room) (s : Socket) → IsSound P t s → IsSound P t (left r s)
  unfolding left
  left-IsSound r s i = record {
    conversations = λ id m. i.conversations id (includes-remove_room r _ s.rooms m);
    personal = λ u m. i.personal u (includes-remove_room r _ s.rooms m);
  }

  may_join-IsParty :
      (id : ℕ) (s : Socket) → may_join P t (Room.conversation id) s ≡ true → IsParty P t id s
  unfolding may_join
  may_join-IsParty id s h =
      let some_row : P.conversation.count (participates_in id s.user_id) t ≢ 0 =
        λ z. ground arith in
      let (c, hit, there) = P.conversation.count-pos (participates_in id s.user_id) t some_row in
      elim (Option-cases s.user_id) [
        | inl z ↦ absurd (ground arith)
        | inr (u, e) ↦
            let i = nat_beq_iff c.id id in
            let a = nat_beq_iff c.shipper_id u in
            let b = nat_beq_iff c.carrier_id u in
            let same : c.id ≡ id = ground arith in
            (
              c,
              subst (λ k. P.conversation.find_unique k t ≡ some c) same there,
              elim (Bool-cases (c.shipper_id == u)) [
                | inl y ↦ inl (ground arith)
                | inr n ↦ inr (ground arith)
              ],
            )
      ]

  joined-IsSound :
      (id : ℕ) (s : Socket)
      → IsParty P t id s
      → IsSound P t s
      → IsSound P t (joined (Room.conversation id) s)
  joined-IsSound id s party i = record {
    conversations = λ k m. elim (Bool-cases (id == k)) [
      | inl y ↦ subst (λ k. IsParty P t k s) ((nat_beq_iff id k).0 y) party
      | inr n ↦ i.conversations k (ground arith)
    ];
    personal = λ u m. i.personal u (ground arith);
  }

  join_checked-IsSound :
      (r : Room) (s : Socket) → IsSound P t s → IsSound P t (join_checked P t r s)
  unfolding join_checked
  join_checked-IsSound (Room.conversation id) s i =
      elim (Bool-cases (may_join P t (Room.conversation id) s)) [
        | inl y ↦ rw y (joined-IsSound id s (may_join-IsParty id s y) i)
        | inr n ↦ rw n i
      ]
  join_checked-IsSound (Room.personal u) s i = i
  join_checked-IsSound (Room.own k) s i = i

  handle_connection-IsSound :
      (verify : Text → Option ℕ) (allowed : Text) (id : ℕ) (h : Handshake) (sockets : List Socket)
      → All (IsSound P t) sockets
      → All (IsSound P t) (handle_connection verify allowed id h sockets)
  handle_connection-IsSound verify allowed id h sockets all =
      elim (handle_connection-cases verify allowed id h sockets) [
        | inl same ↦ rw same all
        | inr (u, run) ↦ rw run (
          record {
            conversations = λ k m. absurd (ground arith);
            personal = λ v m. let same = nat_beq_iff u v in ground arith;
          },
          all,
        )
      ]

  GatewayStep-IsSound :
      {sockets sockets' : List Socket}
      → GatewayStep P t sockets sockets'
      → All (IsSound P t) sockets
      → All (IsSound P t) sockets'
  unfolding handle_join handle_leave
  GatewayStep-IsSound (connect verify allowed id h sockets) all =
      handle_connection-IsSound verify allowed id h sockets all
  GatewayStep-IsSound (join id r sockets) all =
      on_socket-All (IsSound P t) id (join_checked P t r) sockets (join_checked-IsSound r) all
  GatewayStep-IsSound (leave id r sockets) all =
      on_socket-All (IsSound P t) id (left r) sockets (left-IsSound r) all
  GatewayStep-IsSound (disconnect id sockets) all = without_socket-All (IsSound P t) id sockets all

  GatewayRun-IsSound : {sockets : List Socket} → GatewayRun P t sockets → All (IsSound P t) sockets
  GatewayRun-IsSound empty = tt
  GatewayRun-IsSound (next r s) = GatewayStep-IsSound s (GatewayRun-IsSound r)

  -- After any sequence of connections, joins, leaves and disconnections, what is sent to the room of
  -- a conversation reaches only sockets of its two parties, what is sent to the room of a user
  -- reaches only sockets of that user, and a typing indicator for a conversation only its parties.
  pub GatewayRun-recipients :
      {sockets : List Socket}
      → GatewayRun P t sockets
      → (id user_id : ℕ) (s : Socket)
      → All (IsParty P t id) (in_room (Room.conversation id) sockets)
        × All (λ r. r.user_id ≡ some user_id) (in_room (Room.personal user_id) sockets)
        × All (IsParty P t id) (typing_recipients s (Room.conversation id) sockets)
  unfolding typing_recipients
  GatewayRun-recipients {sockets} run id user_id s =
      let sound = GatewayRun-IsSound run in
      let parties =
        in_room-All (IsSound P t) (Room.conversation id) sockets (λ x i m. i.conversations id m)
          sound in
      (
        parties,
        in_room-All (IsSound P t) (Room.personal user_id) sockets (λ x i m. i.personal user_id m)
            sound,
        elim (Bool-cases (includes s.rooms (Room.conversation id))) [
          | inl y ↦ rw y (
              without_socket-All (IsParty P t id) s.id (in_room (Room.conversation id) sockets)
                parties)
          | inr n ↦ rw n tt
        ],
      )
