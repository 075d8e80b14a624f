-- ===== src/Examples/Requests.antt =====
-- Requests across sites, and the sockets of the chat.
use gp_connect_server.Common.{◌≡◌, refl, some, none, true, false, [], ◌∷◌, ◌↔◌, Option, ℕ}
use gp_connect_server.Prisma.InMemory.{in_memory}
use gp_connect_server.Handler.{ok}
use gp_connect_server.Csrf.{CsrfRequest, csrf_guard}
use gp_connect_server.Csrf.Trust.{IsAmbient, ComesFrom, csrf_guard_iff}
use gp_connect_server.Gateway.{
  Room, Socket, Handshake, Text, cookie_token, handle_connection, handle_join, in_room,
  typing_recipients, trim, trim_start, trim_end,
}
use gp_connect_server.Gateway.Cookies.{
  Cookie, IsCookie, header, session_cookie, cookie_token-header,
}
use gp_connect_server.Gateway.Rooms.{All, IsParty, GatewayRun, GatewayStep, GatewayRun-recipients}
use gp_connect_server.Examples.Data.{negotiation}

-- A deletion that a foreign page makes a browser send.
abbrev forged : CsrfRequest
forged = record {
  is_http = true;
  method = "DELETE";
  skip_csrf = false;
  authorization = none;
  cookie_at = some "token";
  cookie_rt = none;
  origin = some "https://evil.example";
  referer = none;
}

csrf_guard_iff_example :
    (csrf_guard some "https://gp.example" forged ≡ ok true)
    ↔ (IsAmbient forged → ComesFrom some "https://gp.example" forged)
csrf_guard_iff_example = csrf_guard_iff some "https://gp.example" forged

-- `lang=fr; at=x`
abbrev lang : Cookie
lang = record { name = 108 ∷ 97 ∷ 110 ∷ 103 ∷ []; value = 102 ∷ 114 ∷ [] }

abbrev access : Cookie
access = record { name = 97 ∷ 116 ∷ []; value = 120 ∷ [] }

lang-IsCookie : IsCookie lang
unfolding trim trim_start trim_end
lang-IsCookie = record { one_part = refl; plain_name = refl; trimmed = refl }

access-IsCookie : IsCookie access
unfolding trim trim_start trim_end
access-IsCookie = record { one_part = refl; plain_name = refl; trimmed = refl }

cookie_token-header_example :
    cookie_token (header lang (access ∷ [])) ≡ session_cookie (lang ∷ access ∷ [])
cookie_token-header_example =
    cookie_token-header lang (access ∷ []) lang-IsCookie (access-IsCookie, tt)

session_cookie_found : session_cookie (lang ∷ access ∷ []) ≡ some (120 ∷ [])
unfolding session_cookie
session_cookie_found = refl

-- The shipper connects with a token that is the letter x, and joins the conversation 30.
abbrev verify_token : Text → Option ℕ
verify_token t = some 1

abbrev by_token : Handshake
by_token = record {
  cookie = none;
  auth_token = some (120 ∷ []);
  authorization = none;
  origin = none;
}

GatewayRun-recipients_example :
    let t = negotiation.conversations in
    let sockets =
      handle_join in_memory t 5
        (Room.conversation 30)
        (handle_connection verify_token [] 5 by_token []) in
    let s : Socket = record { id = 5; user_id = some 1; rooms = [] } in
    All (IsParty in_memory t 30) (in_room (Room.conversation 30) sockets)
    × All (λ r. r.user_id ≡ some 1) (in_room (Room.personal 1) sockets)
    × All (IsParty in_memory t 30) (typing_recipients s (Room.conversation 30) sockets)
GatewayRun-recipients_example =
    GatewayRun-recipients in_memory negotiation.conversations
      (GatewayRun.next
        (GatewayRun.next GatewayRun.empty (GatewayStep.connect verify_token [] 5 by_token []))
        (GatewayStep.join 5 (Room.conversation 30)
          (handle_connection verify_token [] 5 by_token [])))
      30 1 (record { id = 5; user_id = some 1; rooms = [] })
