-- ===== src/Examples/Contacts.antt =====
-- Blocks, conversations and messages.
use gp_connect_server.Common.{◌≡◌, refl, none, some, [], ◌∷◌, inl}
use gp_connect_server.Schema.{Conversation, MessageType}
use gp_connect_server.Prisma.{World}
use gp_connect_server.Prisma.InMemory.{in_memory}
use gp_connect_server.Handler.{Exception, Reason, ok, err, create_many}
use gp_connect_server.Blocks.{block, is_blocked_between}
use gp_connect_server.Blocks.Laws.{block_row}
use gp_connect_server.Conversations.{
  CreateConversationDto, new_conversation, remove_for_user, create_conversation, store_conversation,
  connect_rows, build_mission_relation, assert_packages_owned_by, is_participant,
  assert_not_blocked, assert_offer_allowed,
}
use gp_connect_server.Conversations.Laws.{remove_for_user-engaged}
use gp_connect_server.Messages.{
  OfferTerms, CreateMessageDto, new_message, create_message, store_message, touch_conversation,
  create_message_route, message_guards,
}
use gp_connect_server.Messages.Guards.{
  IsOffered, block-create_message_route, create_message_route-IsOffered,
}
use gp_connect_server.Examples.Data.{conversation, negotiation, engaged}

block-runs : (block 1 2 negotiation).0 ≡ ok (some (block_row 1 2))
unfolding block
block-runs = refl

abbrev blocked : World in_memory
blocked = record negotiation { blocks = block_row 1 2 ∷ [] }

abbrev greeting : CreateMessageDto
greeting = record {
  new_id = 41;
  content = some "hello";
  conversation_id = 30;
  type = MessageType.text;
  offer = none;
  appointment = none;
}

still-there :
    in_memory.conversation.find_unique 30 (block 1 2 negotiation).1.conversations
    ≡ some conversation
unfolding block
still-there = refl

block-create_message_route_example :
    let w' = (block 1 2 negotiation).1 in
    (create_message_route 5 1 greeting w'
      ≡ (err (Exception.forbidden Reason.interaction_unavailable), w'))
    × (create_message_route 5 2 greeting w'
        ≡ (err (Exception.forbidden Reason.interaction_unavailable), w'))
block-create_message_route_example =
    block-create_message_route 1 2 5 greeting negotiation conversation block-runs still-there
      (inl (refl, refl))

-- The conversation after the shipper had deleted it.
abbrev hidden : World in_memory
hidden = record negotiation {
  conversations = record conversation { shipper_deleted_at = some 3 } ∷ [];
}

greeting-runs : (create_message 5 1 greeting hidden).0 ≡ ok (new_message 5 1 greeting)
unfolding create_message store_message touch_conversation
greeting-runs = refl

abbrev proposal : CreateMessageDto
proposal = record greeting {
  type = MessageType.offer;
  offer = some (record { price = some 300; weight = some 4 });
}

proposal-runs : (create_message_route 5 1 proposal negotiation).0 ≡ ok (new_message 5 1 proposal)
unfolding create_message_route message_guards is_participant assert_not_blocked assert_offer_allowed
    is_blocked_between create_message store_message touch_conversation
proposal-runs = refl

create_message_route-IsOffered_example : IsOffered 5 1 proposal negotiation
create_message_route-IsOffered_example =
    create_message_route-IsOffered 5 1 proposal negotiation refl proposal-runs

abbrev raise : OfferTerms
raise = record { price = some 900; weight = none }

remove_for_user-engaged_example :
    let w' = (remove_for_user 6 30 2 engaged).1 in
    ((c' : Conversation) × (in_memory.conversation.find_unique 30 w'.conversations ≡ some c')
      × (c'.mission_id ≡ conversation.mission_id))
    × (w'.messages ≡ engaged.messages)
    × (w'.offers ≡ engaged.offers)
    × (w'.appointments ≡ engaged.appointments)
remove_for_user-engaged_example = remove_for_user-engaged 6 30 2 engaged conversation refl refl

-- The carrier, as a shipper, opens a conversation with the shipper.
abbrev opening : CreateConversationDto
opening = record {
  new_id = 33;
  new_mission_id = 23;
  advertisement_id = 10;
  shipper_id = 2;
  carrier_id = 1;
  mission_id = none;
  package_ids = [];
}

abbrev opening_again : CreateConversationDto
opening_again = record opening { new_id = 34; new_mission_id = 24 }

opening-runs : (create_conversation opening negotiation).0 ≡ ok (new_conversation opening 23)
unfolding create_conversation is_blocked_between assert_packages_owned_by store_conversation
    connect_rows build_mission_relation create_many
opening-runs = refl

opening_again-runs :
    (create_conversation opening_again (create_conversation opening negotiation).1).0
    ≡ ok (new_conversation opening 23)
unfolding create_conversation is_blocked_between assert_packages_owned_by store_conversation
    connect_rows build_mission_relation create_many
opening_again-runs = refl
