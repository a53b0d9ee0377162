-- ===== src/Handlers/Logon.antt =====
-- src/routing/events/handlers/logon_handler.cpp.
use steam_min_cpp.Prelude.{some, ◌==◌, if◌then◌else◌}
use steam_min_cpp.Events.{Event, client_logon_event, succeeded, fail}
use steam_min_cpp.Externals.{Externals}
use steam_min_cpp.Session.{Step, emit}
use steam_min_cpp.Packet.{PacketClientMsgProtobuf}
use steam_min_cpp.Message.{MsgProto, of_packet_proto}
use steam_min_cpp.Enums.EResult

module _ (x : Externals) where
  -- The event that is made of the message.
  unfoldable pub logon_event : MsgProto (x.header.class) (x.logon_response.class) → Event
  unfolding succeeded fail
  logon_event msg =
      client_logon_event
        (if x.logon_response.eresult msg.body == EResult.ok
          then succeeded
          else fail "Client login failed; incorrect information?")
        (some (record {
          steamid = x.logon_response.client_supplied_steamid msg.body;
          client_sessionid = x.header.client_sessionid msg.header.proto;
        }))

  unfoldable pub handle_logon_response : PacketClientMsgProtobuf (x.header.class) → Step (Unit {0})
  unfolding emit logon_event of_packet_proto
  handle_logon_response packet =
      emit (logon_event (of_packet_proto (x.header.class) (x.logon_response.class) packet))
