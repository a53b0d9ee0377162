-- ===== src/Handlers/ProductInfo.antt =====
-- src/routing/events/handlers/product_info_handler.cpp: the answer with information on products.
use steam_min_cpp.Events.{product_info_result}
use steam_min_cpp.Externals.{Externals}
use steam_min_cpp.Session.{Step, ◌>>=◌, lift, emit}
use steam_min_cpp.Packet.{PacketClientMsgProtobuf}
use steam_min_cpp.Message.{of_packet_proto}
use steam_min_cpp.Handlers.Products.{each, parse_app, parse_pkg}

module _ (x : Externals) where
  unfoldable pub handle_prod_info_response :
      PacketClientMsgProtobuf (x.header.class) → Step (Unit {0})
  unfolding ◌>>=◌ lift emit each parse_app parse_pkg of_packet_proto
  handle_prod_info_response packet = do
    let msg = of_packet_proto (x.header.class) (x.product_info_response.class) packet
    apps ← lift (each parse_app (x.product_info_response.apps msg.body))
    packages ← lift (each parse_pkg (x.product_info_response.packages msg.body))
    emit (product_info_result apps packages)
