-- ===== src/Message.antt =====
-- components/smart_lock/include/doorbell_comm.h: the messages of the doorbell's queue and its services.
use bk_solution_doorbell.Base.{ℕ, ◌%◌, ◌/◌, List, [], ◌∷◌}

-- `dbevt_t`.
pub data Dbevt : Type 0 where
  wifi_station_connect wifi_station_connected wifi_station_disconnected : Dbevt
  p2p_cs2_service_start_request p2p_cs2_service_start_response : Dbevt
  lan_udp_service_start_request lan_udp_service_start_response : Dbevt
  lan_tcp_service_start_request lan_tcp_service_start_response : Dbevt
  wifi_soft_ap_turning_on : Dbevt
  remote_device_connected remote_device_disconnected : Dbevt
  start_wifi_station start_tcp_service start_boarding_event ble_disable sdp exit : Dbevt
  image_tcp_service_disconnected voice_event : Dbevt
  set_server_net_info lan_tcp_service_stop lan_udp_service_stop : Dbevt

-- `doorbell_service_t`.
pub data Service : Type 0 where
  service_none p2p_cs2 lan_udp lan_tcp : Service

-- Little-endian stores: the conversion macros of the headers are empty.
abbrev pub put16 : ℕ → List ℕ
put16 x = (x % 256) ∷ (x / 256 % 256) ∷ []

abbrev pub put32 : ℕ → List ℕ
put32 x = (x % 256) ∷ (x / 256 % 256) ∷ (x / 65536 % 256) ∷ (x / 16777216 % 256) ∷ []
