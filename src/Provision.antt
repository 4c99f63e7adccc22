-- ===== src/Provision.antt =====
-- The provisioning over Bluetooth. The Bluetooth host runs on the coprocessor, or on the multimedia side with the option
-- CONFIG_BLUETOOTH_HOST_ONLY, which the configuration of every project of the repository selects; the option is an argument.
-- Without it projects/doorbell/cp/doorbell_service/doorbell_core.c packs what the app writes,
-- customer_msg/customer_msg.c beside it sends it to the multimedia side, and there
-- components/smart_lock/src/bk_smart_config.c and doorbell_boarding.c take it apart. With it doorbell_boarding.c takes what the
-- service of the SDK has stored, and its message is handled in doorbell_core.c there. In both doorbell_network.c sets up the station.
-- Limits and results of the SDK are arguments, and `data_at` is the memory from a pointer on.
pub mod Station
mod Tests
use bk_solution_doorbell.Base.{
  ℕ, zero, suc, ◌+◌, ◌*◌, ◌%◌, Bool, true, false, Option, none, some, List, [], ◌∷◌, ◌++◌, length,
  ltb, ◌==◌, if◌then◌else◌,
}
use bk_solution_doorbell.Message.{put16}

-- `boarding_opcode_t` as far as the coprocessor tells its values apart.
pub data CpOp : Type 0 where
  station_start soft_ap_start set_wifi_channel ble_disable other_op : CpOp

abbrev pub op_of : ℕ → CpOp
op_of n =
    if n == 1
    then station_start
    else if n == 2
    then soft_ap_start
    else if n == 11
    then set_wifi_channel
    else if n == 10
    then ble_disable
    else other_op

-- `doorbell_boarding_info_t`: what the app has written, and the channel.
pub record BoardingInfo : Type 0 where
  pub ssid_value : List ℕ
  pub password_value : List ℕ
  pub channel : ℕ

-- SSID and password with their lengths.
abbrev pub credentials : BoardingInfo → List ℕ
credentials i =
    put16 (length i.ssid_value)
    ++ (i.ssid_value ++ (put16 (length i.password_value) ++ i.password_value))

-- The opcode and the length of the bytes, and they, while all together have less than 65536 bytes: `cmd_len` has 16
-- bits.
abbrev pub framed : (opcode : ℕ) → List ℕ → List ℕ
framed opcode bytes = put16 opcode ++ (put16 (length bytes) ++ bytes)

-- The messages that doorbell_boarding_operation_handle of the coprocessor posts.
pub data CpMsg : Type 0 where
  data_to_user data_to_apk : List ℕ → CpMsg
  close_bluetooth exit : CpMsg

-- doorbell_boarding_operation_handle of the coprocessor: the new channel, and the message. `word` is what
-- STREAM_TO_UINT16 reads where the data starts.
unfoldable pub cp_operation_handle :
    (opcode : ℕ) (bytes : List ℕ) (word : ℕ) (alloc : Bool)
    → BoardingInfo
    → BoardingInfo × Option CpMsg
cp_operation_handle opcode bytes word alloc i = elim (op_of opcode) [
  | station_start ↦ (i, if alloc then some (data_to_user (framed opcode (credentials i))) else none)
  | soft_ap_start ↦ (
    i,
    if alloc then some (data_to_user (framed opcode (credentials i ++ put16 i.channel))) else none,
  )
  | set_wifi_channel ↦ (record i { channel = word }, none)
  | ble_disable ↦ (i, some close_bluetooth)
  | other_op ↦ (i, if alloc then some (data_to_user (framed opcode bytes)) else none)
]

pub data CpEffect : Type 0 where
  send_event : List ℕ → CpEffect
  boarding_notify : List ℕ → CpEffect
  bluetooth_deinit : CpEffect

-- cifd_send_cust_event, which refuses more than MAX_CIFD_CUST_SIZE bytes.
unfoldable pub send_cust_event : (max_size : ℕ) → List ℕ → List CpEffect
send_cust_event max_size bytes = if ltb max_size (length bytes) then [] else send_event bytes ∷ []

-- One message of the coprocessor's doorbell_message_handle; `false` leaves the loop.
unfoldable pub cp_message_handle : (max_size : ℕ) → CpMsg → Bool × List CpEffect
unfolding send_cust_event
cp_message_handle max_size (data_to_user []) = (true, [])
cp_message_handle max_size (data_to_user (b ∷ bs)) = (true, send_cust_event max_size (b ∷ bs))
cp_message_handle max_size (data_to_apk []) = (true, [])
cp_message_handle max_size (data_to_apk (b ∷ bs)) = (true, boarding_notify (b ∷ bs) ∷ [])
cp_message_handle max_size close_bluetooth = (true, bluetooth_deinit ∷ [])
cp_message_handle max_size exit = (false, [])

-- A 16-bit number at a position of the memory, and some bytes.
abbrev pub word_at : (ℕ → ℕ) → ℕ → ℕ
word_at data_at p = data_at p % 256 + 256 * (data_at (p + 1) % 256)

abbrev pub bytes_at : (ℕ → ℕ) → ℕ → (n : ℕ) → List ℕ
bytes_at data_at p zero = []
bytes_at data_at p (suc n) = (data_at p % 256) ∷ bytes_at data_at (p + 1) n

-- A C string: the bytes before the first zero.
abbrev pub string : List ℕ → List ℕ
string [] = []
string (b ∷ bs) = if b == 0 then [] else b ∷ string bs

-- What the multimedia side does when the station is to be set up.
pub data ApEffect : Type 0 where
  save_wifi_info : BoardingInfo → ApEffect
  post_station_connect : ApEffect
  sta_connect : (ssid key : List ℕ) → ApEffect

-- The fields that are read from the data without the option. A field that reaches its limit is taken for empty.
unfoldable pub station_fields : (ssid_max password_max : ℕ) → (ℕ → ℕ) → (at : ℕ) → List ℕ × List ℕ
station_fields ssid_max password_max data_at at =
    let ssid_len = word_at data_at at in
    let pw_start = at + 2 + ssid_len in
    let password_len = word_at data_at pw_start in
    (
      if ltb ssid_len ssid_max then bytes_at data_at (at + 2) ssid_len else [],
      if ltb password_len password_max then bytes_at data_at (pw_start + 2) password_len else [],
    )

-- The case BOARDING_OP_STATION_START of doorbell_boarding_operation_handle on the multimedia side; `i` is its
-- `doorbell_boarding_info`.
unfoldable pub boarding_station_start :
    (host_only : Bool) (ssid_max password_max : ℕ)
    → BoardingInfo
    → (ℕ → ℕ)
    → (at : ℕ) → List ApEffect
unfolding station_fields
boarding_station_start host_only ssid_max password_max i data_at at =
    let (ssid, password) = station_fields ssid_max password_max data_at at in
    if host_only
    then save_wifi_info i ∷ post_station_connect ∷ []
    else sta_connect ssid password ∷ []

-- doorbell_wifi_sta_connect: the configuration of the station. Both tests look at the key.
unfoldable pub wifi_sta_connect : (ssid key : List ℕ) → Option (List ℕ × List ℕ)
wifi_sta_connect ssid key =
    let len = length (string key) in
    if ltb 32 len then none else if ltb 64 len then none else some (string ssid, string key)

-- bk_rx_handle_customer_event with CIFD_EVENT_BLE_DATA_TO_USER, for the opcode that sets up the station:
-- opcode and length are read from the start of the memory.
unfoldable pub rx_station :
    (host_only : Bool) (ssid_max password_max : ℕ) → BoardingInfo → (ℕ → ℕ) → List ApEffect
unfolding boarding_station_start
rx_station host_only ssid_max password_max i data_at =
    if word_at data_at 0 == 1
    then boarding_station_start host_only ssid_max password_max i data_at 4
    else []

-- The configuration of the station after these effects. The message is DBEVT_WIFI_STATION_CONNECT, whose case in
-- doorbell_message_handle of the multimedia side connects with the bytes from the pointers `ssid_value` and `password_value` on.
unfoldable pub configured :
    (ssid_text password_text : List ℕ) → List ApEffect → Option (List ℕ × List ℕ)
unfolding wifi_sta_connect
configured ssid_text password_text [] = none
configured ssid_text password_text (save_wifi_info i ∷ es) = configured ssid_text password_text es
configured ssid_text password_text (post_station_connect ∷ es) =
    wifi_sta_connect ssid_text password_text
configured ssid_text password_text (sta_connect ssid key ∷ es) = wifi_sta_connect ssid key
