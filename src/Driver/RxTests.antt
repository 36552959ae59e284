-- ===== src/Driver/RxTests.antt =====
-- driver.c, runs of the model of the messages that arrive, and of the driver's start and stop.
use tisdk_cc32xx_issues.Prelude.{
  ℕ, ◌+◌, true, false, ◌&&◌, List, [], ◌∷◌, ◌++◌, none, some, pos, get_or, leb, ◌==◌, ◌≡◌, ◌≤◌,
  refl, arith, if◌then◌else◌,
}
use tisdk_cc32xx_issues.Driver.Pool.{PoolLimits, Pool}
use tisdk_cc32xx_issues.Driver.Lookup.{
  find_active_obj, find_loop, is_receiving, is_expecting, opcode_for,
}
use tisdk_cc32xx_issues.Driver.RxHeader.{word, bytes_of, Sync, hdr_read, find_shift, rx_hdr_read}
use tisdk_cc32xx_issues.Driver.RxSync.{IsNext, is_clean, starts_pattern, rx_hdr_read-header}
use tisdk_cc32xx_issues.Driver.RxLate.{is_read, rx_hdr_read-late}
use tisdk_cc32xx_issues.Driver.Classify.{cmd_resp_class, classify_rx_msg}
use tisdk_cc32xx_issues.Driver.Payloads.{padded}
use tisdk_cc32xx_issues.Driver.AsyncPayload.{IsAligned}
use tisdk_cc32xx_issues.Driver.RxState.{MsgParams, Rx, completed}
use tisdk_cc32xx_issues.Driver.MsgRead.{msg_read}
use tisdk_cc32xx_issues.Driver.Stream.{event, ends, read_events, read_events-IsStream}
use tisdk_cc32xx_issues.Driver.Responded.{msg_read-response}
use tisdk_cc32xx_issues.Driver.Received.{msg_read-packet}
use tisdk_cc32xx_issues.Driver.Timeout.{sleep}
use tisdk_cc32xx_issues.Driver.Slept.{sleep_bounds}
use tisdk_cc32xx_issues.Driver.SpawnList.{Item, SpawnList, Round, process_loop}
use tisdk_cc32xx_issues.Driver.Fifo.{Ordered, process_loop-order}
use tisdk_cc32xx_issues.Driver.ControlBlock.{
  Objects, Ends, ◌>>◌, driver_cb_init, driver_cb_deinit, driver_cb_deinit-driver_cb_init,
}

abbrev sync : Sync
sync = record {
  is_match = λ seq w. (w.b0 == 171) && (w.b3 == seq);
  seq_values = 256;
  spec_size = 4;
  is_expired = λ n. false;
}

abbrev limits : PoolLimits
limits = record {
  max_actions = 4;
  max_sockets = 16;
  select_id = 30;
  multi_select = λ j. j == 20;
  socket_id = λ d. d;
}

-- An object receives from socket 3, and the others are free.
abbrev pool : Pool
pool = record {
  objs = λ j. record {
    next_index = if j == 0 then 4 else j + 1;
    action_id = if j == 0 then 9 else 0;
    additional_data = if j == 0 then 3 else 16;
    has_resp_args = j == 0;
    signaled = false;
  };
  free_pool_idx = 1;
  active_pool_idx = 0;
  pending_pool_idx = 4;
  active_bits = λ j. j == 3;
  protected = false;
  num_of_deleted_sync_obj = 0;
  api_in_progress_cnt = pos 1;
}

abbrev params : MsgParams
params = record {
  sync = sync;
  header = record {
    opcode = λ hdr. get_or hdr 0 0;
    payload_len = λ hdr. get_or hdr 2 0;
    tx_pool_cnt = λ hdr. get_or hdr 4 0;
    min_max_payload = λ hdr. get_or hdr 5 0;
    dev_status = λ hdr. get_or hdr 6 0;
  };
  opcodes = record {
    is_sync = λ o. leb 128 o;
    silo_offset = 4;
    dummy = 1;
    recv = 33;
    recv_from = 34;
    recv_from_v6 = 35;
    http_get_token = 48;
    http_post_token = 49;
    net_app_request = 50;
    net_app_response = 51;
    net_app_send = 52;
    ping_report = 53;
    select_response = 160;
    select = 161;
  };
  build = record { wlan = true; sock = true; net_app = true; multi_select = true };
  sockets = record {
    is_socket_response = λ o. o == 36;
    socket_event = 37;
    response_sd = λ payload. get_or payload 0 0;
    event_sd = λ payload. get_or payload 0 0;
    recv_args_size = 4;
    args_size = λ o. if o == 33 then 4 else 8;
    args_sd = λ args. get_or args 0 0;
    args_len = λ args. pos (get_or args 2 0);
  };
  async = record { align = λ n. padded n; max_payload = 4; hdr_size = 8 };
  limits = limits;
  actions = record {
    recv_id = 9;
    has_family = λ d. false;
    without_ipv6 = λ c. c;
    is_recv_opcode = λ c. c == 33;
    async_opcode = λ a. a + 200;
  };
  flow_cont_min = 1;
  malloc_ok = true;
  cmd_opcode = 140;
  rx_desc_len = 4;
  room = none;
}

-- Two equal words, two more bytes of garbage, the pattern, a header with an opcode and a length of 5,
-- and the rest
abbrev stream : ℕ → ℕ → List ℕ → List ℕ
stream seq opcode body =
    bytes_of (word 7 7 7 7)
    ++ (bytes_of (word 7 7 7 7)
        ++ (7 ∷ 9 ∷ 171 ∷ 1 ∷ 2 ∷ seq ∷ opcode ∷ 0 ∷ 5 ∷ 0 ∷ 2 ∷ 3 ∷ 4 ∷ 6 ∷ body))

abbrev hdr : ℕ → List ℕ
hdr opcode = opcode ∷ 0 ∷ 5 ∷ 0 ∷ 2 ∷ 3 ∷ 4 ∷ 6 ∷ []

stream-IsNext :
    (seq opcode : ℕ) (body : List ℕ)
    → (opcode == 171) ≡ false
    → IsNext sync seq (stream seq opcode body) (hdr opcode) body
unfolding is_clean starts_pattern
stream-IsNext seq opcode body h = record {
  repeats = 1;
  first = word 7 7 7 7;
  second = word 7 9 171 1;
  pattern = word 171 1 2 seq;
  generic = word opcode 0 5 0;
  garbage = 7 ∷ 7 ∷ 7 ∷ 7 ∷ 7 ∷ 9 ∷ [];
  spec = 2 ∷ 3 ∷ 4 ∷ 6 ∷ [];
  others = 2 ∷ seq ∷ opcode ∷ 0 ∷ 5 ∷ 0 ∷ 2 ∷ 3 ∷ 4 ∷ 6 ∷ body;
  in_time = λ n. refl;
  differ = refl;
  same = refl;
  clean = refl;
  matches = ground arith;
  no_match = rw h;
  size = refl;
  whole = refl;
  header = refl;
}

abbrev rx : List ℕ → Rx
rx input = record {
  input = input;
  tx_seq_num = 0;
  tx_pool_cnt = 0;
  min_tx_payload = 0;
  tx_signaled = false;
  dev_status = 0;
  rx_msg_class = cmd_resp_class;
  handler = none;
  action_index = 0;
  pool = pool;
  async_buf = none;
  async_len = 0;
  desc = [];
  response = none;
  deliveries = [];
  select = record { active = false; entries = λ j. false; ctrl_sock = 255 };
  unmasked = 0;
}

rx_hdr_read-header_example :
    rx_hdr_read sync 0 (stream 0 16 (99 ∷ [])) ≡ hdr_read (hdr 16) 1 (99 ∷ [])
rx_hdr_read-header_example =
    rx_hdr_read-header sync 0 (stream 0 16 (99 ∷ [])) (hdr 16) (99 ∷ [])
      (stream-IsNext 0 16 (99 ∷ []) refl)

-- The clock has expired at once, and the pattern is in the second round.
rx_hdr_read-late_example :
    is_read (
      rx_hdr_read
        (record sync { is_expired = λ n. true })
        0
        (bytes_of (word 7 7 7 7)
          ++ bytes_of (word 7 7 7 8)
          ++ bytes_of (word 171 1 2 0)
          ++ (16 ∷ 0 ∷ 0 ∷ 0 ∷ 2 ∷ 3 ∷ 4 ∷ 6 ∷ [])))
    ≡ false
unfolding find_shift
rx_hdr_read-late_example =
    rx_hdr_read-late (record sync { is_expired = λ n. true }) 0 (word 7 7 7 7) (word 7 7 7 8)
      (word 171 1 2 0) (16 ∷ 0 ∷ 0 ∷ 0 ∷ 2 ∷ 3 ∷ 4 ∷ 6 ∷ []) refl refl refl

abbrev payload : List ℕ
payload = 1 ∷ 2 ∷ 3 ∷ 4 ∷ 5 ∷ 6 ∷ 7 ∷ 8 ∷ []

params-IsAligned : IsAligned params.async
params-IsAligned = record { aligns = λ n. refl; whole = refl; fits = omega arith }

-- Two events, each with garbage in front of it
abbrev two_events : List ℕ
two_events = stream 0 16 (payload ++ stream 1 17 (payload ++ 99 ∷ []))

read_events-IsStream_example :
    read_events params 4
      (λ _. true)
      (some (hdr 16 ++ 1 ∷ 2 ∷ 3 ∷ 4 ∷ []) ∷ some (hdr 17 ++ 1 ∷ 2 ∷ 3 ∷ 4 ∷ []) ∷ [])
      (rx two_events)
    ≡ some (some (hdr 16 ++ 1 ∷ 2 ∷ 3 ∷ 4 ∷ []) ∷ some (hdr 17 ++ 1 ∷ 2 ∷ 3 ∷ 4 ∷ []) ∷ [], 99 ∷ [])
unfolding classify_rx_msg
read_events-IsStream_example =
    read_events-IsStream params 4 (λ _. true) (99 ∷ []) params-IsAligned refl
      (event 0 two_events (hdr 16) payload (stream 1 17 (payload ++ 99 ∷ []))
        (some (hdr 17 ++ 1 ∷ 2 ∷ 3 ∷ 4 ∷ []) ∷ [])
        (stream-IsNext 0 16 (payload ++ stream 1 17 (payload ++ 99 ∷ [])) refl) refl (omega arith)
        refl
        (event 1 (stream 1 17 (payload ++ 99 ∷ [])) (hdr 17) payload (99 ∷ []) []
          (stream-IsNext 1 17 (payload ++ 99 ∷ []) refl) refl (omega arith) refl (ends 2)))
      (rx two_events) refl refl

-- A command whose response has 9 bytes of payload, and room for 5: the last word stays in the stream.
abbrev cmd_params : MsgParams
cmd_params = record params {
  room = some 5;
  header = record (params.header) { payload_len = λ h. 13 };
}

abbrev response : List ℕ
response = 50 ∷ 51 ∷ 52 ∷ 53 ∷ (payload ++ 9 ∷ 0 ∷ 0 ∷ 0 ∷ 77 ∷ [])

msg_read-response_example :
    (t : Rx) × (msg_read cmd_params 4 (λ _. true) (rx (stream 0 140 response)) ≡ completed t)
    × (t.input ≡ 9 ∷ 0 ∷ 0 ∷ 0 ∷ 77 ∷ [])
    × (t.desc ≡ 50 ∷ 51 ∷ 52 ∷ 53 ∷ [])
    × (t.response ≡ some (record { received = 1 ∷ 2 ∷ 3 ∷ 4 ∷ 5 ∷ []; room = 5; actual = pos 9 }))
unfolding classify_rx_msg
msg_read-response_example =
    msg_read-response cmd_params 4 (λ _. true) (rx (stream 0 140 response)) 5 9 (hdr 140)
      (50 ∷ 51 ∷ 52 ∷ 53 ∷ []) (payload ++ 9 ∷ 0 ∷ 0 ∷ 0 ∷ []) (77 ∷ [])
      (stream-IsNext 0 140 response refl) refl refl (omega arith) refl refl (omega arith)
      (omega arith) (omega arith) refl

msg_read-packet_example :
    (t : Rx) × (msg_read params 4
        (λ _. true)
        (rx (stream 0 33 (3 ∷ 0 ∷ 6 ∷ 0 ∷ (payload ++ 99 ∷ []))))
      ≡ completed t)
    × (t.input ≡ 99 ∷ [])
    × (t.deliveries
        ≡ record { obj = 0; args = 3 ∷ 0 ∷ 6 ∷ 0 ∷ []; content = 1 ∷ 2 ∷ 3 ∷ 4 ∷ 5 ∷ 6 ∷ [] } ∷ [])
    × ((t.pool.objs 0).signaled ≡ true)
unfolding classify_rx_msg find_active_obj find_loop is_receiving is_expecting opcode_for
msg_read-packet_example =
    msg_read-packet params 4 (λ _. true) (rx (stream 0 33 (3 ∷ 0 ∷ 6 ∷ 0 ∷ (payload ++ 99 ∷ [])))) 0
      6 (hdr 33) (3 ∷ 0 ∷ 6 ∷ 0 ∷ []) [] payload (99 ∷ [])
      (stream-IsNext 0 33 (3 ∷ 0 ∷ 6 ∷ 0 ∷ (payload ++ 99 ∷ [])) refl) refl refl refl refl refl refl

sleep_bounds_example :
    (now : ℕ) × (sleep
        (record { ticks_in_unit = 10; max_value = 4294967295 })
        30
        100
        (105 ∷ 120 ∷ 133 ∷ 150 ∷ [])
      ≡ some now)
    × (130 ≤ now)
sleep_bounds_example =
    sleep_bounds (record { ticks_in_unit = 10; max_value = 4294967295 }) 30 100
      (105 ∷ 120 ∷ 133 ∷ 150 ∷ []) (omega arith) refl refl

abbrev item : ℕ → Item
item n = record { action_index = n; handler = none; buffer = n ∷ [] }

abbrev stored : SpawnList
stored = record { items = item 1 ∷ item 2 ∷ []; action_index = 0; handler = none; handled = [] }

abbrev rounds : List Round
rounds =
    record { lock_ok = true; arrivals = item 3 ∷ [] }
    ∷ record { lock_ok = true; arrivals = [] }
    ∷ []

process_loop-order_example : Ordered rounds stored stored.items (process_loop rounds stored)
process_loop-order_example = process_loop-order rounds stored

abbrev no_objects : Objects
no_objects = record {
  cmd_sync = 0;
  protection_lock = 0;
  pool_sync = 0;
  tx_lock = 0;
  tx_sync = 0;
  select_lock = 0;
  select_sync = 0;
  global_lock = false;
  has_cb = false;
  os_calls = 0;
}

driver_cb_deinit-driver_cb_init_example :
    Ends
      (λ s.
        (s.cmd_sync ≡ 0)
        × (s.protection_lock ≡ 0)
        × (s.tx_lock ≡ 0)
        × (s.tx_sync ≡ 0)
        × (s.select_lock ≡ 0)
        × (s.select_sync ≡ 0)
        × (s.pool_sync ≡ 0 + 4)
        × (s.global_lock ≡ true)
        × (s.has_cb ≡ false))
      ((driver_cb_init (λ _. true) 4 true >> driver_cb_deinit (λ _. true) true) no_objects)
driver_cb_deinit-driver_cb_init_example = driver_cb_deinit-driver_cb_init 4 true no_objects
