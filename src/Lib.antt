-- ===== src/Lib.antt =====
-- Verification of the CC32xx connection code: the Wi-Fi device, the Wi-Fi connection manager, and the
-- parts of the SimpleLink host driver and of the network device layer below and beside them.
--
-- The program. slwificonn.c is a state machine in a thread of its own (SlWifiConn_process). Its
-- API, the SimpleLink event handlers and a timer send it events through a queue; while the network
-- processor provisions, commands wait in a second queue until provisioning has stopped. It calls
-- the SimpleLink API, which runs through driver.c: a command takes the global lock, a command that
-- waits for an event takes an action object, a data command also takes packets from a pool, and
-- spawn.c runs the task that serves the interrupts of the network processor.
-- drivers/network/netdevice.c keeps the table of network devices, the listeners of their events
-- and the TLS certificate. drivers/network/wlan/cc3220sf/cc3220sf.c is the Wi-Fi device in that
-- table: its exec operation runs a second state machine, which enables and disables the connection
-- manager and waits for the events that its handlers queue. cc3220sf.c and slwificonn.c are modelled
-- apart: to each, the other is a module that it calls, or is called by.
--
-- The files.
--   Prelude     shared names: Boolean tests, lists on native numbers, signed return codes.
--   SlWifiConn  slwificonn.c and slwificonn.h. Types has the states, events and globals; Effects
--               has the way a function runs, the queues, the timer and the notifications; Nwp has
--               ResetNWP, SetRole and the policies; Deferred, Stats and Profile have the deferred
--               queue, CollectAndNotifyStats and the saved profile; Enter and States have the
--               Enter functions and the smState functions; Machine has ProcessEvent and the
--               thread; Handlers has the SimpleLink and timer handlers; Api, AddProfile and Init
--               have the SlWifiConn functions. Moves lists what the threads may do; Diagram is an
--               independent description of the transitions. Sample and Tests have runs, and the
--               other files are proofs.
--   Driver      driver.c: GlobalLock has _SlDrvObjGlobalLockWaitForever and what it calls,
--               FlowControl the flow control of _SlDrvDataReadOp and _SlDrvDataWriteOp, DataOps the
--               two as a whole, Fresh and Recycled where the first leaves its object, Init, Pool
--               and Release the action pool with _SlDrvWaitForPoolObj, _SlDrvReleasePoolObj and
--               _SlDrvRemoveFromList, Waited what follows the wait, Lookup
--               _SlDrvFindAndSetActiveObj. Chains, Removed and Erased have the lemmas on linked
--               lists. MsgWrite has _SlDrvMsgWrite, Commands _SlDrvCmdOp, _SlDrvMsgReadCmdCtx and
--               _SlDrvHandleFatalError, SpawnRead _SlDrvMsgReadSpawnCtx and the waits. Answered
--               follows a command to its response. Merged has the lemmas for Message. RxHeader has
--               _SlDrvRxHdrRead, Classify _SlDrvClassifyRxMsg, Payload the reads behind a header,
--               and RxState and MsgRead _SlDrvMsgRead on top of them; Framing, Received, Responded
--               and Stream are about what it takes from the stream. Generic has
--               _SlDrvAsyncEventGenericHandler, SpawnList the list of stored events, SpawnPool the
--               entries that take its place without dynamic memory, Dispatch the functions that
--               pass events to libraries and application, Timeout the timeouts and _SlDrvSleep,
--               ReleaseAll _SlDrvReleaseAllActivePendingPoolObj, ControlBlock the objects that
--               _SlDrvDriverCBInit creates, and CmdSend the commands without a response, the
--               interrupt handler and _SlDrvProtectAsyncRespSetting.
--   Spawn       spawn.c: the interrupt counters and the loop of the spawn task.
--   Cc3220sf    drivers/network/wlan/cc3220sf/cc3220sf.c: Types has the states, events and status bits
--               and the descriptor; Run the way a function runs; Events recv_event; States and
--               Serving the sm functions; Ops exec, ioctl and the queries; Start probe and start;
--               Handlers the SimpleLink, connection manager and update handlers. Moves lists what
--               the threads may do, Diagram is an independent description of the transitions. After,
--               Served, Steps and Quiet have the lemmas for Reach; Timeouts those for Recovery.
--   Network     drivers/network/netdevice.c and network.c: Listeners has the listeners
--               and the look-up of a device, Device the operations of a device and its main
--               thread, Worker the loop of a worker thread, Startup network_dev_init, _start and
--               _stop, Certificate the certificate. WlanDevice fills the operations with those of
--               Cc3220sf; ThreadLaws is what the main thread asks of a device.
--
-- How it is modelled. A C function is a function on the globals. In slwificonn.c it returns a
-- value and new globals, fails an assertion, or waits for ever in mq_send on a full queue. Every
-- call that leaves the module is recorded in the globals, and the record Sdk, a parameter, says
-- what it returns, dependent on all calls before it; the constants of the SDK's headers are its
-- fields. The record Host does the same for cc3220sf.c, whose functions return, wait, or wait for a
-- reset that they asked for; it also says which events come in while the thread sleeps, and a status
-- word is a record of its bits. Unsigned fields wrap around. A malloc that fails is a result of the
-- Sdk.
--
-- Bounds. The event queue holds 10 events and the deferred queue 3, as SlWifiConn_init opens them.
-- The loop over the deferred queue recurs on the queue. The queue of the Wi-Fi device holds 10
-- events, and that of its requests one; the loop of its stop recurs on its ten passes. The loop of
-- the spawn task has fuel 256, which is enough since its two counters are of 8 bits. The loop of
-- _SlDrvDataWriteOp recurs on the list of what its passes read. The loops of the action pool have
-- fuel MAX_CONCURRENT_ACTIONS, which is enough for a list of the pool, since the lists share no
-- object. The reads of a message recur on the bytes that arrive, and wait where these end; the
-- loops over the timestamps and over the stored events recur on what their rounds meet.
--
-- Not modelled. Debug prints; the release of memory and of operating system objects, Deinit's list
-- of calls apart; other threads inside a function of slwificonn.c, which holds the module's lock,
-- but for the time of a callback to the network interface or the application, when it releases it;
-- the macros of driver.h and the rest of the SDK, which are parameters. WIFI_STATS is taken as
-- defined. driver.c is taken as built for several threads, with dynamic memory (but for SpawnPool),
-- timestamps and an SPI interface; the assertions of _SlDrvMsgRead and _SlDrvMsgWrite are left out,
-- that TxDescLen is aligned among them. Of netdevice.c the creation of tasks is not modelled. Of
-- cc3220sf.c the log and the handlers that only log are left out. Its mq_open is taken to heed the
-- O_NONBLOCK that it is given in mq_flags, so that a full queue of events drops the event; what
-- mq_receive delivers of a request whose pointer mq_send takes with the length 1 is a parameter;
-- and a read of a spare register gives what was written, though ocp-shared-registers.md reports
-- faults.
pub mod Prelude
pub mod SlWifiConn
pub mod Driver
pub mod Spawn
pub mod Network
pub mod Cc3220sf
