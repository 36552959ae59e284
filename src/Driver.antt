-- ===== src/Driver.antt =====
-- driver.c: the global lock that every command takes, and the flow control of the data commands.
pub mod GlobalLock
pub mod LockHeld
pub mod Pool
pub mod Release
pub mod MsgWrite
pub mod Merged
pub mod Message
pub mod Commands
pub mod Released
pub mod Answered
pub mod SpawnRead
pub mod Chains
pub mod Removed
pub mod Unlocked
pub mod Erased
pub mod Returned
pub mod Partition
pub mod Waited
pub mod Lookup
pub mod Expected
pub mod RxHeader
pub mod RxSync
pub mod RxLate
pub mod Payload
pub mod Payloads
pub mod AsyncPayload
pub mod Classify
pub mod RxState
pub mod MsgRead
pub mod Framing
pub mod Received
pub mod Stream
pub mod Responded
pub mod Dispatch
pub mod Timeout
pub mod Slept
pub mod Generic
pub mod SpawnList
pub mod Fifo
pub mod SpawnPool
pub mod SpawnTests
pub mod ReleaseAll
pub mod ControlBlock
pub mod CmdSend
pub mod RxTests
pub mod Init
pub mod FlowControl
pub mod Reserved
pub mod DataOps
pub mod Fresh
pub mod Recycled
pub mod Tests
pub mod PoolTests
pub mod DataTests
pub mod CommandTests
