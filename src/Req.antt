-- ===== src/Req.antt =====
-- nct_req.c, and the parts of nct_req.h, nct_mount.h and nct.h that it works on: the pool of
-- requests, the table of requests in flight, sending, and the loop of a receive thread.
pub mod State
pub mod Pool
pub mod Calls
pub mod Send
pub mod Loop
pub mod Dispatch
pub mod Wait
pub mod Wire
pub mod Round
pub mod Callbacks
pub mod Accounting
pub mod Reconnect
