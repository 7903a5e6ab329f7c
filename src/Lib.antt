-- ===== src/Lib.antt =====
-- nct, a load generator for NFS servers, and the command line parser it uses.
--
-- nct opens one TCP connection to a server (nct_mount.c), keeps a number of NFS requests in flight
-- on it (nct_req.c), frames them as RPC records (nct_rpc.c), and runs a test as a number of jobs,
-- each a request that its callback sends again at every reply until the test's time is over
-- (nct_null.c, nct_getattr.c, nct_read.c). clp.c reads the command line.
--
--   Base        Boolean tests, lists over native numbers, words of 32 and 64 bits, byte order,
--               integers, ascending lists, and numbers as they are printed
--   Rpc         nct_rpc.c: nct_rpc_send and nct_rpc_recv over a list of results of send() and
--               recv(). Framing has the read loop, Stream the receiver with a place for the next
--               mark, Fragments the receiver with none, Decode nct_rpc_decode
--   Req         nct_req.c. State has the objects of nct_req.h and nct_mount.h, Pool the free list,
--               Send the transaction ids and the send, Loop one round of nct_req_recv_loop in the
--               order of the source, Dispatch, Accounting and Reconnect what a round does, Wait
--               nct_req_wait, Wire what is on the connection, Round a whole round of the loop,
--               Callbacks the same for requests with a callback
--   Xdr         nct_xdr.c and nct_nfstypes.h. Proc composes XDR procedures, RoundTrip shows what
--               decodes what is encoded, Protocol has the attributes as RFC 1813 orders them
--   Nfs         nct_rpc_encode, nct_nfs.c and nct_vnode.c. Mount runs nct_nfs_mount against a
--               server, Messages has what it prints
--   Mount       nct_mount.c: the target's parse, nct_connect, and nct_mount step by step. Paths is
--               about the parse, Result about what nct_mount returns, Umount has nct_umount
--   Jobs        the callbacks and start functions of the three tests. Offsets follows the read
--               test's offset, Returns relates the results of the callbacks to the pool, Wire has
--               the encoder's messages on the connection
--   Threads     the receive threads and the jobs as steps that follow each other in any order;
--               Receive has nct_req_recv_loop from its start to its end, InFlight follows one
--               request through these steps, and Counting the count of the jobs
--   Stats       nct.c: the sampling loop of nct_stats_loop. Rules has the case rules, Sampling the
--               array, Reports the lines, Ending and Busy when it returns, Summary what is read from
--               the array in the end, Print what is printed of it, Gplot the scripts for gnuplot
--   Main        main.c, and the init functions of the tests: from the command line to the jobs and
--               the sampling loop. Array and Jobs join these with Stats, Tables has the tables of
--               options, Alone is about -h and -V in them, Names the name of the program and its
--               messages
--   Clp         clp.c. Chars has the character classes, BreakArgs clp_breakargs as a machine that
--               takes one byte a step, Options the lookups in the tables, Posparam the positional
--               parameters and the distribution of the arguments, OptString what getopt_long() is
--               given, Parse clp_parsev, Convert the conversions of the numbers (CLP_CVT_TMPL), Usage
--               the usage line, Help the help message, Errors clp_eprint, Actions the getters and
--               the actions of the tables, Macros the macros of the tables
--   Shell       nct_shell.c: the command on a line of input. Lookups is about that, Session has a
--               whole session, and Transcript follows it line by line
--   Examples    tests, and the theorems at concrete inputs
--
-- A pointer to a request or to a message buffer is an index in one of two stores of the mount
-- object (Req/State), so that an object shared by the table, the pool and a thread is shared in
-- the model. Where a thread holds a lock for the whole of an operation, the operation is one
-- step; where a receive thread takes a reply, it holds none, and takes a step for each access to
-- the table and to the request's buffer (Threads). uint32_t and uint64_t wrap around in the
-- model as in the source. A function that waits in a system call, aborts the program, or reads
-- through a null pointer has a constructor of its own for each of these in its result.
--
-- Outside the model are the socket, the clock, the RPC and XDR library and malloc(): what they
-- return is an argument, or a field of a record of functions (RpcLib, CallLib, XdrLib, Encoders).
-- Loops recurse on the list of results of the system calls, on the string, or on the slots of the
-- table, so no fuel is needed; Rpc/Stream has the number of calls of send() that is enough. The
-- session of the shell has fuel, a round for each line, and Session shows what is enough; a printed
-- number has 20 digits (Base/Decimal), which are enough for a word of 64 bits.
--
-- Not modelled: the text of the rows of the sampling loop, fractions, what nct_mnt_print and
-- clp_dprint print, free(), the destruction of the locks, signal handling, the creation of threads, getopt_long(),
-- strtold(), qsort(), and the calibration of the clock. The callbacks of the jobs take the messages
-- of the three encoders of Nfs as given (Encoders), and Jobs/Wire alone makes them; nct_mount takes
-- what the receive threads do while it waits as a function of the state, and so do the receive loop
-- and main() between two rounds or jobs, and the sampling loop between two rounds.

pub mod Base
pub mod Rpc
pub mod Req
pub mod Xdr
pub mod Nfs
pub mod Mount
pub mod Jobs
pub mod Threads
pub mod Stats
pub mod Main
pub mod Clp
pub mod Shell
mod Examples
