-- ===== src/Examples/Unmounting.antt =====
-- nct_mount.c: the theorem of Mount/Umount at a concrete input.
use nct.Base.{◌≡◌, refl, true, some, List, [], ◌∷◌, ntohl}
use nct.Rpc.{Received, got, nct_rpc_recv, again, resume, enter_record}
use nct.Rpc.Decode.{RpcLib}
use nct.Req.Loop.{recv_loop_round, after_recv}
use nct.Threads.Receive.{RoundIn, recv_rounds}
use nct.Mount.Umount.{Receiver, umount_aborts, join_loop, nct_umount, shut_down}
use nct.Examples.Requests.{in_flight, no_callback, reply, thread}

-- A library that decodes every buffer.
abbrev decodes : RpcLib
decodes = record { xdr_replymsg = λ buf len. some reply; seterr_reply = λ m. m.verdict }

abbrev round_with : List Received → RoundIn
round_with es = record {
  others = λ m. m;
  received = es;
  tsc_stop = 50;
  connected = true;
  now = λ i. 0;
  net = λ i. [];
}

-- The mark of a record of 24 bytes, and the record.
abbrev answer : List Received
answer =
    got (128 ∷ 0 ∷ 0 ∷ 24 ∷ [])
    ∷ got (
        0 ∷ 0 ∷ 0 ∷ 0 ∷ 0 ∷ 0 ∷ 0 ∷ 0 ∷ 0 ∷ 0 ∷ 0 ∷ 0 ∷ 0 ∷ 0 ∷ 0 ∷ 0 ∷ 0 ∷ 0 ∷ 0 ∷ 0 ∷ 0 ∷ 0 ∷ 0
        ∷ 0 ∷ [])
    ∷ []

-- A thread that takes one more reply.
abbrev receiver : Receiver
receiver = record { locals = thread; rounds = round_with answer ∷ []; idle = round_with [] }

-- With a mark at hand that is too long for the buffer, the first thread at the end of the stream
-- aborts the program.
too_long :
    nct_umount decodes no_callback 1000000 4096
      (some 3)
      (some (record { locals = thread; rounds = []; idle = round_with [] }) ∷ [])
      (record in_flight { mnt_jobs_max = 4; mnt_recv_mark = 128 ∷ 0 ∷ 255 ∷ 255 ∷ [] })
    ≡ umount_aborts
unfolding nct_umount join_loop shut_down recv_rounds recv_loop_round nct_rpc_recv again resume
    enter_record after_recv ntohl
too_long = refl
