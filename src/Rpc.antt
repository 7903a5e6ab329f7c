-- ===== src/Rpc.antt =====
-- nct_rpc.c: RPC record marking over a TCP stream (nct_rpc_send, nct_rpc_recv).
--
-- The socket is outside the program: what successive calls of send() and recv() return is a list
-- of events, an argument of the model. A list that ends before the function returns leaves the
-- call blocked in the system call. Buffers are lists of bytes.
pub mod Framing
pub mod Stream
pub mod Fragments
pub mod Decode
use nct.Base.{
  ℕ, zero, suc, ◌+◌, ◌-◌, ◌/◌, ◌%◌, ◌^◌, Bool, true, false, ◌&&◌, not, Option, none, some, List, [],
  ◌∷◌, ◌++◌, ltb, leb, ◌==◌, if◌then◌else◌, length, take, drop, sub64, add64, htonl, ntohl,
}

-- A ssize_t: a count, or -1.
pub data Ssize : Type 0 where
  count : ℕ → Ssize
  minus_one : Ssize

-- What one send() returns: the number of bytes taken (0 or less than asked for included), or -1.
pub data Sent : Type 0 where
  sent : ℕ → Sent
  send_failed : Sent

-- What one recv() returns: the bytes delivered (none at the end of the stream), or -1.
pub data Received : Type 0 where
  got : List ℕ → Received
  recv_failed : Received

-- `x | 0x80000000u`
unfoldable pub set_last : ℕ → ℕ
set_last x = if x / 2 ^ 31 % 2 == 0 then x + 2 ^ 31 else x

-- The loop of nct_rpc_send: `nleft` is the length of `buf`. The result is what the function
-- returns, `none` while it is blocked, and the bytes put on the wire.
unfoldable pub send_loop : ℕ → List ℕ → List Sent → Option Ssize × List ℕ
send_loop bufsz [] es = (some (count bufsz), [])
send_loop bufsz (b ∷ buf) [] = (none, [])
send_loop bufsz (b ∷ buf) (send_failed ∷ es) = (some minus_one, [])
send_loop bufsz (b ∷ buf) (sent zero ∷ es) = (some (count 0), [])
send_loop bufsz (b ∷ buf) (sent (suc n) ∷ es) =
    let (r, wire) = send_loop bufsz (drop n buf) es in (r, b ∷ take n buf ++ wire)

-- `memcpy(buf, &mark, sizeof(mark))`: the record mark goes over the first four bytes.
unfoldable pub put_mark : List ℕ → List ℕ
put_mark buf = htonl (set_last (sub64 (length buf) 4)) ++ drop 4 buf

-- nct_rpc_send
unfoldable pub nct_rpc_send : List ℕ → List Sent → Option Ssize × List ℕ
nct_rpc_send buf es = send_loop (length buf) (put_mark buf) es

-- The locals of nct_rpc_recv that live across system calls. `mem` holds the bytes stored from the
-- caller's buffer up to the pointer `buf`, `bufsz` the room behind it, and `markp` is `none` for a
-- null pointer, else the four bytes of the uint32_t that it points to.
pub record Reader : Type 0 where
  pub mem : List ℕ
  pub bufsz : ℕ
  pub markp : Option (List ℕ)

-- Where the function waits in recv(): for a mark, or for the `nleft` bytes of a record.
pub data Wait : Type 0 where
  for_mark : Wait
  for_data : (recsz nleft : ℕ) → (last : Bool) → Wait

pub data Outcome : Type 0 where
  waits : Wait → Reader → Outcome
  returns : Ssize → Reader → Outcome
  aborts : Outcome

abbrev pub marksz : ℕ
marksz = 4

-- `nleft = recsz + (markp ? marksz : 0)` and the test of the read loop. It is 0 at once only with
-- a null `markp`: then nothing is stored, and `again` reads a mark.
unfoldable pub begin_record : Option (List ℕ) → ℕ → Bool → Reader → Outcome
begin_record (some m) recsz last s = waits (for_data recsz (recsz + marksz) last) s
begin_record none recsz last s =
    if recsz == 0
    then (if last then returns (count recsz) s else waits for_mark s)
    else waits (for_data recsz recsz last) s

-- From `mark = ntohl(mark)` to the read loop.
unfoldable pub enter_record : List ℕ → Reader → Outcome
enter_record raw s =
    let mark = ntohl raw in
    let recsz = mark % 2 ^ 31 in
    if ltb s.bufsz (recsz + marksz)
    then aborts
    else begin_record s.markp recsz (not (mark / 2 ^ 31 % 2 == 0)) s

-- The label `again`: a mark at hand is used, and its absence, 0, makes the function read one.
unfoldable pub again : Option (List ℕ) → Reader → Outcome
again none s = waits for_mark s
again (some raw) s = if ntohl raw == 0 then waits for_mark s else enter_record raw s

-- Behind the read loop: the last four bytes read are the next mark, if the caller has a place for
-- it, and a fragment that is not the last is followed by the next.
unfoldable pub end_record : Option (List ℕ) → ℕ → Bool → Reader → Outcome
end_record none recsz last s = if last then returns (count recsz) s else again none s
end_record (some _) recsz last s =
    let n = length s.mem - marksz in
    let raw = drop n s.mem in
    let s' = record s { mem = take n s.mem; bufsz = add64 s.bufsz marksz; markp = some raw } in
    if last then returns (count recsz) s' else again (some raw) s'

-- `*markp = 0`, if there is such a place.
abbrev pub clear_mark : Option (List ℕ) → Option (List ℕ)
clear_mark none = none
clear_mark (some _) = some (0 ∷ 0 ∷ 0 ∷ 0 ∷ [])

-- One return of recv() with at least one byte inside the read loop.
unfoldable pub store : ℕ → ℕ → Bool → List ℕ → Reader → Outcome
store recsz nleft last bytes s =
    let cc = length bytes in
    let rest = sub64 nleft cc in
    let s' = record s { mem = s.mem ++ bytes; bufsz = sub64 s.bufsz cc } in
    if last && rest == marksz
    then returns (count recsz) (record s' { markp = clear_mark s.markp })
    else if rest == 0
    then end_record s.markp recsz last s'
    else waits (for_data recsz rest last) s'

-- What the function does with one result of recv().
unfoldable pub on_recv : Wait → Received → Reader → Outcome
on_recv w recv_failed s = returns minus_one s
on_recv for_mark (got bytes) s =
    if length bytes == marksz then enter_record bytes s else returns (count 0) s
on_recv (for_data recsz nleft last) (got []) s = returns (count 0) s
on_recv (for_data recsz nleft last) (got (b ∷ bytes)) s = store recsz nleft last (b ∷ bytes) s

-- The calls of recv() in turn, until the function returns; with it, the results not asked for.
unfoldable pub resume : Outcome → List Received → Outcome × List Received
resume (waits w s) (e ∷ es) = resume (on_recv w e s) es
resume (waits w s) [] = (waits w s, [])
resume (returns r s) es = (returns r s, es)
resume aborts es = (aborts, es)

-- nct_rpc_recv
unfoldable pub nct_rpc_recv : ℕ → Option (List ℕ) → List Received → Outcome × List Received
nct_rpc_recv bufsz markp es =
    resume (again markp (record { mem = []; bufsz = bufsz; markp = markp })) es
