-- ===== src/Req/Wire.antt =====
-- nct_req_send and nct_rpc_recv: what a server that reads records finds on the connection.
use nct.Base.{
  Option, none, subst, ℕ, ◌+◌, ◌^◌, ◌<◌, ◌≤◌, ◌≡◌, refl, sym, ap, ◌∙◌, some, List, ◌∷◌, ◌++◌, map,
  length, length-append, concat, All, take, drop, take-append, drop-append, append_assoc, arith,
  htonl, eq→==,
}
use nct.Rpc.{Sent, Received, got, Ssize, count, minus_one, nct_rpc_send, nct_rpc_recv}
use nct.Rpc.Framing.{no_mark, NonEmpty, Framed}
use nct.Rpc.Stream.{Progress, nct_rpc_send-total, send-recv}
use nct.Req.State.{Mnt}
use nct.Req.Send.{Sending, delivered, slot, put_xid, enroll, msg_len_of, check_sent, nct_req_send}

-- The send returns, the request is in the table under its id, and a reader takes a record off the
-- connection that holds the id and the bytes `rest`, and leaves what is behind it.
pub record OnWire (r xid : ℕ) (rest : List ℕ) (out : Sending) : Type 0 where
  pub m' : Mnt
  pub wire : List ℕ
  pub result : out ≡ delivered m' wire
  pub in_table : m'.mnt_req_tbl (slot xid) ≡ some r
  pub id : (m'.req_at r).req_xid ≡ xid
  pub framed :
      (bufsz : ℕ) (q : List ℕ) (cs : List (List ℕ)) (more : List Received)
      → length rest + 8 ≤ bufsz
      → length q ≡ 4
      → All NonEmpty cs
      → concat cs ≡ drop 4 wire ++ q
      → Framed
          (htonl xid ++ rest)
          q
          (length (htonl xid ++ rest))
          more
          (nct_rpc_recv bufsz (some no_mark) (got (take 4 wire) ∷ map got cs ++ more))

length-htonl : (x : ℕ) → length (htonl x) ≡ 4
unfolding htonl
length-htonl x = refl

-- The id goes behind the place of the record mark.
put_xid_lem :
    (xid : ℕ) (hole blank rest : List ℕ)
    → length hole ≡ 4
    → length blank ≡ 4
    → put_xid xid (hole ++ (blank ++ rest)) ≡ hole ++ (htonl xid ++ rest)
put_xid_lem xid hole blank rest h b =
    let front : take 4 (hole ++ (blank ++ rest)) ≡ hole =
      subst (λ n. take n (hole ++ (blank ++ rest)) ≡ hole) h (take-append hole (blank ++ rest)) in
    let eight : length (hole ++ blank) ≡ 8 = omega (arith, length-append hole blank) in
    let back : drop 8 (hole ++ (blank ++ rest)) ≡ rest =
      subst (λ n. drop n (hole ++ (blank ++ rest)) ≡ rest) eight
        (ap (drop (length (hole ++ blank))) (sym (append_assoc hole blank rest))
          ∙ drop-append (hole ++ blank) rest) in
    rw (front, back) (append_assoc hole (htonl xid) rest)

enroll_entry :
    (r : ℕ) (m : Mnt)
    → ((enroll r m).mnt_req_tbl (slot m.mnt_send_xid) ≡ some r)
      × (((enroll r m).req_at r).req_xid ≡ m.mnt_send_xid)
unfolding enroll
enroll_entry r m = (ground arith, ground arith)

check_sent_all :
    (len n : ℕ) (m : Mnt) (out : Option Ssize × List ℕ)
    → out.0 ≡ some (count n)
    → n ≡ len
    → check_sent len m out ≡ delivered m out.1
check_sent_all len n m (none, wire) e l = let clash : ⊥ = cc in absurd clash
check_sent_all len n m (some minus_one, wire) e l = let clash : ⊥ = cc in absurd clash
check_sent_all len n m (some (count k), wire) e l =
    let same : k ≡ len = let k_n : k ≡ n = cc in k_n ∙ l in rw (eq→== k len same) refl

-- A message that an encoder has left in a request's buffer, with room for the mark and the id, is
-- sent whole, whatever its bytes at these two places, if the connection takes at least a byte at each
-- call: who reads records finds one with the request's own id in front, and the table has the request
-- under that id.
pub nct_req_send-OnWire :
    (r : ℕ) (m : Mnt) (es : List Sent) (hole blank rest : List ℕ)
    → (m.msg_at (m.req_at r).req_msg).msg_data ≡ hole ++ (blank ++ rest)
    → msg_len_of r m ≡ length rest + 8
    → length hole ≡ 4
    → length blank ≡ 4
    → length rest + 8 < 2 ^ 31
    → All Progress es
    → length rest + 8 ≤ length es
    → OnWire r m.mnt_send_xid rest (nct_req_send r m es)
unfolding nct_req_send
nct_req_send-OnWire r m es hole blank rest bytes len h b small progress enough =
    let xid = m.mnt_send_xid in
    let p = htonl xid ++ rest in
    let size : length p ≡ length rest + 4 =
      omega (arith, length-append (htonl xid) rest, length-htonl xid) in
    let made : put_xid xid (m.msg_at (m.req_at r).req_msg).msg_data ≡ hole ++ p =
      ap (put_xid xid) bytes ∙ put_xid_lem xid hole blank rest h b in
    let all : (nct_rpc_send (hole ++ p) es).0 ≡ some (count (length p + 4)) =
      nct_rpc_send-total hole p h (omega arith) es progress (omega arith) in
    let whole : length p + 4 ≡ msg_len_of r m = omega arith in
    let sent_all = nct_rpc_send (hole ++ p) es in
    record {
      m' = enroll r m;
      wire = sent_all.1;
      result =
          ap (λ b. check_sent (msg_len_of r m) (enroll r m) (nct_rpc_send b es)) made
          ∙ check_sent_all (msg_len_of r m) (length p + 4) (enroll r m) sent_all all whole;
      in_table = (enroll_entry r m).0;
      id = (enroll_entry r m).1;
      framed = λ bufsz q cs more room four ne cut.
          send-recv hole p q es bufsz cs more h (omega arith) (omega arith) four all ne cut;
    }
