-- ===== src/Jobs/Wire.antt =====
-- The messages of the jobs on the connection: nct_rpc_encode, nct_req_send and nct_rpc_send together.
use nct.Base.{
  Option-cases, take, take-append-drop, length-drop, ℕ, ◌+◌, ◌^◌, ◌<◌, ◌≤◌, ◌≡◌, sym, ap, ◌∙◌, some,
  Option, List, ◌++◌, length, length-append, All, drop, append_assoc, arith, ltb, leb, Bool-cases,
  inl, inr,
}
use nct.Rpc.{Sent}
use nct.Rpc.Stream.{Progress}
use nct.Req.State.{Mnt}
use nct.Req.Send.{nct_req_send, msg_len_of}
use nct.Req.Wire.{OnWire, nct_req_send-OnWire}
use nct.Nfs.{
  Auth, CallMsg, CallLib, encoded, encode_aborts, unencoded, authorize, fit, nct_rpc_encode,
}
use nct.Jobs.{put_message, started}

-- The library writes the id of a call, four bytes, first.
abbrev pub IdFirst : CallLib → Type 0
IdFirst lib = (c : CallMsg) (head : List ℕ) → lib.xdr_callmsg c ≡ some head → 4 ≤ length head

-- An encoded message is the hole, the call header and the arguments, and fits the buffer.
record Parts (lib : CallLib) (c : CallMsg) (a hole : List ℕ) (room : ℕ) (bytes : List ℕ)
    : Type 0 where
  head : List ℕ
  made : lib.xdr_callmsg c ≡ some head
  whole : bytes ≡ hole ++ (head ++ a)
  fits : length (head ++ a) + 4 ≤ room

fit-Parts :
    (hole : List ℕ) (room : ℕ) (s bytes : List ℕ)
    → fit hole room (some s) ≡ encoded bytes
    → (bytes ≡ hole ++ s) × (length s + 4 ≤ room)
fit-Parts hole room s bytes e = elim (Bool-cases (leb (length s + 4) room)) [
  | inl ok ↦
      let whole : encoded (hole ++ s) ≡ encoded bytes = rw ok at e in
      let same : bytes ≡ hole ++ s = cc in (same, ground arith)
  | inr over ↦
      let clash : unencoded ≡ encoded bytes = rw over at e in let never : ⊥ = cc in absurd never
]

nct_rpc_encode-Parts :
    (lib : CallLib) (msg : CallMsg) (auth : Option Auth) (a hole : List ℕ) (room : ℕ)
    (bytes : List ℕ)
    → nct_rpc_encode lib msg auth (some a) (some hole) room ≡ encoded bytes
    → Parts lib (authorize lib auth msg) a hole room bytes
unfolding nct_rpc_encode
nct_rpc_encode-Parts lib msg auth a hole room bytes e = elim (Bool-cases (ltb room 28)) [
  | inl small ↦
      let clash : encode_aborts ≡ encoded bytes = rw small at e in
      let never : ⊥ = cc in absurd never
  | inr large ↦ elim (Option-cases (lib.xdr_callmsg (authorize lib auth msg))) [
    | inl n ↦
        let clash : unencoded ≡ encoded bytes = rw (large, n) at e in
        let never : ⊥ = cc in absurd never
    | inr (head, made) ↦
        let f : fit hole room (some (head ++ a)) ≡ encoded bytes = rw (large, made) at e in
        let parts = fit-Parts hole room (head ++ a) bytes f in
        record { head = head; made = made; whole = parts.0; fits = parts.1 }
  ]
]

put_message_lem :
    (r now : ℕ) (bytes : List ℕ) (m : Mnt)
    → let n = put_message r bytes (started r now m) in
      ((n.msg_at (n.req_at r).req_msg).msg_data ≡ bytes) × (msg_len_of r n ≡ length bytes)
put_message_lem r now bytes m = (ground arith, ground arith)

-- What a job puts into its request with nct_rpc_encode and then sends, a reader of records takes off
-- the connection as one record: the id of this very request, and behind it the call header that the
-- library has made, less the place of its id, and the arguments; and the table has the request under
-- this id. The connection takes at least a byte at each call of send().
pub nct_rpc_encode-OnWire :
    (lib : CallLib) (msg : CallMsg) (auth : Option Auth) (a hole : List ℕ) (room : ℕ)
    (bytes : List ℕ) (r now : ℕ) (m : Mnt) (es : List Sent)
    → IdFirst lib
    → nct_rpc_encode lib msg auth (some a) (some hole) room ≡ encoded bytes
    → length hole ≡ 4
    → room < 2 ^ 31
    → All Progress es
    → room ≤ length es
    → (head : List ℕ) × (lib.xdr_callmsg (authorize lib auth msg) ≡ some head)
      × OnWire r m.mnt_send_xid
          (drop 4 head ++ a)
          (nct_req_send r (put_message r bytes (started r now m)) es)
nct_rpc_encode-OnWire lib msg auth a hole room bytes r now m es first e h small progress enough =
    let q = nct_rpc_encode-Parts lib msg auth a hole room bytes e in
    let put = put_message_lem r now bytes m in
    let cut : bytes ≡ hole ++ (take 4 q.head ++ (drop 4 q.head ++ a)) =
      q.whole
      ∙ ap (λ s. hole ++ s)
          (ap (λ s. s ++ a) (sym (take-append-drop 4 q.head))
            ∙ append_assoc (take 4 q.head) (drop 4 q.head) a) in
    let four : length (take 4 q.head) ≡ 4 = omega (
      arith,
      first _ q.head q.made,
      length-drop 4 q.head,
      length-append (take 4 q.head) (drop 4 q.head),
      ap length (take-append-drop 4 q.head),
    ) in
    let size : length bytes ≡ length (drop 4 q.head ++ a) + 8 = omega (
      arith,
      first _ q.head q.made,
      ap length q.whole,
      length-append hole (q.head ++ a),
      length-append q.head a,
      length-append (drop 4 q.head) a,
      length-drop 4 q.head,
    ) in
    let room_left = length-append hole (q.head ++ a) in
    let whole = ap length q.whole in
    (
      q.head,
      q.made,
      nct_req_send-OnWire r (put_message r bytes (started r now m)) es hole (take 4 q.head)
          (drop 4 q.head ++ a) (put.0 ∙ cut) (omega (arith, put.1, q.fits)) h four
          (omega (arith, q.fits)) progress (omega (arith, q.fits)),
    )
