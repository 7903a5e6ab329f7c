-- ===== src/Examples/Wire.antt =====
-- The theorem of Jobs/Wire at a concrete input.
use nct.Base.{ℕ, zero, suc, ◌≡◌, refl, none, some, List, [], ◌∷◌, ◌++◌, All, drop, arith}
use nct.Rpc.{Sent, sent}
use nct.Rpc.Stream.{Progress}
use nct.Req.Send.{nct_req_send}
use nct.Req.Wire.{OnWire}
use nct.Nfs.{CallLib, encoded, authorize, call, nfs_program, nct_rpc_encode}
use nct.Jobs.{put_message, started}
use nct.Jobs.Wire.{IdFirst, nct_rpc_encode-OnWire}
use nct.Examples.Requests.{small}

-- A library that writes the id and the procedure.
abbrev calls : CallLib
calls = record { null_auth = []; xdr_callmsg = λ c. some (0 ∷ 0 ∷ 0 ∷ 0 ∷ c.cb_proc ∷ []) }

calls-IdFirst : IdFirst calls
calls-IdFirst c head e =
    let same : 0 ∷ 0 ∷ 0 ∷ 0 ∷ c.cb_proc ∷ [] ≡ head = cc in rw (← same) (omega arith)

-- Each call of send() takes one byte.
abbrev ones : ℕ → List Sent
ones zero = []
ones (suc n) = sent 1 ∷ ones n

ones-Progress : (n : ℕ) → All Progress (ones n)
ones-Progress zero = tt
ones-Progress (suc n) = (omega arith, ones-Progress n)

abbrev hole : List ℕ
hole = 7 ∷ 7 ∷ 7 ∷ 7 ∷ []

-- GETATTR of the file handle 5, 6.
abbrev message : List ℕ
message = 7 ∷ 7 ∷ 7 ∷ 7 ∷ 0 ∷ 0 ∷ 0 ∷ 0 ∷ 1 ∷ 5 ∷ 6 ∷ []

encoded_message :
    nct_rpc_encode calls (call nfs_program 3 1) none (some (5 ∷ 6 ∷ [])) (some hole) 40
    ≡ encoded message
unfolding nct_rpc_encode
encoded_message = refl

nct_rpc_encode-OnWire_example :
    (head : List ℕ) × (calls.xdr_callmsg (authorize calls none (call nfs_program 3 1)) ≡ some head)
    × OnWire 1 4294967290
        (drop 4 head ++ 5 ∷ 6 ∷ [])
        (nct_req_send 1 (put_message 1 message (started 1 20 small)) (ones 40))
nct_rpc_encode-OnWire_example =
    nct_rpc_encode-OnWire calls (call nfs_program 3 1) none (5 ∷ 6 ∷ []) hole 40 message 1 20 small
      (ones 40) calls-IdFirst encoded_message refl (omega arith) (ones-Progress 40) (omega arith)
