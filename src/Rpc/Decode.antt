-- ===== src/Rpc/Decode.antt =====
-- nct_rpc_decode. The RPC library's decoder is outside the program and enters as a parameter.
use nct.Base.{ℕ, List, Option, none, some}
use nct.Rpc.{Ssize}

-- An RPC reply header as the library decodes it, with the bytes behind it.
pub record RpcMsg : Type 0 where
  pub rm_xid : ℕ
  pub verdict : ℕ
  pub results : List ℕ

-- xdr_replymsg() over a buffer of the length given, and the status that _seterr_reply() derives.
pub record RpcLib : Type 0 where
  pub xdr_replymsg : List ℕ → Ssize → Option RpcMsg
  pub seterr_reply : RpcMsg → ℕ

-- enum clnt_stat, as far as the program names its values; they are those of <rpc/clnt_stat.h>.
abbrev pub rpc_success : ℕ
rpc_success = 0

abbrev pub rpc_cantdecoderes : ℕ
rpc_cantdecoderes = 2

-- nct_rpc_decode: the status, and the header if there is one.
unfoldable pub nct_rpc_decode : RpcLib → List ℕ → Ssize → ℕ × Option RpcMsg
nct_rpc_decode lib buf len = elim (lib.xdr_replymsg buf len) [
  | none ↦ (rpc_cantdecoderes, none)
  | some msg ↦ (lib.seterr_reply msg, some msg)
]
