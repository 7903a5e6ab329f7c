-- ===== src/Nfs/Mount.antt =====
-- nct_nfs_mount with a server that answers.
use nct.Base.{
  ℕ, ◌+◌, ◌^◌, ◌<◌, ◌≤◌, ◌≡◌, ◌≢◌, true, List, ◌∷◌, ◌++◌, map, length, concat, All, Option,
}
use nct.Rpc.{Received, got}
use nct.Rpc.Framing.{NonEmpty}
use nct.Rpc.Stream.{Progress, last_mark}
use nct.Rpc.Fragments.{NoFourLeft}
use nct.Nfs.{Auth, MountEnv, encoded, bufsz, mount_call}

-- The port mapper knows the server's port, and the connection is made.
pub record Connects (env : MountEnv) : Type 0 where
  pub known : env.port ≢ 0
  pub opened : env.has_socket ≡ true
  pub joined : env.connects ≡ true

-- The server sends `payload` as a record of one fragment, which arrives in the reads `cs`, of
-- which none stops four bytes before the end; it fits `rxbuf`.
pub record Receives (env : MountEnv) (payload : List ℕ) : Type 0 where
  pub cs : List (List ℕ)
  pub more : List Received
  pub arrives : env.recvs ≡ got (last_mark (length payload)) ∷ map got cs ++ more
  pub chunks : concat cs ≡ payload
  pub filled : All NonEmpty cs
  pub whole : NoFourLeft cs
  pub enough : 24 ≤ length payload
  pub fits : length payload + 4 ≤ bufsz

-- The call fits `txbuf`, and every send() takes at least a byte of it.
pub record Sends (env : MountEnv) (auth : Option Auth) (path : List ℕ) : Type 0 where
  pub bytes : List ℕ
  pub message : mount_call env auth path ≡ encoded (env.hole ++ bytes)
  pub mark : length env.hole ≡ 4
  pub small : length bytes < 2 ^ 31
  pub progress : All Progress env.sends
  pub calls : length bytes + 4 ≤ length env.sends
