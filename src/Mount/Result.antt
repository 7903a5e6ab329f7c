-- ===== src/Mount/Result.antt =====
-- nct_mount: what a mount that it returns is made of.
use nct.Base.{
  ℕ, ◌≡◌, refl, ap, Bool, true, false, not, ◌||◌, if◌then◌else◌, ==→eq, ◌==◌, Option, none, some,
  List, Bool-cases, inl, inr,
}
use nct.Rpc.Decode.{rpc_success}
use nct.Req.State.{Mnt}
use nct.Req.Pool.{Alloc, allocated, sleeps, nct_req_alloc}
use nct.Req.Send.{Sending, delivered, blocked, send_aborts, nct_req_send}
use nct.Req.Wait.{Waiting, ready, dozes, nct_req_wait}
use nct.Xdr.{Fattr3, nct_xdr_getattr3_decode}
use nct.Jobs.{put_message, started}
use nct.Nfs.{
  Auth, NfsMount, mount_aborts, mount_blocks, mount_overruns, mount_exits, has_vnode, Vnode,
}
use nct.Mount.{
  Target, Mounting, unmounted, unmount_aborts, mounting_blocks, mounting_overruns, mounting_exits,
  is_mounted, System, fresh_stats, is_host, mount_target, on_attributes, on_wait, on_getattr,
  on_alloc, on_nfs, on_connect, on_auth, nct_mount,
}

-- The GETATTR that nct_mount has sent and waited for: the request, the mount behind the send and
-- behind the wait, and the attributes that nct_xdr_getattr3_decode finds in the reply.
pub record Asked (sys : System) (attrs : Fattr3) : Type 0 where
  pub request : ℕ
  pub before : Mnt
  pub had : Mnt
  pub sent : Mnt
  pub waited : Mnt
  pub wire : List ℕ
  pub status : ℕ
  pub taken : nct_req_alloc before ≡ allocated request had
  pub delivery :
      nct_req_send request
        (put_message request sys.getattr_message (started request sys.now had))
        sys.net
      ≡ delivered sent wire
  pub replied : nct_req_wait request (sys.threads sent) ≡ ready waited
  pub accepted : (waited.msg_at (waited.req_at request).req_msg).msg_stat ≡ rpc_success
  pub decoded :
      nct_xdr_getattr3_decode sys.nfs.xdr sys.junk
        (waited.msg_at (waited.req_at request).req_msg).msg_body
      ≡ (some attrs, status)

-- The parts of a mount of a target: the statistics are new, and the attributes of the vnode, and the
-- size of the file, are those in the reply to its GETATTR.
pub record IsMount (sys : System) (target : Target) (m : Mnt) (t : Target) (vn : Vnode)
    : Type 0 where
  pub same : t ≡ target
  pub reset : m.mnt_stats ≡ fresh_stats
  pub attrs : Fattr3
  pub asked : Asked sys attrs
  pub known : vn.xvn_fattr ≡ some attrs
  pub size : m.vn_size ≡ attrs.size

-- Whatever comes of it, a mount that is returned is one of the target, whose host is valid.
abbrev pub Sound : System → Target → Mounting → Type 0
Sound sys target (is_mounted m t vn) = IsMount sys target m t vn × (is_host t.mnt_server ≡ true)
Sound sys target unmounted = Unit {0}
Sound sys target unmount_aborts = Unit {0}
Sound sys target mounting_blocks = Unit {0}
Sound sys target mounting_overruns = Unit {0}
Sound sys target (mounting_exits code) = Unit {0}

module _ (sys : System) (target : Target) (valid : is_host target.mnt_server ≡ true) where
  on_attributes-Sound :
      (vn : Vnode) (r : ℕ) (m : Mnt) (o : Option Fattr3 × ℕ)
      → ((attrs : Fattr3) → o.0 ≡ some attrs → Asked sys attrs)
      → Sound sys target (on_attributes sys target vn r m o)
  on_attributes-Sound vn r m (none, _) asked = tt
  on_attributes-Sound vn r m (some a, _) asked = (
    record {
      same = refl;
      reset = refl;
      attrs = a;
      asked = asked a refl;
      known = refl;
      size = refl;
    },
    valid,
  )

  module _ (r : ℕ) (before had sent : Mnt) (wire : List ℕ)
      (taken : nct_req_alloc before ≡ allocated r had)
      (delivery : nct_req_send r (put_message r sys.getattr_message (started r sys.now had)) sys.net
        ≡ delivered sent wire) where
    on_wait-Sound :
        (vn : Vnode) (w : Waiting)
        → nct_req_wait r (sys.threads sent) ≡ w
        → Sound sys target (on_wait sys target vn r w)
    on_wait-Sound vn (dozes m) e = tt
    on_wait-Sound vn (ready m) e =
        let g = m.msg_at (m.req_at r).req_msg in
        elim (Bool-cases (g.msg_stat == rpc_success)) [
          | inl good ↦ rw good (
              on_attributes-Sound vn r m (nct_xdr_getattr3_decode sys.nfs.xdr sys.junk g.msg_body)
                (λ a known. record {
                  request = r;
                  before = before;
                  had = had;
                  sent = sent;
                  waited = m;
                  wire = wire;
                  status = (nct_xdr_getattr3_decode sys.nfs.xdr sys.junk g.msg_body).1;
                  taken = taken;
                  delivery = delivery;
                  replied = e;
                  accepted = ==→eq g.msg_stat rpc_success good;
                  decoded =
                      ap (λ o. (o, (nct_xdr_getattr3_decode sys.nfs.xdr sys.junk g.msg_body).1))
                        known;
                }))
          | inr bad ↦ rw bad tt
        ]

  on_getattr-Sound :
      (vn : Vnode) (r : ℕ) (before had : Mnt) (s : Sending)
      → nct_req_alloc before ≡ allocated r had
      → nct_req_send r (put_message r sys.getattr_message (started r sys.now had)) sys.net ≡ s
      → Sound sys target (on_getattr sys target vn r s)
  on_getattr-Sound vn r before had (delivered m wire) taken e =
      on_wait-Sound r before had m wire taken e vn (nct_req_wait r (sys.threads m)) refl
  on_getattr-Sound vn r before had (blocked _ _) taken e = tt
  on_getattr-Sound vn r before had send_aborts taken e = tt

  on_alloc-Sound :
      (vn : Vnode) (before : Mnt) (a : Alloc)
      → nct_req_alloc before ≡ a
      → Sound sys target (on_alloc sys target vn a)
  on_alloc-Sound vn before (sleeps m) taken = tt
  on_alloc-Sound vn before (allocated r m) taken = on_getattr-Sound vn r before m _ taken refl

  on_nfs-Sound : (m : Mnt) (n : NfsMount) → Sound sys target (on_nfs sys target m n)
  on_nfs-Sound m mount_aborts = tt
  on_nfs-Sound m mount_blocks = tt
  on_nfs-Sound m mount_overruns = tt
  on_nfs-Sound m (mount_exits code) = tt
  on_nfs-Sound m (has_vnode vn) = on_alloc-Sound vn m (nct_req_alloc m) refl

  on_connect-Sound :
      (spawn : Mnt → Mnt) (jobs_max : ℕ) (m : Mnt) (rc : ℕ)
      → Sound sys target (on_connect sys target spawn jobs_max m rc)
  on_connect-Sound spawn jobs_max m rc = elim (Bool-cases (rc == 0)) [
    | inl up ↦ rw up (on_nfs-Sound _ _)
    | inr down ↦ rw down tt
  ]

  on_auth-Sound :
      (spawn : Mnt → Mnt) (jobs_max : ℕ) (m : Mnt) (a : Option Auth)
      → Sound sys target (on_auth sys target spawn jobs_max m a)
  on_auth-Sound spawn jobs_max m none = tt
  on_auth-Sound spawn jobs_max m (some _) = on_connect-Sound spawn jobs_max m _

-- The tests in front of the rest.
guarded :
    (sys : System) (target : Target) (x y z : Bool) (o : Mounting)
    → (y ≡ true → Sound sys target o)
    → Sound sys target (if not x || not y || not z then unmounted else o)
guarded sys target false y z o h = tt
guarded sys target true false z o h = tt
guarded sys target true true false o h = tt
guarded sys target true true true o h = h refl

-- A mount that nct_mount returns has the parts of the target that it was given, whose host name
-- starts with a letter or a digit, and new statistics; its vnode has the attributes, and it the size,
-- that nct_xdr_getattr3_decode finds in the results of the GETATTR request that it has sent and
-- waited for, whose reply was accepted.
pub nct_mount-Sound :
    (sys : System) (spawn : ℕ → Mnt → Mnt) (path : List ℕ) (tds_max jobs_max : ℕ) (m : Mnt)
    → Sound sys (mount_target path) (nct_mount sys spawn path tds_max jobs_max m)
unfolding nct_mount
nct_mount-Sound sys spawn path tds_max jobs_max m =
    guarded sys (mount_target path) sys.room (is_host (mount_target path).mnt_server) sys.resolves _
      (λ valid. on_auth-Sound sys (mount_target path) valid (spawn _) jobs_max m sys.auth)
