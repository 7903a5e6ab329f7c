-- ===== src/Xdr.antt =====
-- nct_xdr.c and the types of nct_nfstypes.h: the XDR procedures of the MOUNT and NFS protocols.
--
-- The XDR library's own procedures are outside the program and enter as a record. On Linux a
-- uint64 goes through xdr_u_quad_t(), an int64 through xdr_quad_t().
pub mod Proc
pub mod RoundTrip
pub mod Protocol
use nct.Base.{ℕ, ◌^◌, ◌-◌, Bool, true, false, Option, none, some, List, ◌==◌, if◌then◌else◌}
use nct.Base.Integers.{ℤ}
use nct.Xdr.Proc.{Codec, ◌&&&◌, members}

-- The library's procedures; those of the second group take a maximum length.
pub record XdrLib : Type 0 where
  pub xdr_u_quad_t : Codec ℕ
  pub xdr_u_long : Codec ℕ
  pub xdr_quad_t : Codec ℤ
  pub xdr_long : Codec ℤ
  pub xdr_enum : Codec ℕ
  pub xdr_bytes : ℕ → Codec (List ℕ)
  pub xdr_string : ℕ → Codec (List ℕ)
  pub xdr_array_int : ℕ → Codec (List ℕ)

abbrev pub fhsize3 : ℕ
fhsize3 = 64

abbrev pub nfs3_fhsize : ℕ
nfs3_fhsize = 64

abbrev pub mntpathlen : ℕ
mntpathlen = 1024

abbrev pub nfs3_ok : ℕ
nfs3_ok = 0

abbrev pub mnt3_ok : ℕ
mnt3_ok = 0

-- specdata3
pub record Specdata3 : Type 0 where
  pub specdata1 : ℕ
  pub specdata2 : ℕ

-- nfstime3
pub record Nfstime3 : Type 0 where
  pub seconds : ℕ
  pub nseconds : ℕ

-- fattr3
pub record Fattr3 : Type 0 where
  pub ftype : ℕ  -- type
  pub mode : ℕ
  pub nlink : ℕ
  pub uid : ℕ
  pub gid : ℕ
  pub size : ℕ
  pub used : ℕ
  pub rdev : Specdata3
  pub fsid : ℕ
  pub fileid : ℕ
  pub atime : Nfstime3
  pub mtime : Nfstime3
  pub ctime : Nfstime3

-- read3_args, with the bytes of the file handle.
pub record Read3Args : Type 0 where
  pub file : List ℕ
  pub offset : ℕ
  pub count : ℕ

-- mountres3_ok
pub record Mountres3Ok : Type 0 where
  pub fhandle : List ℕ
  pub auth_flavors : List ℕ

module _ (lib : XdrLib) where
  abbrev pub xdr_uint64 : Codec ℕ
  xdr_uint64 = lib.xdr_u_quad_t

  abbrev pub xdr_int64 : Codec ℤ
  xdr_int64 = lib.xdr_quad_t

  abbrev pub xdr_int32 : Codec ℤ
  xdr_int32 = lib.xdr_long

  abbrev pub xdr_uint32 : Codec ℕ
  xdr_uint32 = lib.xdr_u_long

  abbrev pub xdr_fhandle3 : Codec (List ℕ)
  xdr_fhandle3 = lib.xdr_bytes fhsize3

  abbrev pub nct_xdr_offset3 : Codec ℕ
  nct_xdr_offset3 = xdr_uint64

  abbrev pub nct_xdr_mode3 : Codec ℕ
  nct_xdr_mode3 = xdr_uint32

  abbrev pub nct_xdr_count3 : Codec ℕ
  nct_xdr_count3 = xdr_uint32

  abbrev pub nct_xdr_dirpath : Codec (List ℕ)
  nct_xdr_dirpath = lib.xdr_string mntpathlen

  abbrev pub nct_xdr_uid3 : Codec ℕ
  nct_xdr_uid3 = xdr_uint32

  abbrev pub nct_xdr_gid3 : Codec ℕ
  nct_xdr_gid3 = xdr_uint32

  abbrev pub nct_xdr_size3 : Codec ℕ
  nct_xdr_size3 = xdr_uint64

  abbrev pub nct_xdr_ftype3 : Codec ℕ
  nct_xdr_ftype3 = lib.xdr_enum

  unfoldable pub nct_xdr_specdata3 : Codec Specdata3
  nct_xdr_specdata3 =
      members (λ s. (s.specdata1, s.specdata2)) (λ p. record { specdata1 = p.0; specdata2 = p.1 })
        (xdr_uint32 &&& xdr_uint32)

  abbrev pub nct_xdr_fileid3 : Codec ℕ
  nct_xdr_fileid3 = xdr_uint64

  unfoldable pub nct_xdr_nfstime3 : Codec Nfstime3
  nct_xdr_nfstime3 =
      members (λ t. (t.seconds, t.nseconds)) (λ p. record { seconds = p.0; nseconds = p.1 })
        (xdr_uint32 &&& xdr_uint32)

  abbrev pub nct_xdr_nfsstat3 : Codec ℕ
  nct_xdr_nfsstat3 = lib.xdr_enum

  unfoldable pub nct_xdr_fattr3 : Codec Fattr3
  nct_xdr_fattr3 =
      members
        (λ a. (
          a.ftype,
          (
            a.mode,
            (
              a.nlink,
              (
                a.uid,
                (
                  a.gid,
                  (a.size, (a.used, (a.rdev, (a.fsid, (a.fileid, (a.atime, (a.mtime, a.ctime))))))),
                ),
              ),
            ),
          ),
        ))
        (λ (
          t,
          (
            mode,
            (
              nlink,
              (uid, (gid, (size, (used, (rdev, (fsid, (fileid, (atime, (mtime, ctime))))))))),
            ),
          ),
        ).
          record {
            ftype = t;
            mode = mode;
            nlink = nlink;
            uid = uid;
            gid = gid;
            size = size;
            used = used;
            rdev = rdev;
            fsid = fsid;
            fileid = fileid;
            atime = atime;
            mtime = mtime;
            ctime = ctime;
          })
        (nct_xdr_ftype3 &&& nct_xdr_mode3 &&& xdr_uint32 &&& nct_xdr_uid3 &&& nct_xdr_gid3
          &&& nct_xdr_size3 &&& nct_xdr_size3 &&& nct_xdr_specdata3 &&& xdr_uint64
          &&& nct_xdr_fileid3 &&& nct_xdr_nfstime3 &&& nct_xdr_nfstime3 &&& nct_xdr_nfstime3)

  abbrev pub nct_xdr_mountstat3_decode : Codec ℕ
  nct_xdr_mountstat3_decode = lib.xdr_enum

  unfoldable pub nct_xdr_mountres3_ok : Codec Mountres3Ok
  nct_xdr_mountres3_ok =
      members (λ r. (r.fhandle, r.auth_flavors)) (λ p. record { fhandle = p.0; auth_flavors = p.1 })
        (xdr_fhandle3 &&& lib.xdr_array_int (2 ^ 32 - 1))

  -- What the reply of MOUNT3_MNT decodes to: FALSE; a status that is not MNT3_OK; or the result.
  pub data Mountres3 : Type 0 where
    undecodable : Mountres3
    refused : ℕ → Mountres3
    mounted : Mountres3Ok → Mountres3

  abbrev pub mount_result : Option (Mountres3Ok × List ℕ) → Mountres3
  mount_result none = undecodable
  mount_result (some (r, _)) = mounted r

  abbrev pub mount_status : Option (ℕ × List ℕ) → Mountres3
  mount_status none = undecodable
  mount_status (some (status, rest)) =
      if status == mnt3_ok then mount_result (nct_xdr_mountres3_ok.decode rest) else refused status

  unfoldable pub nct_xdr_mountres3_decode : List ℕ → Mountres3
  nct_xdr_mountres3_decode msg = mount_status (nct_xdr_mountstat3_decode.decode msg)

  abbrev pub nct_xdr_fh3 : Codec (List ℕ)
  nct_xdr_fh3 = lib.xdr_bytes nfs3_fhsize

  abbrev pub nct_xdr_getattr3_encode : Codec (List ℕ)
  nct_xdr_getattr3_encode = nct_xdr_fh3

  abbrev pub nct_xdr_getattr3_resok : Codec Fattr3
  nct_xdr_getattr3_resok = nct_xdr_fattr3

  unfoldable pub nct_xdr_read3_encode : Codec Read3Args
  nct_xdr_read3_encode =
      members (λ a. (a.file, (a.offset, a.count)))
        (λ (f, (o, c)). record { file = f; offset = o; count = c })
        (nct_xdr_fh3 &&& nct_xdr_offset3 &&& nct_xdr_count3)

  -- The attributes that a reply of NFS3_GETATTR decodes to, if it does, and `res.status`. `junk` is
  -- what that local holds before anything is decoded.
  abbrev pub attributes : ℕ → Option (Fattr3 × List ℕ) → Option Fattr3 × ℕ
  attributes status none = (none, status)
  attributes status (some (attrs, _)) = (some attrs, status)

  abbrev pub getattr_status : ℕ → Option (ℕ × List ℕ) → Option Fattr3 × ℕ
  getattr_status junk none = (none, junk)
  getattr_status junk (some (status, rest)) =
      if status == nfs3_ok
      then attributes status (nct_xdr_getattr3_resok.decode rest)
      else (none, status)

  unfoldable pub nct_xdr_getattr3_decode : ℕ → List ℕ → Option Fattr3 × ℕ
  nct_xdr_getattr3_decode junk body = getattr_status junk (nct_xdr_nfsstat3.decode body)
