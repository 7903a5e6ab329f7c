-- ===== src/Xdr/RoundTrip.antt =====
-- nct_xdr.c: what one side encodes, the other decodes.
use nct.Base.{
  ℕ, ◌≡◌, refl, ap, ◌∙◌, none, some, List, ◌++◌, Bool-cases, ◌==◌, if◌then◌else◌, inl, inr,
}
use nct.Xdr.Proc.{RoundTrips, &&&-RoundTrips, members-RoundTrips}
use nct.Xdr.{
  XdrLib, Fattr3, Mountres3Ok, nct_xdr_fattr3, nct_xdr_specdata3, nct_xdr_nfstime3,
  nct_xdr_read3_encode, nct_xdr_mountres3_ok, nct_xdr_getattr3_decode, nct_xdr_mountres3_decode,
  mounted, refused, nfs3_ok, mnt3_ok, getattr_status, attributes, mount_status, mount_result,
}

-- The library's procedures decode what they encode (RFC 4506).
pub record IsXdr (lib : XdrLib) : Type 0 where
  pub quad : RoundTrips lib.xdr_u_quad_t
  pub long : RoundTrips lib.xdr_u_long
  pub enums : RoundTrips lib.xdr_enum
  pub opaques : (n : ℕ) → RoundTrips (lib.xdr_bytes n)
  pub ints : (n : ℕ) → RoundTrips (lib.xdr_array_int n)

module _ (lib : XdrLib) (x : IsXdr lib) where
  nct_xdr_specdata3-RoundTrips : RoundTrips (nct_xdr_specdata3 lib)
  unfolding nct_xdr_specdata3
  nct_xdr_specdata3-RoundTrips = members-RoundTrips _ _ (λ s. refl) (&&&-RoundTrips x.long x.long)

  nct_xdr_nfstime3-RoundTrips : RoundTrips (nct_xdr_nfstime3 lib)
  unfolding nct_xdr_nfstime3
  nct_xdr_nfstime3-RoundTrips = members-RoundTrips _ _ (λ t. refl) (&&&-RoundTrips x.long x.long)

  nct_xdr_fattr3-RoundTrips : RoundTrips (nct_xdr_fattr3 lib)
  unfolding nct_xdr_fattr3
  nct_xdr_fattr3-RoundTrips =
      let time : RoundTrips (nct_xdr_nfstime3 lib) = nct_xdr_nfstime3-RoundTrips in
      members-RoundTrips _ _ (λ a. refl)
        (&&&-RoundTrips x.enums (
          &&&-RoundTrips x.long (
            &&&-RoundTrips x.long (
              &&&-RoundTrips x.long (
                &&&-RoundTrips x.long (
                  &&&-RoundTrips x.quad (
                    &&&-RoundTrips x.quad (
                      &&&-RoundTrips nct_xdr_specdata3-RoundTrips (
                        &&&-RoundTrips x.quad (
                          &&&-RoundTrips x.quad
                            (&&&-RoundTrips time (&&&-RoundTrips time time))))))))))))

  nct_xdr_mountres3_ok-RoundTrips : RoundTrips (nct_xdr_mountres3_ok lib)
  unfolding nct_xdr_mountres3_ok
  nct_xdr_mountres3_ok-RoundTrips =
      members-RoundTrips _ _ (λ r. refl) (&&&-RoundTrips (x.opaques _) (x.ints _))

  -- The arguments that nct_xdr_read3_encode encodes decode to the same arguments, with what stands
  -- behind them left, if the XDR library's procedures decode what they encode.
  pub nct_xdr_read3_encode-RoundTrips : RoundTrips (nct_xdr_read3_encode lib)
  unfolding nct_xdr_read3_encode
  nct_xdr_read3_encode-RoundTrips =
      members-RoundTrips _ _ (λ a. refl)
        (&&&-RoundTrips (x.opaques _) (&&&-RoundTrips x.quad x.long))

  -- nct_xdr_getattr3_decode takes from a reply the status and, if that is NFS3_OK, the attributes
  -- that stand behind it, whatever follows them. The XDR library's procedures decode what they
  -- encode.
  pub nct_xdr_getattr3_decode-encode :
      (junk status : ℕ) (a : Fattr3) (head body rest : List ℕ)
      → lib.xdr_enum.encode status ≡ some head
      → (nct_xdr_fattr3 lib).encode a ≡ some body
      → nct_xdr_getattr3_decode lib junk (head ++ (body ++ rest))
        ≡ (if status == nfs3_ok then some a else none, status)
  unfolding nct_xdr_getattr3_decode
  nct_xdr_getattr3_decode-encode junk status a head body rest eh eb =
      ap (getattr_status lib junk) (x.enums.back status head (body ++ rest) eh)
      ∙ elim (Bool-cases (status == nfs3_ok)) [
        | inl ok ↦
            rw ok (ap (attributes lib status) (nct_xdr_fattr3-RoundTrips.back a body rest eb))
        | inr other ↦ rw other refl
      ]

  -- nct_xdr_mountres3_decode takes from a reply the status and, if that is MNT3_OK, the file handle
  -- and the flavors that stand behind it, whatever follows them. The XDR library's procedures
  -- decode what they encode.
  pub nct_xdr_mountres3_decode-encode :
      (status : ℕ) (r : Mountres3Ok) (head body rest : List ℕ)
      → lib.xdr_enum.encode status ≡ some head
      → (nct_xdr_mountres3_ok lib).encode r ≡ some body
      → nct_xdr_mountres3_decode lib (head ++ (body ++ rest))
        ≡ (if status == mnt3_ok then mounted r else refused status)
  unfolding nct_xdr_mountres3_decode
  nct_xdr_mountres3_decode-encode status r head body rest eh eb =
      ap (mount_status lib) (x.enums.back status head (body ++ rest) eh)
      ∙ elim (Bool-cases (status == mnt3_ok)) [
        | inl ok ↦
            rw ok (ap (mount_result lib) (nct_xdr_mountres3_ok-RoundTrips.back r body rest eb))
        | inr other ↦ rw other refl
      ]
