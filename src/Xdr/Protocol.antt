-- ===== src/Xdr/Protocol.antt =====
-- fattr3 on the wire, as RFC 1813 has it: the members in the protocol's order, written out without the
-- struct and without the composition of the procedures in nct_xdr.c.
use nct.Base.{
  ℕ, ◌≡◌, refl, ap, ◌∙◌, Option, none, some, List, [], ◌∷◌, ◌++◌, append_assoc, append-nil, ◌==◌,
  if◌then◌else◌,
}
use nct.Xdr.Proc.{encode_then, members, ◌&&&◌}
use nct.Xdr.{
  XdrLib, Fattr3, nct_xdr_fattr3, nct_xdr_specdata3, nct_xdr_nfstime3, nct_xdr_getattr3_decode,
  nfs3_ok,
}
use nct.Xdr.RoundTrip.{IsXdr, nct_xdr_getattr3_decode-encode}

-- Encodings one behind the other.
unfoldable pub join : List (Option (List ℕ)) → Option (List ℕ)
join [] = some []
join (x ∷ xs) = encode_then x (join xs)

encode_then_nil : (p : Option (List ℕ)) → encode_then p (some []) ≡ p
encode_then_nil none = refl
encode_then_nil (some xs) = ap some (append-nil xs)

encode_then_assoc :
    (p q r : Option (List ℕ)) → encode_then (encode_then p q) r ≡ encode_then p (encode_then q r)
encode_then_assoc none q r = refl
encode_then_assoc (some xs) none r = refl
encode_then_assoc (some xs) (some ys) none = refl
encode_then_assoc (some xs) (some ys) (some zs) = ap some (append_assoc xs ys zs)

module _ (lib : XdrLib) where
  -- The members in the order of RFC 1813: an enumeration, numbers of 32 bits, and numbers of 64 bits.
  abbrev pub protocol : Fattr3 → List (Option (List ℕ))
  protocol a =
      lib.xdr_enum.encode a.ftype
      ∷ lib.xdr_u_long.encode a.mode
      ∷ lib.xdr_u_long.encode a.nlink
      ∷ lib.xdr_u_long.encode a.uid
      ∷ lib.xdr_u_long.encode a.gid
      ∷ lib.xdr_u_quad_t.encode a.size
      ∷ lib.xdr_u_quad_t.encode a.used
      ∷ lib.xdr_u_long.encode a.rdev.specdata1
      ∷ lib.xdr_u_long.encode a.rdev.specdata2
      ∷ lib.xdr_u_quad_t.encode a.fsid
      ∷ lib.xdr_u_quad_t.encode a.fileid
      ∷ lib.xdr_u_long.encode a.atime.seconds
      ∷ lib.xdr_u_long.encode a.atime.nseconds
      ∷ lib.xdr_u_long.encode a.mtime.seconds
      ∷ lib.xdr_u_long.encode a.mtime.nseconds
      ∷ lib.xdr_u_long.encode a.ctime.seconds
      ∷ lib.xdr_u_long.encode a.ctime.nseconds
      ∷ []

  nct_xdr_fattr3-protocol : (a : Fattr3) → (nct_xdr_fattr3 lib).encode a ≡ join (protocol a)
  unfolding nct_xdr_fattr3 nct_xdr_specdata3 nct_xdr_nfstime3 members ◌&&&◌ join
  nct_xdr_fattr3-protocol a = simp (encode_then_assoc, encode_then_nil)

  -- nct_xdr_getattr3_decode takes from a reply the status and, if that is NFS3_OK, the attributes
  -- whose members stand behind it in the order and in the widths of RFC 1813, whatever follows them.
  -- The XDR library's procedures decode what they encode.
  pub nct_xdr_getattr3_decode-protocol :
      (x : IsXdr lib) (junk status : ℕ) (a : Fattr3) (head body rest : List ℕ)
      → lib.xdr_enum.encode status ≡ some head
      → join (protocol a) ≡ some body
      → nct_xdr_getattr3_decode lib junk (head ++ (body ++ rest))
        ≡ (if status == nfs3_ok then some a else none, status)
  nct_xdr_getattr3_decode-protocol x junk status a head body rest eh eb =
      nct_xdr_getattr3_decode-encode lib x junk status a head body rest eh
        (nct_xdr_fattr3-protocol a ∙ eb)
