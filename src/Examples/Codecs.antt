-- ===== src/Examples/Codecs.antt =====
-- nct_xdr.c: an XDR library of the simplest kind, tests, and the theorems of Xdr at concrete inputs.
use nct.Base.{
  ℕ, zero, suc, ◌≡◌, refl, ◌++◌, none, some, List, [], ◌∷◌, length, take, drop, take-append,
  drop-append, Option,
}
use nct.Base.Integers.{ℤ, pos, negsuc}
use nct.Xdr.Proc.{Codec, RoundTrips, members, ◌&&&◌}
use nct.Xdr.{
  XdrLib, Fattr3, nct_xdr_read3_encode, nct_xdr_mountres3_ok, nct_xdr_getattr3_decode,
  nct_xdr_mountres3_decode, mounted,
}
use nct.Xdr.Protocol.{join, nct_xdr_getattr3_decode-protocol}
use nct.Xdr.RoundTrip.{IsXdr, nct_xdr_read3_encode-RoundTrips, nct_xdr_mountres3_decode-encode}

abbrev first_of : List ℕ → Option (ℕ × List ℕ)
first_of [] = none
first_of (x ∷ rest) = some (x, rest)

-- A number is one element of the stream.
abbrev number : Codec ℕ
number = record { encode = λ x. some (x ∷ []); decode = first_of }

abbrev signed_of : List ℕ → Option (ℤ × List ℕ)
signed_of [] = none
signed_of (x ∷ []) = none
signed_of (zero ∷ y ∷ rest) = some (pos y, rest)
signed_of (suc n ∷ y ∷ rest) = some (negsuc y, rest)

-- An integer has its sign in front.
abbrev sign_and_number : ℤ → Option (List ℕ)
sign_and_number (pos n) = some (0 ∷ n ∷ [])
sign_and_number (negsuc n) = some (1 ∷ n ∷ [])

abbrev integer : Codec ℤ
integer = record { encode = sign_and_number; decode = signed_of }

abbrev counted : List ℕ → Option (List ℕ × List ℕ)
counted [] = none
counted (n ∷ rest) = some (take n rest, drop n rest)

-- A sequence has its length in front.
abbrev sequence : Codec (List ℕ)
sequence = record { encode = λ xs. some (length xs ∷ xs); decode = counted }

abbrev pub toy : XdrLib
toy = record {
  xdr_u_quad_t = number;
  xdr_u_long = number;
  xdr_quad_t = integer;
  xdr_long = integer;
  xdr_enum = number;
  xdr_bytes = λ _. sequence;
  xdr_string = λ _. sequence;
  xdr_array_int = λ _. sequence;
}

number-RoundTrips : RoundTrips number
number-RoundTrips = record {
  back = λ a bytes rest e. let same : bytes ≡ a ∷ [] = cc e in rw same refl;
}

sequence-RoundTrips : RoundTrips sequence
sequence-RoundTrips = record {
  back = λ a bytes rest e.
      let same : bytes ≡ length a ∷ a = cc e in
      rw (same, take-append a rest, drop-append a rest) refl;
}

pub toy-IsXdr : IsXdr toy
toy-IsXdr = record {
  quad = number-RoundTrips;
  long = number-RoundTrips;
  enums = number-RoundTrips;
  opaques = λ _. sequence-RoundTrips;
  ints = λ _. sequence-RoundTrips;
}

abbrev attrs : Fattr3
attrs = record {
  ftype = 1;
  mode = 420;
  nlink = 2;
  uid = 3;
  gid = 4;
  size = 5;
  used = 6;
  rdev = record { specdata1 = 7; specdata2 = 8 };
  fsid = 9;
  fileid = 10;
  atime = record { seconds = 11; nseconds = 12 };
  mtime = record { seconds = 13; nseconds = 14 };
  ctime = record { seconds = 15; nseconds = 16 };
}

read3_round_trip : RoundTrips (nct_xdr_read3_encode toy)
read3_round_trip = nct_xdr_read3_encode-RoundTrips toy toy-IsXdr

abbrev pub attrs_encoded : List ℕ
attrs_encoded = 1 ∷ 420 ∷ 2 ∷ 3 ∷ 4 ∷ 5 ∷ 6 ∷ 7 ∷ 8 ∷ 9 ∷ 10 ∷ 11 ∷ 12 ∷ 13 ∷ 14 ∷ 15 ∷ 16 ∷ []

nct_xdr_getattr3_decode-protocol_example :
    nct_xdr_getattr3_decode toy 9 (0 ∷ attrs_encoded ++ 77 ∷ []) ≡ (some attrs, 0)
unfolding join
nct_xdr_getattr3_decode-protocol_example =
    nct_xdr_getattr3_decode-protocol toy toy-IsXdr 9 0 attrs (0 ∷ []) attrs_encoded (77 ∷ []) refl
      refl

mountres3_decoded :
    nct_xdr_mountres3_decode toy (0 ∷ 2 ∷ 5 ∷ 6 ∷ 1 ∷ 1 ∷ [])
    ≡ mounted (record { fhandle = 5 ∷ 6 ∷ []; auth_flavors = 1 ∷ [] })
unfolding nct_xdr_mountres3_ok members ◌&&&◌
mountres3_decoded =
    nct_xdr_mountres3_decode-encode toy toy-IsXdr 0
      (record { fhandle = 5 ∷ 6 ∷ []; auth_flavors = 1 ∷ [] }) (0 ∷ []) (2 ∷ 5 ∷ 6 ∷ 1 ∷ 1 ∷ []) []
      refl refl
