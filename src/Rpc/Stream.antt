-- ===== src/Rpc/Stream.antt =====
-- nct_rpc_send and nct_rpc_recv as the two ends of one stream of marked records.
use nct.Base.{
  ℕ, zero, suc, ◌+◌, ◌/◌, ◌%◌, ◌^◌, ◌<◌, ◌≤◌, ◌≡◌, refl, ap, ◌∙◌, true, some, List, [], ◌∷◌, ◌++◌,
  map, arith, length, concat, All, length-append, append_assoc, take, drop, drop-append, sub64,
  sub64_exact, htonl, ntohl, ntohl-htonl, le→ltb, ne→==, take-append-drop, length-drop, subst,
}
use nct.Rpc.{
  Sent, sent, send_failed, count, Reader, Received, got, waits, for_data, set_last, send_loop,
  put_mark, nct_rpc_send, nct_rpc_recv, resume, on_recv, again, enter_record, begin_record,
}
use nct.Rpc.Framing.{Framed, NonEmpty, no_mark, read_loop}

-- The mark of a record that is the last fragment of its message.
abbrev pub last_mark : ℕ → List ℕ
last_mark n = htonl (n + 2 ^ 31)

-- What is on the wire is always a prefix of the buffer, and all of it if the loop reports success.
pub send_loop-prefix :
    (bufsz : ℕ) (buf : List ℕ) (es : List Sent)
    → (rest : List ℕ) × ((send_loop bufsz buf es).1 ++ rest ≡ buf)
unfolding send_loop
send_loop-prefix bufsz [] es = ([], refl)
send_loop-prefix bufsz (b ∷ buf) [] = (b ∷ buf, refl)
send_loop-prefix bufsz (b ∷ buf) (send_failed ∷ es) = (b ∷ buf, refl)
send_loop-prefix bufsz (b ∷ buf) (sent zero ∷ es) = (b ∷ buf, refl)
send_loop-prefix bufsz (b ∷ buf) (sent (suc n) ∷ es) =
    let (rest, e) = send_loop-prefix bufsz (drop n buf) es in
    (
      rest,
      ap (◌∷◌ b)
          (append_assoc (take n buf) _ rest ∙ ap (◌++◌ (take n buf)) e ∙ take-append-drop n buf),
    )

pub send_loop_complete :
    (n : ℕ) (buf : List ℕ) (es : List Sent)
    → (send_loop (suc n) buf es).0 ≡ some (count (suc n))
    → (send_loop (suc n) buf es).1 ≡ buf
unfolding send_loop
send_loop_complete n [] es e = refl
send_loop_complete n (b ∷ buf) [] e = cc
send_loop_complete n (b ∷ buf) (send_failed ∷ es) e = cc
send_loop_complete n (b ∷ buf) (sent zero ∷ es) e = cc
send_loop_complete n (b ∷ buf) (sent (suc k) ∷ es) e =
    ap (◌∷◌ b)
      (ap (◌++◌ (take k buf)) (send_loop_complete n (drop k buf) es e) ∙ take-append-drop k buf)

-- If each send() takes at least one byte, as many calls as there are bytes are enough.
abbrev pub Progress : Sent → Type 0
Progress (sent n) = 0 < n
Progress send_failed = ⊥

pub send_loop-total :
    (bufsz : ℕ) (buf : List ℕ) (es : List Sent)
    → All Progress es
    → length buf ≤ length es
    → (send_loop bufsz buf es).0 ≡ some (count bufsz)
unfolding send_loop
send_loop-total bufsz [] es a h = refl
send_loop-total bufsz (b ∷ buf) [] a h = absurd (omega arith)
send_loop-total bufsz (b ∷ buf) (send_failed ∷ es) a h = absurd a.0
send_loop-total bufsz (b ∷ buf) (sent zero ∷ es) a h = absurd (omega arith)
send_loop-total bufsz (b ∷ buf) (sent (suc n) ∷ es) a h =
    send_loop-total bufsz (drop n buf) es a.1 (omega (arith, length-drop n buf))

module _ (hole p : List ℕ) (room : length hole ≡ 4) (small : length p < 2 ^ 31) where
  send_mark : set_last (sub64 (length (hole ++ p)) 4) ≡ length p + 2 ^ 31
  unfolding set_last
  send_mark =
      rw (length-append hole p, room, sub64_exact (4 + length p) 4 (omega arith) (omega arith))
        (ground arith)

  payload : drop 4 (hole ++ p) ≡ p
  payload = subst (λ k. drop k (hole ++ p) ≡ p) room (drop-append hole p)

  nct_rpc_send_lem :
      (es : List Sent)
      → nct_rpc_send (hole ++ p) es ≡ send_loop (suc (length p + 3)) (last_mark (length p) ++ p) es
  unfolding nct_rpc_send put_mark
  nct_rpc_send_lem es =
      let size : length (hole ++ p) ≡ suc (length p + 3) = omega (arith, length-append hole p) in
      rw (send_mark, payload, size)

  -- A send that reports success has put the record mark and the payload on the wire, however the
  -- kernel cut the writes.
  pub nct_rpc_send-wire :
      (es : List Sent)
      → (nct_rpc_send (hole ++ p) es).0 ≡ some (count (length p + 4))
      → (nct_rpc_send (hole ++ p) es).1 ≡ last_mark (length p) ++ p
  nct_rpc_send-wire es e =
      let size : length p + 4 ≡ suc (length p + 3) = omega arith in
      rw (nct_rpc_send_lem es) (
        send_loop_complete (length p + 3) _ es
          (rw (← nct_rpc_send_lem es) (e ∙ ap (λ k. some (count k)) size)))

  -- If each send() takes at least a byte, as many of them as the message has bytes are enough:
  -- nct_rpc_send returns, with the length of the message.
  pub nct_rpc_send-total :
      (es : List Sent)
      → All Progress es
      → length p + 4 ≤ length es
      → (nct_rpc_send (hole ++ p) es).0 ≡ some (count (length p + 4))
  unfolding htonl
  nct_rpc_send-total es a h =
      let size : suc (length p + 3) ≡ length p + 4 = omega arith in
      rw (nct_rpc_send_lem es, ← size)
        (send_loop-total (suc (length p + 3)) (last_mark (length p) ++ p) es a (omega arith))

module _ (bufsz : ℕ) (p q : List ℕ) (room : length p + 4 ≤ bufsz) (small : length p < 2 ^ 31)
    (four : length q ≡ 4) (cs : List (List ℕ)) (ne : All NonEmpty cs) (cut : concat cs ≡ p ++ q)
    (more : List Received) where
  opened :
      (s : Reader)
      → s.bufsz ≡ bufsz
      → (k : List ℕ) → s.markp ≡ some k
      → enter_record (last_mark (length p)) s ≡ waits (for_data (length p) (length p + 4) true) s
  unfolding enter_record begin_record
  opened s eb k em =
      let size : (length p + 2 ^ 31) % 2 ^ 31 ≡ length p = omega arith in
      let flag : (length p + 2 ^ 31) / 2 ^ 31 % 2 ≡ 1 = omega arith in
      rw (
        ntohl-htonl (length p + 2 ^ 31) (omega arith),
        size,
        flag,
        em,
        eb,
        le→ltb bufsz (length p + 4) room,
      )

  framed :
      (s : Reader) (k : List ℕ)
      → s.mem ≡ []
      → s.bufsz ≡ bufsz
      → s.markp ≡ some k
      → Framed p q
          (length p)
          more
          (resume (enter_record (last_mark (length p)) s) (map got cs ++ more))
  framed s k em eb ek = rw (opened s eb k ek) (
      read_loop (length p) (length p + 4) s cs more p q ek four (rw em cut) ne
        (omega (arith, ap length cut, length-append p q)) (omega arith) (omega arith))

  -- No mark is stored: the call reads one, then the record behind it. It returns the length of the
  -- record with the record in the buffer, and leaves the four bytes `q` that follow either at
  -- `markp` or in the stream, whatever the sizes of the reads.
  pub nct_rpc_recv-Framed :
      Framed p q
        (length p)
        more
        (nct_rpc_recv bufsz (some no_mark) (got (last_mark (length p)) ∷ map got cs ++ more))
  unfolding nct_rpc_recv resume on_recv again ntohl htonl
  nct_rpc_recv-Framed = framed _ no_mark refl refl refl

  -- With the mark of the record at `markp`, where the call before stored it, nct_rpc_recv reads no
  -- mark: it delivers the whole record into the buffer, and leaves the four bytes `q` that follow
  -- either at `markp` or in the stream, whatever the sizes of the reads.
  pub nct_rpc_recv_stored-Framed :
      Framed p q
        (length p)
        more
        (nct_rpc_recv bufsz (some (last_mark (length p))) (map got cs ++ more))
  unfolding nct_rpc_recv again
  nct_rpc_recv_stored-Framed =
      let there : ntohl (last_mark (length p)) ≡ length p + 2 ^ 31 =
        ntohl-htonl (length p + 2 ^ 31) (omega arith) in
      rw (there, ne→== (length p + 2 ^ 31) 0 (omega arith))
        (framed _ (last_mark (length p)) refl refl refl)

-- What nct_rpc_send puts on the wire for a payload, nct_rpc_recv takes off it if it has a place for
-- the next mark and the next record stands behind this one: the payload is returned whole, and
-- nothing of the next record's mark is lost.
pub send-recv :
    (hole p q : List ℕ) (es : List Sent) (bufsz : ℕ) (cs : List (List ℕ)) (more : List Received)
    → length hole ≡ 4
    → length p < 2 ^ 31
    → length p + 4 ≤ bufsz
    → length q ≡ 4
    → (nct_rpc_send (hole ++ p) es).0 ≡ some (count (length p + 4))
    → All NonEmpty cs
    → concat cs ≡ drop 4 (nct_rpc_send (hole ++ p) es).1 ++ q
    → Framed p q (length p) more (
        nct_rpc_recv bufsz
          (some no_mark)
          (got (take 4 (nct_rpc_send (hole ++ p) es).1) ∷ map got cs ++ more))
unfolding htonl
send-recv hole p q es bufsz cs more h small room four ok ne cut =
    let wire : (nct_rpc_send (hole ++ p) es).1 ≡ last_mark (length p) ++ p =
      nct_rpc_send-wire hole p h small es ok in
    let mark : take 4 (nct_rpc_send (hole ++ p) es).1 ≡ last_mark (length p) = ap (take 4) wire in
    rw mark (
      nct_rpc_recv-Framed bufsz p q room small four cs ne (cut ∙ ap (λ w. drop 4 w ++ q) wire) more)
