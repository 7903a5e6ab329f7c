-- ===== src/Examples/Streams.antt =====
-- nct_rpc.c: tests, and the theorems of Rpc at concrete inputs.
use nct.Base.{
  ℕ, ◌≡◌, refl, none, some, List, [], ◌∷◌, ◌++◌, map, arith, All, take, sub64, htonl, ntohl, add64,
}
use nct.Rpc.{
  Sent, sent, send_failed, count, minus_one, got, recv_failed, returns, aborts, send_loop, put_mark,
  set_last, nct_rpc_send, nct_rpc_recv, resume, again, enter_record, begin_record, end_record,
  store, on_recv,
}
use nct.Rpc.Framing.{Framed, NonEmpty, no_mark}
use nct.Rpc.Stream.{last_mark, send-recv, nct_rpc_send-total}
use nct.Rpc.Fragments.{
  Delivered, more_mark, nct_rpc_recv-Delivered, nct_rpc_recv-short, nct_rpc_recv-two_fragments,
}

abbrev hole : List ℕ
hole = 0 ∷ 0 ∷ 0 ∷ 0 ∷ []

abbrev six : List ℕ
six = 1 ∷ 2 ∷ 3 ∷ 4 ∷ 5 ∷ 6 ∷ []

abbrev next_mark : List ℕ
next_mark = 128 ∷ 0 ∷ 0 ∷ 24 ∷ []

-- send() takes three bytes, then the rest.
abbrev two_writes : List Sent
two_writes = sent 3 ∷ sent 7 ∷ []

sent_wire : nct_rpc_send (hole ++ six) two_writes ≡ (some (count 10), 128 ∷ 0 ∷ 0 ∷ 6 ∷ six)
unfolding nct_rpc_send send_loop put_mark set_last sub64 htonl
sent_wire = refl

send_error :
    nct_rpc_send (hole ++ six) (sent 3 ∷ send_failed ∷ []) ≡ (some minus_one, 128 ∷ 0 ∷ 0 ∷ [])
unfolding nct_rpc_send send_loop put_mark set_last sub64 htonl
send_error = refl

-- The mark of the next record comes with the last bytes of this one, cut in two.
abbrev reads : List (List ℕ)
reads = (1 ∷ 2 ∷ []) ∷ (3 ∷ 4 ∷ 5 ∷ 6 ∷ 128 ∷ []) ∷ (0 ∷ 0 ∷ 24 ∷ []) ∷ []

reads-NonEmpty : All NonEmpty reads
reads-NonEmpty = (λ e. cc, (λ e. cc, (λ e. cc, tt)))

received :
    nct_rpc_recv 64 (some no_mark) (got (128 ∷ 0 ∷ 0 ∷ 6 ∷ []) ∷ map got reads)
    ≡ (returns (count 6) (record { mem = six; bufsz = 58; markp = some next_mark }), [])
unfolding nct_rpc_recv resume again enter_record begin_record end_record store on_recv ntohl sub64
    add64
received = refl

too_large : nct_rpc_recv 9 none (got (128 ∷ 0 ∷ 0 ∷ 6 ∷ []) ∷ []) ≡ (aborts, [])
unfolding nct_rpc_recv resume again enter_record on_recv ntohl
too_large = refl

lost_connection :
    nct_rpc_recv 64 none (got (128 ∷ 0 ∷ 0 ∷ 6 ∷ []) ∷ recv_failed ∷ [])
    ≡ (returns minus_one (record { mem = []; bufsz = 64; markp = none }), [])
unfolding nct_rpc_recv resume again enter_record begin_record on_recv ntohl
lost_connection = refl

send-recv_example : Framed six next_mark 6 [] (
    nct_rpc_recv 64
      (some no_mark)
      (got (take 4 (nct_rpc_send (hole ++ six) two_writes).1) ∷ map got reads ++ []))
unfolding nct_rpc_send send_loop put_mark set_last sub64 htonl
send-recv_example =
    send-recv hole six next_mark two_writes 64 reads [] refl (omega arith) (omega arith) refl refl
      reads-NonEmpty refl

nct_rpc_send-total_example :
    (nct_rpc_send (hole ++ []) (sent 1 ∷ sent 2 ∷ sent 3 ∷ sent 4 ∷ [])).0 ≡ some (count 4)
nct_rpc_send-total_example =
    nct_rpc_send-total hole [] refl (omega arith) (sent 1 ∷ sent 2 ∷ sent 3 ∷ sent 4 ∷ [])
      (omega arith) (omega arith)

abbrev three_and_three : List (List ℕ)
three_and_three = (1 ∷ 2 ∷ 3 ∷ []) ∷ (4 ∷ 5 ∷ 6 ∷ []) ∷ []

nct_rpc_recv-Delivered_example :
    Delivered six 6 [] (nct_rpc_recv 64 none (got (last_mark 6) ∷ map got three_and_three ++ []))
nct_rpc_recv-Delivered_example =
    nct_rpc_recv-Delivered 64 six three_and_three [] (omega arith) (omega arith) (omega arith)
      (λ e. cc, (λ e. cc, tt)) (omega arith) refl

-- The record 1 ... 6 in reads of two and four bytes.
short_read :
    Delivered
      (1 ∷ 2 ∷ [])
      6
      (got (3 ∷ 4 ∷ 5 ∷ 6 ∷ []) ∷ [])
      (nct_rpc_recv 64 none (got (last_mark 6) ∷ got (1 ∷ 2 ∷ []) ∷ got (3 ∷ 4 ∷ 5 ∷ 6 ∷ []) ∷ []))
short_read =
    nct_rpc_recv-short 64 1 (2 ∷ []) (3 ∷ 4 ∷ 5 ∷ 6 ∷ []) [] refl (omega arith) (omega arith)

two_fragments : Delivered (1 ∷ 2 ∷ 3 ∷ []) 1 [] (
    nct_rpc_recv 64 none
      (got (more_mark 2) ∷ got (1 ∷ 2 ∷ []) ∷ got (last_mark 1) ∷ got (3 ∷ []) ∷ []))
two_fragments =
    nct_rpc_recv-two_fragments 64 1 3 (2 ∷ []) [] [] (omega arith) (omega arith) (omega arith)
      (omega arith)
