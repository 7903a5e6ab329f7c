-- ===== src/Stats/Print.antt =====
-- nct.c: what nct_stats_loop prints of its measures: the head and the lines of the file `raw`, and
-- the summary, less its line of latencies, which are fractions.
use nct.Base.{ℕ, ◌^◌, ◌<◌, ◌≡◌, refl, ap, ◌∙◌, List, [], ◌∷◌, ◌++◌, All}
use nct.Base.Decimal.{string_in, decimal, decimal_in, numbers, numbers_from, numbers-decimal_in}
use nct.Clp.Usage.{codes}
use nct.Req.State.{Stats}
use nct.Stats.Summary.{RawRow, SummaryLine}

-- The first lines of `raw`; `now` is what ctime() returns.
unfoldable pub raw_head : List ℕ → ℕ → ℕ → ℕ → List ℕ
raw_head now samples_tot samples_per_sec sample_period_usec =
    codes "# Created on "
    ++ now
    ++ codes "# "
    ++ decimal samples_tot (codes " samples" ++ b'\n' ∷ [])
    ++ codes "# "
    ++ decimal samples_per_sec (codes " samples/sec" ++ b'\n' ∷ [])
    ++ codes "# "
    ++ decimal sample_period_usec (codes " sample period (usecs)" ++ b'\n' ∷ [])
    ++ codes "# time, duration, and latency in usecs"
    ++ b'\n' ∷ codes "# send and recv in bytes"
    ++ b'\n' ∷ codes "#"
    ++ b'\n' ∷ codes "# "
    ++ string_in 8 (codes "SAMPLE")
    ++ b' ' ∷ string_in 10 (codes "TIME")
    ++ b' ' ∷ string_in 10 (codes "DURATION")
    ++ b' ' ∷ string_in 8 (codes "LATENCY")
    ++ b' ' ∷ string_in 8 (codes "OPS")
    ++ b' ' ∷ string_in 10 (codes "SEND")
    ++ b' ' ∷ string_in 10 (codes "RECV")
    ++ b' ' ∷ string_in 8 (codes "OPSRA")
    ++ b' ' ∷ string_in 10 (codes "SENDRA")
    ++ b' ' ∷ string_in 10 (codes "RECVRA")
    ++ b'\n' ∷ []

-- A line of `raw`, in front of what is printed behind it.
unfoldable pub raw_line : RawRow → List ℕ → List ℕ
raw_line r behind =
    b' '
    ∷ b' '
    ∷ decimal_in 8 r.sample (
        b' '
        ∷ decimal_in 10 r.time (
            b' '
            ∷ decimal_in 10 r.duration (
                b' '
                ∷ decimal_in 8 r.latency (
                    b' '
                    ∷ decimal_in 8 r.requests (
                        b' '
                        ∷ decimal_in 10 r.send (
                            b' '
                            ∷ decimal_in 10 r.recv (
                                b' '
                                ∷ decimal_in 8 r.requests_ra (
                                    b' '
                                    ∷ decimal_in 10 r.send_ra
                                        (b' ' ∷ decimal_in 10 r.recv_ra (b'\n' ∷ behind))))))))))

unfoldable pub raw_lines : List RawRow → List ℕ
raw_lines [] = []
raw_lines (r ∷ rs) = raw_line r (raw_lines rs)

-- The summary: its head, the lines of the measures, and those of what is only counted.
abbrev pub summary_head : List ℕ
summary_head =
    b'\n' ∷ string_in 12 (codes "MIN")
    ++ b' ' ∷ string_in 12 (codes "AVG")
    ++ b' ' ∷ string_in 12 (codes "MAX")
    ++ b' ' ∷ string_in 15 (codes "TOTAL")
    ++ codes "  DESC"
    ++ b'\n' ∷ []

abbrev pub measured : SummaryLine → List ℕ → List ℕ
measured l desc = decimal_in 12 l.min (
    b' '
    ∷ decimal_in 12 l.avg (
        b' '
        ∷ decimal_in 12 l.max (b' ' ∷ decimal_in 15 l.total (codes "  " ++ desc ++ b'\n' ∷ []))))

abbrev pub counted : ℕ → List ℕ → List ℕ
counted total desc =
    string_in 12 (codes "-")
    ++ b' ' ∷ string_in 12 (codes "-")
    ++ b' ' ∷ string_in 12 (codes "-")
    ++ b' ' ∷ decimal_in 15 total (codes "  " ++ desc ++ b'\n' ∷ [])

-- What stands behind the lines of the measures.
abbrev pub summary_tail : Stats → ℕ → ℕ → List ℕ
summary_tail m tds_max jobs_max =
    counted m.updates (codes "updates")
    ++ counted m.marks (codes "marks")
    ++ counted tds_max (codes "threads")
    ++ counted jobs_max (codes "jobs")

-- The columns of a line, from $1 on.
abbrev pub columns : RawRow → List ℕ
columns r =
    r.sample ∷ r.time ∷ r.duration ∷ r.latency ∷ r.requests ∷ r.send ∷ r.recv ∷ r.requests_ra
    ∷ r.send_ra ∷ r.recv_ra ∷ []

abbrev pub table : List RawRow → List ℕ
table [] = []
table (r ∷ rs) = columns r ++ table rs

-- The columns are words.
abbrev pub WordRow : RawRow → Type 0
WordRow r = All (λ n. n < 2 ^ 64) (columns r)

raw_line-numbers :
    (r : RawRow) (behind : List ℕ)
    → WordRow r
    → numbers (raw_line r behind) ≡ columns r ++ numbers behind
unfolding raw_line numbers_from
raw_line-numbers r behind (a, (b, (c, (d, (e, (f, (g, (h, (i, (j, _)))))))))) =
    numbers-decimal_in 8 r.sample b' ' _ a refl (
      numbers-decimal_in 10 r.time b' ' _ b refl (
        numbers-decimal_in 10 r.duration b' ' _ c refl (
          numbers-decimal_in 8 r.latency b' ' _ d refl (
            numbers-decimal_in 8 r.requests b' ' _ e refl (
              numbers-decimal_in 10 r.send b' ' _ f refl (
                numbers-decimal_in 10 r.recv b' ' _ g refl (
                  numbers-decimal_in 8 r.requests_ra b' ' _ h refl (
                    numbers-decimal_in 10 r.send_ra b' ' _ i refl
                      (numbers-decimal_in 10 r.recv_ra b'\n' _ j refl refl)))))))))

-- What is printed to `raw` reads back as the columns of the lines, in their order, if these are
-- words.
pub raw_lines-numbers : (rs : List RawRow) → All WordRow rs → numbers (raw_lines rs) ≡ table rs
unfolding raw_lines numbers_from
raw_lines-numbers [] h = refl
raw_lines-numbers (r ∷ rs) (w, h) =
    raw_line-numbers r (raw_lines rs) w ∙ ap (λ t. columns r ++ t) (raw_lines-numbers rs h)
