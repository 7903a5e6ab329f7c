-- ===== src/Examples/Printing.antt =====
-- nct.c and main.c: what is printed, and the theorem of Stats/Print at a concrete input.
use nct.Base.{ℕ, ◌≡◌, refl, true, false, List, [], ◌∷◌, ◌++◌, arith}
use nct.Base.Decimal.{numbers, decimal_from, spaces}
use nct.Clp.Usage.{codes}
use nct.Clp.Chars.{contains}
use nct.Req.Loop.{zero_stats}
use nct.Stats.Summary.{RawRow}
use nct.Stats.Print.{
  raw_head, raw_line, raw_lines, summary_head, measured, summary_tail, table, WordRow,
  raw_lines-numbers,
}
use nct.Stats.Gplot.{Plot, plotted, title_too_long, cannot_open, nct_gplot, plot_script, xtics}
use nct.Main.Names.{program_name, progname_uc, dprint_func, dprint, eprint}

abbrev row : RawRow
row = record {
  sample = 3;
  time = 1000000;
  duration = 100000;
  latency = 123456789;
  requests = 7;
  send = 560;
  recv = 840;
  requests_ra = 70;
  send_ra = 5600;
  recv_ra = 18446744073709551615;
}

raw_run :
    raw_line row []
    ≡ codes "         3    1000000     100000 123456789        7        560        840       70"
      ++ codes "       5600 18446744073709551615\n"
unfolding raw_line decimal_from spaces
raw_run = refl

head_run :
    raw_head (codes "now\n") 20 10 100000
    ≡ codes "# Created on now\n# 20 samples\n# 10 samples/sec\n# 100000 sample period (usecs)\n"
      ++ codes "# time, duration, and latency in usecs\n# send and recv in bytes\n#\n"
      ++ codes "#   SAMPLE       TIME   DURATION  LATENCY      OPS       SEND       RECV    OPSRA"
      ++ codes "     SENDRA     RECVRA\n"
unfolding raw_head decimal_from spaces
head_run = refl

summary_run :
    (summary_head ≡ codes "\n         MIN          AVG          MAX           TOTAL  DESC\n")
    × (measured (record { min = 1; avg = 2; max = 3; total = 4 }) (codes "requests per second")
        ≡ codes "           1            2            3               4  requests per second\n")
    × (summary_tail zero_stats 1 16
        ≡ codes "           -            -            -               0  updates\n"
          ++ codes "           -            -            -               0  marks\n"
          ++ codes "           -            -            -               1  threads\n"
          ++ codes "           -            -            -              16  jobs\n")
unfolding decimal_from spaces
summary_run = (refl, refl, refl)

raw_lines-numbers_example : numbers (raw_lines (row ∷ row ∷ [])) ≡ table (row ∷ row ∷ [])
raw_lines-numbers_example =
    let w : WordRow row = (
      omega arith,
      (
        omega arith,
        (
          omega arith,
          (
            omega arith,
            (
              omega arith,
              (omega arith, (omega arith, (omega arith, (omega arith, (omega arith, tt))))),
            ),
          ),
        ),
      ),
    ) in
    raw_lines-numbers (row ∷ row ∷ []) (w, (w, tt))

abbrev titled : List ℕ → Plot
titled s = record { using = []; title = s; xlabel = []; ylabel = []; color = [] }

-- A title of more than 119 bytes, and a file that cannot be opened.
plots :
    (nct_gplot false [] 20 10 (codes "svg") (titled (codes "recv"))
      ≡ cannot_open (codes "recv.gnuplot"))
    × (nct_gplot true [] 20 10 [] (titled (raw_line row (raw_line row []))) ≡ title_too_long)
unfolding nct_gplot raw_line decimal_from spaces
plots = (refl, refl)

-- What is printed for a plot of four minutes: `mxtics` is the length of recv.gnuplot.
script_run :
    nct_gplot true (codes "now\n") 2400 10 (codes "png") (record {
      using = codes "1:2";
      title = codes "recv";
      xlabel = codes "seconds";
      ylabel = codes "MB";
      color = codes "green";
    })
    ≡ plotted
        (codes "recv.gnuplot")
        (codes "# Created on now\n# 2400 samples\n# 10 samples/sec\nset title \"recv\"\n"
          ++ codes "set output 'recv.png'\nset term png size 3840,1280\nset size 1, 0.76\n"
          ++ codes "set origin 0, 0.24\nset autoscale\nset grid\nset ylabel \"MB\"\n"
          ++ codes "set ytics autofreq\nset mytics 5\nset yrange [0:]\nset xlabel \"seconds\"\n"
          ++ codes "set xtics 0, 10 rotate by -30\nset mxtics 12\nplot \"raw\" every ::1:::0 using "
          ++ codes "1:2 with lines lc rgbcolor \"green\" title \"recv\"")
        (codes "gnuplot recv.gnuplot")
unfolding nct_gplot plot_script xtics decimal_from spaces
script_run = refl

names :
    (program_name (codes "/usr/bin/nct") ≡ codes "nct")
    × (progname_uc (codes "./nct") ≡ codes "NCT")
    × (eprint (codes "nct") (codes "no\n") ≡ codes "nct: no\n")
    × (dprint 2 1 (codes "nct") (codes "main") 12 (codes "x") ≡ [])
    × (dprint 1 1 (codes "nct") (codes "main") 12 (codes "x") ≡ codes "x")
    × (dprint 1 2 (codes "nct") (codes "main") 12 (codes "x")
        ≡ codes "nct:             main   12:  x")
unfolding program_name contains eprint dprint_func decimal_from spaces
names = (refl, refl, refl, refl, refl, refl)
