-- ===== src/Stats/Gplot.antt =====
-- nct.c: nct_gplot, the script that it writes for gnuplot, and the plots that nct_stats_loop asks for.
--
-- fopen() and ctime() are arguments. What becomes of the command behind popen() has no effect on the
-- program.
use nct.Base.{
  ℕ, ◌+◌, ◌/◌, ◌^◌, ◌≤◌, ◌<◌, ◌≡◌, Bool, true, false, ◌||◌, leb, if◌then◌else◌, arith, u32, List,
  [], ◌∷◌, ◌++◌, length, length-append, Bool-cases, inl, inr,
}
use nct.Base.Decimal.{decimal}
use nct.Clp.Usage.{codes}

-- `n`, the length of the file's name, is what the branch for up to 10 leaves there.
pub record Tics : Type 0 where
  pub m : ℕ
  pub n : ℕ

abbrev tics : ℕ → ℕ → Tics
tics m n = record { m = m; n = n }

-- The seconds between two tics, and the minor tics between them, from the number of samples and the
-- samples in a second. An `int` from 2^31 on is negative.
unfoldable pub xtics : ℕ → ℕ → ℕ → Tics
xtics n nsamples sampersec =
    let m = u32 (nsamples / sampersec / 30) in
    if leb m 1 || leb (2 ^ 31) m
    then tics 1 10
    else if leb m 3
    then tics 3 3
    else if leb m 10
    then tics 10 n
    else if leb m 15
    then tics 15 3
    else if leb m 60
    then tics 30 3
    else if leb m 180
    then tics 60 6
    else if leb m 300
    then tics 180 3
    else tics 300 10

-- A plot of more than 30 seconds and less than a minute has a tic for every second, which are more
-- than 30.
pub xtics-second :
    (n nsamples sampersec : ℕ)
    → 30 < nsamples / sampersec
    → nsamples / sampersec < 60
    → ((xtics n nsamples sampersec).m ≡ 1)
      × (30 < nsamples / sampersec / (xtics n nsamples sampersec).m)
unfolding xtics
xtics-second n nsamples sampersec more less =
    let small : nsamples / sampersec / 30 ≤ 1 = omega arith in
    let whole : u32 (nsamples / sampersec / 30) ≤ 1 = omega arith in ground arith

-- The arguments of nct_gplot that are text.
pub record Plot : Type 0 where
  pub using : List ℕ
  pub title : List ℕ
  pub xlabel : List ℕ
  pub ylabel : List ℕ
  pub color : List ℕ

-- What nct_gplot comes to: the message `title too long`; the message of the failed fopen(); or the
-- script in a file, and the command.
pub data Plotted : Type 0 where
  title_too_long : Plotted
  cannot_open : (file : List ℕ) → Plotted
  plotted : (file script cmd : List ℕ) → Plotted

abbrev quoted : List ℕ → List ℕ
quoted s = b'"' ∷ s ++ b'"' ∷ []

abbrev line : List ℕ → List ℕ
line s = s ++ b'\n' ∷ []

abbrev pub file_of : List ℕ → List ℕ
file_of title = title ++ codes ".gnuplot"

-- sizeof(file) and sizeof(cmd)
abbrev pub file_size : ℕ
file_size = 128

abbrev pub cmd_size : ℕ
cmd_size = file_size + 32

abbrev tic_lines : Tics → List ℕ
tic_lines t =
    line (codes "set xtics 0, " ++ decimal t.m (codes " rotate by -30"))
    ++ line (codes "set mxtics " ++ decimal t.n [])

unfoldable pub plot_script : List ℕ → ℕ → ℕ → List ℕ → Plot → ℕ → List ℕ
plot_script now nsamples sampersec term p n =
    codes "# Created on "
    ++ now
    ++ line (codes "# " ++ decimal nsamples (codes " samples"))
    ++ line (codes "# " ++ decimal sampersec (codes " samples/sec"))
    ++ line (codes "set title " ++ quoted p.title)
    ++ line (codes "set output '" ++ p.title ++ codes "." ++ term ++ codes "'")
    ++ line (codes "set term " ++ term ++ codes " size 3840,1280")
    ++ line (codes "set size 1, 0.76")
    ++ line (codes "set origin 0, 0.24")
    ++ line (codes "set autoscale")
    ++ line (codes "set grid")
    ++ line (codes "set ylabel " ++ quoted p.ylabel)
    ++ line (codes "set ytics autofreq")
    ++ line (codes "set mytics 5")
    ++ line (codes "set yrange [0:]")
    ++ line (codes "set xlabel " ++ quoted p.xlabel)
    ++ tic_lines (xtics n nsamples sampersec)
    ++ codes "plot "
    ++ quoted (codes "raw")
    ++ codes " every ::1:::0 using "
    ++ p.using
    ++ codes " with lines lc rgbcolor "
    ++ quoted p.color
    ++ codes " title "
    ++ quoted p.title

-- nct_gplot
unfoldable pub nct_gplot : Bool → List ℕ → ℕ → ℕ → List ℕ → Plot → Plotted
nct_gplot opens now nsamples sampersec term p =
    let file = file_of p.title in
    let n = length file in
    if leb file_size n
    then title_too_long
    else if opens
    then plotted file (plot_script now nsamples sampersec term p n) (codes "gnuplot " ++ file)
    else cannot_open file

abbrev plot : List ℕ → List ℕ → List ℕ → List ℕ → Plot
plot using title ylabel color = record {
  using = using;
  title = title;
  xlabel = codes "seconds";
  ylabel = ylabel;
  color = color;
}

-- The plots of nct_stats_loop. The second on the axis is column 2 of `raw`, in microseconds.
abbrev pub stats_plots : List Plot
stats_plots =
    plot (codes "($2 / 1000000):(($10 * 1) / (1024 * 1024))") (codes "recv") (codes "MB / second")
      (codes "green")
    ∷ plot (codes "($2 / 1000000):(($9 * 1) / (1024 * 1024))") (codes "send") (codes "MB / second")
        (codes "red")
    ∷ plot (codes "($2 / 1000000):($4 / $5)") (codes "latency") (codes "usec/request")
        (codes "black")
    ∷ plot (codes "($2 / 1000000):($8 * 1)") (codes "requests") (codes "requests / seconds")
        (codes "blue")
    ∷ []

-- The command fits its buffer whenever the name of the file fits its own.
cmd-Fits :
    (opens : Bool) (now : List ℕ) (nsamples sampersec : ℕ) (term : List ℕ) (p : Plot)
    (file script cmd : List ℕ)
    → nct_gplot opens now nsamples sampersec term p ≡ plotted file script cmd
    → length cmd < cmd_size
unfolding nct_gplot
cmd-Fits true now nsamples sampersec term p file script cmd e =
    elim (Bool-cases (leb file_size (length (file_of p.title)))) [
      | inl long ↦
          let clash : title_too_long ≡ plotted file script cmd = rw long at e in
          let never : ⊥ = cc in absurd never
      | inr fits ↦
          let n = length (file_of p.title) in
          let whole : plotted (file_of p.title) (plot_script now nsamples sampersec term p n)
                (codes "gnuplot " ++ file_of p.title)
              ≡ plotted file script cmd =
            rw fits at e in
          let same : codes "gnuplot " ++ file_of p.title ≡ cmd = cc in
          rw (← same) (ground (arith, length-append (codes "gnuplot ") (file_of p.title)))
    ]
cmd-Fits false now nsamples sampersec term p file script cmd e =
    elim (Bool-cases (leb file_size (length (file_of p.title)))) [
      | inl long ↦
          let clash : title_too_long ≡ plotted file script cmd = rw long at e in
          let never : ⊥ = cc in absurd never
      | inr fits ↦
          let clash : cannot_open (file_of p.title) ≡ plotted file script cmd = rw fits at e in
          let never : ⊥ = cc in absurd never
    ]

-- From two to five and a half minutes of samples, the number of minor tics is the length of the
-- file's name.
xtics-stale :
    (n nsamples sampersec : ℕ)
    → 120 ≤ nsamples / sampersec
    → nsamples / sampersec < 330
    → (xtics n nsamples sampersec).n ≡ n
unfolding xtics
xtics-stale n nsamples sampersec more less = ground arith
