-- ===== src/Tests/StatisticsTests.antt =====
-- The grouped ledger at concrete inputs.
use owlmatic.Prelude.{◌≡◌, refl, ◌&&◌, none, List, [], ◌∷◌}
use owlmatic.Ledger.{Row}
use owlmatic.Statistics.{DatePort, StatisticsReport, buckets, report, is_workflow, verified}
use owlmatic.Statistics.Grouping.{count_rows}
use owlmatic.Tests.Samples.{claimed_row, finished_row}

abbrev some_dates : DatePort
some_dates = record { date = λ t. 7; julianday = λ t. 100 }

abbrev some_rows : List Row
some_rows = finished_row ∷ claimed_row ∷ record finished_row { id = "run_2" } ∷ []

abbrev the_report : StatisticsReport
the_report = report none "t1" "t0" 7 1 (buckets some_dates "t0" "t1" some_rows) []

two_verified : count_rows some_dates "t0" "t1" (λ b. is_workflow b && verified b) some_rows ≡ 2
unfolding count_rows verified
two_verified = refl
