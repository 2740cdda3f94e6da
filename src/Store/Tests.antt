-- ===== src/Store/Tests.antt =====
-- A small table of rollups, for the theorems about traffic.go.
use singboxhub.Prelude.{ℕ, String, ◌≡◌, refl, true, some, List, [], ◌∷◌, ltb→lt, Bool}
use singboxhub.Prelude.Int.{ℤ, pos, ◌+ℤ◌}
use singboxhub.Store.Traffic.{
  RollupRow, merge_row, upsert_row, upsert_rollups, in_range, select, place_desc, order_desc,
  query_rollup, sum_all, sum_range,
}
use singboxhub.Store.Traffic.Totals.{upsert_rollups-sums}
use singboxhub.Store.Traffic.Pages.{IsKeyed, query_rollup-pages}

abbrev row : ℕ → ℤ → RollupRow
row start up = record {
  node_id = "n1";
  interval = "minute";
  bucket_start = start;
  up_bytes = up;
  down_bytes = pos 5;
  peak_up_bps = up;
  peak_down_bps = pos 5;
  max_connections = pos 1;
}

abbrev known : String → Bool
known _ = true

abbrev table : List RollupRow
table = row 120 (pos 10) ∷ row 60 (pos 20) ∷ row 180 (pos 30) ∷ []

abbrev batch : List RollupRow
batch = row 60 (pos 7) ∷ row 240 (pos 3) ∷ []

abbrev merged : RollupRow
merged = record (row 60 (pos 27)) { down_bytes = pos 10; peak_up_bps = pos 20 }

-- The batch meets one bucket that exists and one that does not.
stored :
    upsert_rollups known batch table
    ≡ some (row 120 (pos 10) ∷ merged ∷ row 180 (pos 30) ∷ row 240 (pos 3) ∷ [])
unfolding upsert_rollups upsert_row merge_row ◌+ℤ◌
stored = refl

upsert_rollups-sums_example :
    let after = row 120 (pos 10) ∷ merged ∷ row 180 (pos 30) ∷ row 240 (pos 3) ∷ [] in
    ((sum_all "n1" after).0 ≡ (sum_all "n1" table).0 +ℤ (sum_all "n1" batch).0)
    × ((sum_all "n1" after).1 ≡ (sum_all "n1" table).1 +ℤ (sum_all "n1" batch).1)
    × ((sum_range "n1" 60 120 after).0
        ≡ (sum_range "n1" 60 120 table).0 +ℤ (sum_range "n1" 60 120 batch).0)
    × ((sum_range "n1" 60 120 after).1
        ≡ (sum_range "n1" 60 120 table).1 +ℤ (sum_range "n1" 60 120 batch).1)
upsert_rollups-sums_example =
    upsert_rollups-sums known batch table
      (row 120 (pos 10) ∷ merged ∷ row 180 (pos 30) ∷ row 240 (pos 3) ∷ []) "n1" 60 120 stored

table-IsKeyed : IsKeyed table
table-IsKeyed = ((refl, (refl, tt)), ((refl, tt), (tt, tt)))

ordered :
    order_desc (select (in_range "n1" "minute" 0 1000) table)
    ≡ row 180 (pos 30) ∷ row 120 (pos 10) ∷ row 60 (pos 20) ∷ []
unfolding order_desc place_desc select
ordered = refl

query_rollup-pages_example :
    (query_rollup "n1" "minute" 0 1000 0 2 table ≡ row 180 (pos 30) ∷ row 120 (pos 10) ∷ [])
    × (query_rollup "n1" "minute" 0 1000 120 2 table ≡ row 60 (pos 20) ∷ [])
query_rollup-pages_example =
    query_rollup-pages "n1" "minute" 0 1000 2 table (row 180 (pos 30) ∷ []) (row 60 (pos 20) ∷ [])
      (row 120 (pos 10)) table-IsKeyed ordered (ltb→lt 0 120 refl)
