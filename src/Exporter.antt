-- ===== src/Exporter.antt =====
-- cmd/experiment/exporter.go: the metrics of an experiment as JSON, CSV and Markdown. The file
-- system, `encoding/json` and `encoding/csv` are parameters.
use node_decent_system.Prelude.{
  ℕ, ◌≡◌, refl, sym, ap, Option, none, some, List, [], ◌∷◌, ◌++◌, Result, ok, err, Bytes, Error,
  lit, decimal, length, none-ne-some,
}

-- The time stands as RFC 3339 writes it; the counts are not negative.
pub record ExperimentMetrics : Type 0 where
  pub experiment_name : Bytes
  pub timestamp : Bytes
  pub total_nodes : ℕ
  pub target_tps : ℕ
  pub achieved_tps : ℕ
  pub avg_latency_ms : ℕ
  pub memory_footprint : Bytes
  pub consensus : Bytes
  pub status : Bytes

pub record MetricExporter : Type 0 where
  pub metrics : ExperimentMetrics

unfoldable pub new_metric_exporter : ExperimentMetrics → MetricExporter
new_metric_exporter m = record { metrics = m }

-- The files on the disk. `mkdir_all` makes the directory of a path, and its error is dropped.
pub record Disk : Type 1 where
  pub Files : Type 0
  pub mkdir_all : Files → Bytes → Files
  pub write_file : Files → Bytes → Bytes → Files × Option Error
  pub create : Files → Bytes → Files × Option Error
  -- A file that is open, with the buffer of the CSV writer.
  pub write_row : Files → Bytes → List Bytes → Files × Option Error
  pub flush_and_close : Files → Bytes → Files

unfoldable pub csv_headers : List Bytes
csv_headers =
    lit "ExperimentName"
    ∷ lit "Timestamp"
    ∷ lit "TotalNodes"
    ∷ lit "TargetTPS"
    ∷ lit "AchievedTPS"
    ∷ lit "AvgLatencyMs"
    ∷ lit "MemoryFootprint"
    ∷ lit "Consensus"
    ∷ lit "Status"
    ∷ []

unfoldable pub csv_row : ExperimentMetrics → List Bytes
csv_row m =
    m.experiment_name
    ∷ m.timestamp
    ∷ decimal m.total_nodes
    ∷ decimal m.target_tps
    ∷ decimal m.achieved_tps
    ∷ decimal m.avg_latency_ms
    ∷ m.memory_footprint
    ∷ m.consensus
    ∷ m.status
    ∷ []

-- A line of the Markdown text, with its end.
line : Bytes → Bytes
line text = text ++ 10 ∷ []

table_row : Bytes → Bytes → Bytes
unfolding line
table_row name value = line (lit "| **" ++ (name ++ (lit "** | " ++ (value ++ lit " |"))))

unfoldable pub markdown : ExperimentMetrics → Bytes
unfolding line table_row
markdown m =
    line (lit "# Experiment Results: " ++ m.experiment_name)
    ++ (line []
        ++ (line (lit "- **Timestamp:** " ++ m.timestamp)
            ++ (line (lit "- **Status:** " ++ m.status)
                ++ (line []
                    ++ (line (lit "| Parameter | Value |")
                        ++ (line (lit "| :--- | :--- |")
                            ++ (table_row (lit "Total Nodes") (decimal m.total_nodes)
                                ++ (table_row (lit "Target TPS")
                                      (decimal m.target_tps ++ lit " TPS")
                                    ++ (table_row (lit "Achieved TPS")
                                          (decimal m.achieved_tps ++ lit " TPS")
                                        ++ (table_row (lit "Avg Latency")
                                              (decimal m.avg_latency_ms ++ lit " ms")
                                            ++ (table_row (lit "Memory Footprint")
                                                  m.memory_footprint
                                                ++ table_row (lit "Consensus Engine")
                                                    m.consensus)))))))))))

module _ (disk : Disk) where
  write_encoded : disk.Files → Bytes → Result Error Bytes → disk.Files × Option Error
  write_encoded fs path (err e) = (fs, some e)
  write_encoded fs path (ok text) = disk.write_file fs path text

  unfoldable pub export_json :
      (ExperimentMetrics → Result Error Bytes)
      → MetricExporter
      → disk.Files
      → Bytes
      → disk.Files × Option Error
  unfolding write_encoded
  export_json marshal_indent e fs path =
      write_encoded (disk.mkdir_all fs path) path (marshal_indent e.metrics)

  unfoldable pub export_markdown : MetricExporter → disk.Files → Bytes → disk.Files × Option Error
  export_markdown e fs path = disk.write_file (disk.mkdir_all fs path) path (markdown e.metrics)

  -- The deferred calls, behind what the function returns.
  closing : Bytes → disk.Files × Option Error → disk.Files × Option Error
  closing path (fs, e) = (disk.flush_and_close fs path, e)

  with_header : Bytes → List Bytes → disk.Files × Option Error → disk.Files × Option Error
  unfolding closing
  with_header path row (fs, some e) = closing path (fs, some e)
  with_header path row (fs, none) = closing path (disk.write_row fs path row)

  created : Bytes → List Bytes → disk.Files × Option Error → disk.Files × Option Error
  unfolding with_header
  created path row (fs, some e) = (fs, some e)
  created path row (fs, none) = with_header path row (disk.write_row fs path csv_headers)

  unfoldable pub export_csv : MetricExporter → disk.Files → Bytes → disk.Files × Option Error
  unfolding created
  export_csv e fs path =
      created path (csv_row e.metrics) (disk.create (disk.mkdir_all fs path) path)

-- A row has a field for each of the headers.
length-csv_row : (m : ExperimentMetrics) → length (csv_row m) ≡ length csv_headers
unfolding csv_row csv_headers
length-csv_row m = refl

module _ (disk : Disk) where
  -- An export that reports no error has made the file and written the headers and then the row; the
  -- buffer is flushed at the end, and whether that succeeds is not reported.
  pub export_csv-writes :
      (e : MetricExporter) (fs fs' : disk.Files) (path : Bytes)
      → export_csv disk e fs path ≡ (fs', none)
      → let made = disk.create (disk.mkdir_all fs path) path in
        let headed = disk.write_row made.0 path csv_headers in
        let filled = disk.write_row headed.0 path (csv_row e.metrics) in
        (made.1 ≡ none)
        × (headed.1 ≡ none)
        × (filled.1 ≡ none)
        × (fs' ≡ disk.flush_and_close filled.0 path)
  unfolding export_csv created with_header closing
  export_csv-writes e fs fs' path h = cases (disk.create (disk.mkdir_all fs path) path) h
    where
      rows :
          (r : disk.Files × Option Error)
          → with_header disk path (csv_row e.metrics) r ≡ (fs', none)
          → let filled = disk.write_row r.0 path (csv_row e.metrics) in
            (r.1 ≡ none) × (filled.1 ≡ none) × (fs' ≡ disk.flush_and_close filled.0 path)
      rows (g, some x) k = absurd (none-ne-some (sym (ap (λ p. p.1) k)))
      rows (g, none) k = (refl, ap (λ p. p.1) k, sym (ap (λ p. p.0) k))

      cases :
          (r : disk.Files × Option Error)
          → created disk path (csv_row e.metrics) r ≡ (fs', none)
          → let headed = disk.write_row r.0 path csv_headers in
            let filled = disk.write_row headed.0 path (csv_row e.metrics) in
            (r.1 ≡ none)
            × (headed.1 ≡ none)
            × (filled.1 ≡ none)
            × (fs' ≡ disk.flush_and_close filled.0 path)
      cases (g, some x) k = absurd (none-ne-some (sym (ap (λ p. p.1) k)))
      cases (g, none) k =
          let (headed, filled, done) = rows (disk.write_row g path csv_headers) k in
          (refl, headed, filled, done)
