-- ===== src/Metrics/Exposition.antt =====
-- The text of the metrics page (`render` and `escape`, metrics.rs). How an `f64` number of seconds
-- is written is an argument, over whole nanoseconds; the order of a map is that of its entries.
use tarsk.Base.{
  List, Option, Text, [], if◌then◌else◌, length, max, nat_eq, none, some, text, text_eq, ℕ, ◌++◌,
  ◌+◌, ◌==◌, ◌∷◌,
}
use tarsk.Broker.{u64}
use tarsk.Metrics.{Metrics, buckets}
use tarsk.Base.Decimal.{decimal}
use tarsk.Base.Dict.{Dict, lookup, or_else}

abbrev pub doubled_slash : ℕ → Text
doubled_slash x = if x == 92 then 92 ∷ 92 ∷ [] else x ∷ []

abbrev pub slashed_quote : ℕ → Text
slashed_quote x = if x == 34 then 92 ∷ 34 ∷ [] else x ∷ []

-- `str::replace` of one byte.
unfoldable pub replace_bytes : (ℕ → Text) → Text → Text
replace_bytes f [] = []
replace_bytes f (x ∷ xs) = f x ++ replace_bytes f xs

-- `escape`
unfoldable pub escape_label : Text → Text
unfolding replace_bytes
escape_label value = replace_bytes slashed_quote (replace_bytes doubled_slash value)

abbrev pub newline : Text
newline = 10 ∷ []

abbrev pub quoted : Text → Text
quoted value = 34 ∷ value ++ 34 ∷ []

abbrev pub type_line : (name kind : Text) → Text
type_line name kind = text "# TYPE " ++ name ++ text " " ++ kind ++ newline

abbrev pub help_line : (name words : Text) → Text
help_line name words = text "# HELP " ++ name ++ text " " ++ words ++ newline

abbrev pub row : (name value : Text) → Text
row name value = name ++ text " " ++ value ++ newline

unfoldable pub counter_rows : List (Text × ℕ) → Text
counter_rows [] = []
counter_rows ((name, value) ∷ rest) =
    let total = text "tarsk_" ++ name ++ text "_total" in
    type_line total (text "counter") ++ row total (decimal value) ++ counter_rows rest

abbrev pub queue_row : (queue state : Text) → ℕ → Text
queue_row queue state value =
    row
      (text "tarsk_queue_jobs{queue=" ++ quoted queue ++ text ",state=" ++ quoted state ++ text "}")
      (decimal value)

unfoldable pub queue_rows : List (Text × (ℕ × ℕ × ℕ × ℕ)) → Text
queue_rows [] = []
queue_rows ((queue, (ready, in_flight, delayed, dead)) ∷ rest) =
    queue_row queue (text "ready") ready
    ++ queue_row queue (text "in_flight") in_flight
    ++ queue_row queue (text "delayed") delayed
    ++ queue_row queue (text "dead") dead
    ++ queue_rows rest

abbrev pub depth_part : List (Text × (ℕ × ℕ × ℕ × ℕ)) → Text
depth_part [] = []
depth_part (first ∷ rest) =
    help_line (text "tarsk_queue_jobs") (text "How much work is waiting, by queue and state.")
    ++ type_line (text "tarsk_queue_jobs") (text "gauge")
    ++ queue_rows (first ∷ rest)

abbrev pub reason_row : Dict Text ℕ → (reason : Text) → Text
reason_row reasons reason =
    row (text "tarsk_recycles_by_reason_total{reason=" ++ quoted reason ++ text "}")
      (decimal (or_else 0 (lookup reason reasons)))

abbrev pub reason_part : Dict Text ℕ → Text
reason_part reasons =
    help_line (text "tarsk_recycles_by_reason_total") (text "Which limit retired a child.")
    ++ type_line (text "tarsk_recycles_by_reason_total") (text "counter")
    ++ reason_row reasons (text "max_rss")
    ++ reason_row reasons (text "max_tasks")
    ++ reason_row reasons (text "max_lifetime")

abbrev pub task_row : (task outcome : Text) → ℕ → Text
task_row task outcome value =
    row
      (text "tarsk_tasks_total{task="
        ++ quoted (escape_label task)
        ++ text ",outcome="
        ++ quoted outcome
        ++ text "}")
      (decimal value)

unfoldable pub task_rows : Dict Text (ℕ × ℕ) → Text
task_rows [] = []
task_rows ((task, (succeeded, failed)) ∷ rest) =
    task_row task (text "ok") succeeded ++ task_row task (text "failed") failed ++ task_rows rest

unfoldable pub largest_of : Dict ℕ ℕ → ℕ
largest_of [] = 0
largest_of ((pid, bytes) ∷ rest) = max bytes (largest_of rest)

unfoldable pub total_of : Dict ℕ ℕ → ℕ
total_of [] = 0
total_of ((pid, bytes) ∷ rest) = bytes + total_of rest

abbrev pub rss_part : Dict ℕ ℕ → (supervisor_rss : ℕ) → Text
rss_part child_rss supervisor_rss =
    help_line (text "tarsk_child_rss_bytes_max")
      (text "Largest live child, the number the ceiling governs.")
    ++ type_line (text "tarsk_child_rss_bytes_max") (text "gauge")
    ++ row (text "tarsk_child_rss_bytes_max") (decimal (largest_of child_rss))
    ++ type_line (text "tarsk_child_rss_bytes_sum") (text "gauge")
    ++ row (text "tarsk_child_rss_bytes_sum") (decimal (u64 (total_of child_rss)))
    ++ help_line (text "tarsk_supervisor_rss_bytes")
        (text "The constant this project claims is constant.")
    ++ type_line (text "tarsk_supervisor_rss_bytes") (text "gauge")
    ++ row (text "tarsk_supervisor_rss_bytes") (decimal supervisor_rss)
    ++ type_line (text "tarsk_children") (text "gauge")
    ++ row (text "tarsk_children") (decimal (length child_rss))

abbrev pub upper_label : (seconds : ℕ → Text) → Option ℕ → Text
upper_label seconds none = text "+Inf"
upper_label seconds (some upper) = seconds upper

-- The shorter of the two lists ends the rows.
unfoldable pub bucket_rows : (seconds : ℕ → Text) → List ℕ → List (Option ℕ) → Text
bucket_rows seconds [] uppers = []
bucket_rows seconds (n ∷ counts) [] = []
bucket_rows seconds (n ∷ counts) (upper ∷ uppers) =
    row
      (text "tarsk_task_duration_seconds_bucket{le="
        ++ quoted (upper_label seconds upper)
        ++ text "}")
      (decimal n)
    ++ bucket_rows seconds counts uppers

abbrev pub duration_part : (seconds : ℕ → Text) → Metrics → Text
duration_part seconds m =
    help_line (text "tarsk_task_duration_seconds")
      (text "Dispatch to answer, as the supervisor sees it.")
    ++ type_line (text "tarsk_task_duration_seconds") (text "histogram")
    ++ bucket_rows seconds m.histogram buckets
    ++ row (text "tarsk_task_duration_seconds_sum") (seconds m.duration_sum)
    ++ row (text "tarsk_task_duration_seconds_count") (decimal m.duration_count)

unfoldable pub render :
    (seconds : ℕ → Text) → Metrics → List (Text × ℕ) → Dict Text ℕ → (supervisor_rss : ℕ) → Text
unfolding counter_rows queue_rows escape_label task_rows largest_of total_of bucket_rows
render seconds m counters reasons supervisor_rss =
    counter_rows counters
    ++ depth_part m.depth
    ++ reason_part reasons
    ++ help_line (text "tarsk_tasks_total") (text "Tasks that reached a terminal answer.")
    ++ type_line (text "tarsk_tasks_total") (text "counter")
    ++ task_rows m.tasks
    ++ rss_part m.child_rss supervisor_rss
    ++ duration_part seconds m
