-- ===== src/Jobs/RegistryExamples.antt =====
-- The theorems on the registries at concrete inputs.
use daily_scheduler.Base.{◌≡◌, arith, none, some, [], ◌∷◌}
use daily_scheduler.Jobs.Model.{Registry, default_configuration}
use daily_scheduler.Jobs.Memory.{memory}
use daily_scheduler.Jobs.Store.{find_score, find_first}
use daily_scheduler.Jobs.Store.Listing.{listed}
use daily_scheduler.Jobs.Registries.{dequeue_any, empty, compact}
use daily_scheduler.Jobs.Registries.Dequeue.{IsDequeued, dequeue_any-IsDequeued}
use daily_scheduler.Jobs.Registries.Empty.{zscore-empty}
use daily_scheduler.Jobs.Cleaning.{clean_registries, get_job_names_before}
use daily_scheduler.Jobs.Cleaning.Abandoned.{first_abandoned, IsCleaned, clean_registries-IsCleaned}
use daily_scheduler.Jobs.Examples.{quiet, one_waiting, one_started}

dequeue_any-IsDequeued_example :
    IsDequeued memory
      ("high" ∷ "default" ∷ [])
      (some 10)
      one_waiting
      (dequeue_any memory 1 ("high" ∷ "default" ∷ []) (some 10) one_waiting)
dequeue_any-IsDequeued_example =
    dequeue_any-IsDequeued memory 0 ("high" ∷ "default" ∷ []) (some 10) one_waiting

zscore-empty_example :
    memory.zscore "default" Registry.queued "default::1" (empty memory "default" one_waiting) ≡ none
unfolding listed find_score find_first
zscore-empty_example = zscore-empty memory "default" "default::1" one_waiting (omega arith)

-- The job that was started at 101 with a timeout of 300 is abandoned at 1000.
clean_registries-IsCleaned_example :
    let compacted = compact memory "default" one_started in
    IsCleaned memory quiet default_configuration "default" 1000 1000 "abandoned" compacted
      (first_abandoned memory quiet default_configuration "default" 1000 1000 compacted
        (get_job_names_before memory quiet default_configuration "default" 1000 1000 compacted))
      (clean_registries memory quiet default_configuration "default" 1000
        (some 1000)
        "abandoned"
        one_started)
clean_registries-IsCleaned_example =
    clean_registries-IsCleaned memory quiet default_configuration "default" 1000 (some 1000)
      "abandoned" one_started
