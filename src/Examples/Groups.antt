-- ===== src/Examples/Groups.antt =====
-- A thread group of three threads, the second of which throws.
use akl.Base.{Option, ℕ, ◌+◌, ◌≡◌, refl, none, some, List, [], ◌∷◌, arith}
use akl.ThreadGroup.{Entry, construct}
use akl.ThreadGroup.Retries.{retry, messages, threads_of, launches, retry_lem}

abbrev entries : List Entry
entries =
    record { thread = 20; message = none }
    ∷ record { thread = 21; message = some 7 }
    ∷ record { thread = 22; message = none }
    ∷ []

-- The second thread is launched on a cpu.
abbrev cpus : List (Option ℕ)
cpus = none ∷ some 1 ∷ none ∷ []

retry_lem_example :
    retry (3 + 1) (3 + 1) entries (launches cpus construct) ≡ (messages entries, threads_of entries)
retry_lem_example = retry_lem cpus entries refl (omega arith)
