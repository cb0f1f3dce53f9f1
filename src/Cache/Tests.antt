-- ===== src/Cache/Tests.antt =====
-- The cache at concrete histories.
use nexlog_server.Base.{ℕ, ◌≡◌, [], ◌∷◌, arith}
use nexlog_server.Cache.{get}
use nexlog_server.Cache.History.{put, clear, tick, History, run, within, latest, get-run}

abbrev history : History ℕ
history = (40, tick) ∷ (30, put "content" 8) ∷ (20, clear) ∷ (10, put "content" 7) ∷ []

get-run_example : get 50 "content" (run 25 history) ≡ within 25 50 (latest "content" history)
get-run_example =
    get-run 25 50 "content" history (omega arith, (omega arith, (omega arith, (omega arith, tt))))
