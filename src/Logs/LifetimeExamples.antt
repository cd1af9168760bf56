-- ===== src/Logs/LifetimeExamples.antt =====
-- Loggers of two tasks that write in turn, over a directory and over Redis.
use pyxxl.Base.{
  ℕ, suc, ◌≡◌, refl, String, true, false, Option, none, List, [], ◌∷◌, ◌++◌, empty, get, set,
  nat_eq,
}
use pyxxl.Context.{new_context}
use pyxxl.Runtime.Executor.State.{items}
use pyxxl.Logs.Store.{emit, emit_all}
use pyxxl.Logs.Loggers.{
  Logging, no_logging, disk_log, redis_log, info_level, debug_level, max_log_tail_lines,
  is_file_handler, Event, writes, new_logger,
}
use pyxxl.Logs.Handled.{times, is_console_handler, is_redis_handler}
use pyxxl.Logs.Isolation.{subject}
use pyxxl.Logs.Written.{is_steady, written, whole}
use pyxxl.Logs.Lifetime.{disk_log_exact, redis_log_repeats}

abbrev plain : Option ℕ → String → String
plain n text = text

abbrev one_line : String → List String
one_line text = text ∷ []

-- The task 8 writes a line between two calls of the logger of 7, of which the second is below INFO.
abbrev body : List (Event plain one_line)
body =
    (writes 7 none (record { level = info_level; content = "a" })
      ∷ writes 8 none (record { level = info_level; content = "b" })
      ∷ writes 7 none (record { level = debug_level; content = "c" })
      ∷ [])

unopened : (kind : _) → times kind (items no_logging.handlers 7) ≡ 0
unfolding no_logging empty get times
unopened kind = refl

body_steady : is_steady plain one_line 7 body ≡ true
unfolding is_steady subject
body_steady = refl

disk_log_exact_example :
    let (s, c) = new_logger plain one_line disk_log 7 body false no_logging new_context in
    (items s.files 7 ≡ items no_logging.files 7 ++ written plain one_line one_line 1 7 body)
    × (times is_file_handler (items s.handlers 7) ≡ 0)
    × (times is_console_handler (items s.handlers 7)
        ≡ suc (times is_console_handler (items no_logging.handlers 7)))
    × (c ≡ new_context)
disk_log_exact_example =
    disk_log_exact plain one_line 7 body false no_logging new_context (unopened is_file_handler)
      body_steady

abbrev used_once : Logging
used_once = (new_logger plain one_line redis_log 7 body false no_logging new_context).0

-- The second use pushes the line twice.
used_twice :
    items (new_logger plain one_line redis_log 7 body false used_once new_context).0.lists 7
    ≡ "a" ∷ "a" ∷ "a" ∷ []
unfolding new_logger no_logging get set emit
used_twice = refl

redis_log_repeats_example :
    let k = times is_redis_handler (items used_once.handlers 7) in
    let s = (new_logger plain one_line redis_log 7 body false used_once new_context).0 in
    (items s.lists 7
      ≡ emit_all max_log_tail_lines
          (items used_once.lists 7)
          (written plain one_line whole (suc k) 7 body))
    × (times is_redis_handler (items s.handlers 7) ≡ suc k)
redis_log_repeats_example =
    redis_log_repeats plain one_line 7 body false used_once new_context body_steady
