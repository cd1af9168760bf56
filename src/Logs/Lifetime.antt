-- ===== src/Logs/Lifetime.antt =====
-- One life of a task's logger, from `new_logger` to its end: what it leaves in the log, in the
-- logger's handlers and in the context.

use pyxxl.Base.{
  ℕ, suc, ◌+◌, ◌-◌, ◌≡◌, refl, ap, ◌∙◌, String, Bool, true, false, Option, List, [], ◌∷◌, ◌++◌,
  length, nat_eq, if◌then◌else◌, arith,
}
use pyxxl.Model.{RunData}
use pyxxl.Context.{Context, try_get_run_data, set_task_logger, reset_task_logger}
use pyxxl.Runtime.Executor.State.{items}
use pyxxl.Logs.Store.{emit_all}
use pyxxl.Logs.Loggers.{
  Handler, stream, file, redis, Logging, LogFactory, disk_log, redis_log, own_handler,
  max_log_tail_lines, is_file_handler, file_handlers, remove_handler, get_logger, close_files,
  after_running, Event, run, new_logger,
}
use pyxxl.Logs.Handled.{is_redis_handler, is_console_handler, times, times-append, items-set_same}
use pyxxl.Logs.Isolation.{removed, close_files-handlers, close_files-files}
use pyxxl.Logs.Written.{is_steady, written, whole, run-IsWritten}

length-file_handlers : (hs : List Handler) → length (file_handlers hs) ≡ times is_file_handler hs
unfolding file_handlers times
length-file_handlers [] = refl
length-file_handlers (h ∷ hs) = ground (arith, length-file_handlers hs)

files-remove_handler :
    (hs : List Handler) → times is_file_handler (remove_handler hs) ≡ times is_file_handler hs - 1
unfolding remove_handler times
files-remove_handler [] = refl
files-remove_handler (stream ∷ hs) = files-remove_handler hs
files-remove_handler (file ∷ hs) = ground arith
files-remove_handler (redis ∷ hs) = files-remove_handler hs

console-remove_handler :
    (hs : List Handler) → times is_console_handler (remove_handler hs) ≡ times is_console_handler hs
unfolding remove_handler times
console-remove_handler [] = refl
console-remove_handler (stream ∷ hs) = ground (arith, console-remove_handler hs)
console-remove_handler (file ∷ hs) = refl
console-remove_handler (redis ∷ hs) = console-remove_handler hs

module _ (format : Option ℕ → String → String) (lines : String → List String) where
  files-removed :
      (fhs hs : List Handler)
      → times is_file_handler (removed format lines fhs hs) ≡ times is_file_handler hs - length fhs
  unfolding removed
  files-removed [] hs = ground arith
  files-removed (fh ∷ fhs) hs =
      ground (arith, files-removed fhs (remove_handler hs), files-remove_handler hs)

  console-removed :
      (fhs hs : List Handler)
      → times is_console_handler (removed format lines fhs hs) ≡ times is_console_handler hs
  unfolding removed
  console-removed [] hs = refl
  console-removed (fh ∷ fhs) hs =
      console-removed fhs (remove_handler hs) ∙ console-remove_handler hs

  -- The handlers of a logger that was got once more.
  got :
      (f : LogFactory) (s : Logging) (n : ℕ) (kind : Handler → Bool)
      → times kind (items (get_logger f s n).handlers n)
        ≡ times kind (items s.handlers n) + times kind (stream ∷ own_handler f ∷ [])
  unfolding get_logger
  got f s n kind =
      rw (items-set_same s.handlers n (items s.handlers n ++ stream ∷ own_handler f ∷ []))
        (times-append kind (items s.handlers n) (stream ∷ own_handler f ∷ []))

  -- What a directory's logger has while it is in use.
  pub disk_body :
      (n : ℕ) (es : List (Event format lines)) (s : Logging)
      → times is_file_handler (items s.handlers n) ≡ 0
      → is_steady format lines n es ≡ true
      → let s₁ = run format lines (get_logger disk_log s n) es in
        (items s₁.files n ≡ items s.files n ++ written format lines lines 1 n es)
        × (times is_file_handler (items s₁.handlers n) ≡ 1)
        × (times is_console_handler (items s₁.handlers n)
            ≡ suc (times is_console_handler (items s.handlers n)))
  unfolding get_logger own_handler times
  disk_body n es s h steady =
      let w = run-IsWritten format lines n es (get_logger disk_log s n) steady in
      let one : times is_file_handler (items (get_logger disk_log s n).handlers n) ≡ 1 =
        got disk_log s n is_file_handler ∙ rw h refl in
      let more = got disk_log s n is_console_handler in
      (
        w.files ∙ ap (λ k. items s.files n ++ written format lines lines k n es) one,
        ap (times is_file_handler) w.handlers ∙ one,
        ap (times is_console_handler) w.handlers ∙ more ∙ ground arith,
      )

  redis_body :
      (n : ℕ) (es : List (Event format lines)) (s : Logging)
      → is_steady format lines n es ≡ true
      → let k = times is_redis_handler (items s.handlers n) in
        let s₁ = run format lines (get_logger redis_log s n) es in
        (items s₁.lists n
          ≡ emit_all max_log_tail_lines (items s.lists n) (written format lines whole (suc k) n es))
        × (times is_redis_handler (items s₁.handlers n) ≡ suc k)
  unfolding get_logger own_handler times
  redis_body n es s steady =
      let k = times is_redis_handler (items s.handlers n) in
      let w = run-IsWritten format lines n es (get_logger redis_log s n) steady in
      let more : times is_redis_handler (items (get_logger redis_log s n).handlers n) ≡ suc k =
        got redis_log s n is_redis_handler ∙ ground arith in
      (
        w.lists
            ∙ ap
                (λ k.
                  emit_all max_log_tail_lines (items s.lists n) (written format lines whole k n es))
                more,
        ap (times is_redis_handler) w.handlers ∙ more,
      )

  -- DiskLog.after_running: no file stays open, the console and the files stay as they are.
  pub closed :
      (s : Logging) (n : ℕ) (c : Option RunData)
      → let s' = after_running format lines disk_log s n c in
        (s'.files ≡ s.files)
        × (times is_file_handler (items s'.handlers n) ≡ 0)
        × (times is_console_handler (items s'.handlers n)
            ≡ times is_console_handler (items s.handlers n))
  unfolding after_running
  closed s n c =
      let hs = items s.handlers n in
      let fhs = file_handlers hs in
      let left : items (close_files format lines s n c fhs).handlers n
          ≡ removed format lines fhs hs =
        close_files-handlers format lines fhs s n c n ∙ ground arith in
      (
        close_files-files format lines fhs s n c,
        ap (times is_file_handler) left
            ∙ files-removed fhs hs
            ∙ ground (arith, length-file_handlers hs),
        ap (times is_console_handler) left ∙ console-removed fhs hs,
      )

  -- When the logger of a log id has no handler of a file, and nobody else opens or closes it:
  -- new_logger over a directory adds to the file of the log id the lines of each record that its body
  -- gives to that logger with the level INFO or above, once. When the body ends, no handler of a file
  -- is left on the logger and the context is what it was; when an exception leaves the body, the
  -- handler of the file stays on the logger, and the context keeps the logger. In both cases the logger
  -- has one handler for the console more than before.
  pub disk_log_exact :
      (n : ℕ) (es : List (Event format lines)) (raised : Bool) (s : Logging) (c : Context)
      → times is_file_handler (items s.handlers n) ≡ 0
      → is_steady format lines n es ≡ true
      → let (s', c') = new_logger format lines disk_log n es raised s c in
        (items s'.files n ≡ items s.files n ++ written format lines lines 1 n es)
        × (times is_file_handler (items s'.handlers n) ≡ (if raised then 1 else 0))
        × (times is_console_handler (items s'.handlers n)
            ≡ suc (times is_console_handler (items s.handlers n)))
        × (c' ≡ (if raised then (set_task_logger n c).1 else c))
  unfolding new_logger set_task_logger reset_task_logger
  disk_log_exact n es true s c h steady =
      let (files, one, more) = disk_body n es s h steady in (files, one, more, refl)
  disk_log_exact n es false s c h steady =
      let s₁ = run format lines (get_logger disk_log s n) es in
      let (files, one, more) = disk_body n es s h steady in
      let (kept, none_open, same) = closed s₁ n (try_get_run_data c) in
      (ap (λ d. items d n) kept ∙ files, none_open, same ∙ more, refl)

  -- Nobody else opens or closes the logger of a log id. When that logger has so many handlers of Redis
  -- from earlier uses of new_logger, each record of level INFO or above that the next body gives to
  -- it is pushed once by each of them and once by the handler of this use; and none of the handlers is
  -- taken off at the end.
  pub redis_log_repeats :
      (n : ℕ) (es : List (Event format lines)) (raised : Bool) (s : Logging) (c : Context)
      → is_steady format lines n es ≡ true
      → let k = times is_redis_handler (items s.handlers n) in
        let s' = (new_logger format lines redis_log n es raised s c).0 in
        (items s'.lists n
          ≡ emit_all max_log_tail_lines (items s.lists n) (written format lines whole (suc k) n es))
        × (times is_redis_handler (items s'.handlers n) ≡ suc k)
  unfolding new_logger after_running
  redis_log_repeats n es true s c steady = redis_body n es s steady
  redis_log_repeats n es false s c steady = redis_body n es s steady
