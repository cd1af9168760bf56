-- ===== src/Runtime/ChildLog.antt =====
-- pyxxl/runtime/process.py: the log of `process_handler_entry` in a child process, between the records
-- that `_run` of pyxxl/runtime/executor.py writes to the same file in the parent.
use mathlib.Core.List.{append-nil, append_assoc}
use pyxxl.Base.{
  get, ℕ, ◌≡◌, refl, ap, ◌∙◌, sym, String, true, false, Option, none, some, List, [], ◌∷◌, ◌++◌,
  empty, take, ◌≤◌, arith, nat_eq,
}
use pyxxl.Model.{RunData}
use pyxxl.Context.{Context, new_context, set_xxl_run_data, set_cancel_event, try_get_run_data}
use pyxxl.Runtime.Executor.State.{items}
use pyxxl.Runtime.Executor.Tasks.{Outcome}
use pyxxl.Runtime.Handlers.Process.{Payload, succeeded, failed}
use pyxxl.Logs.Loggers.{
  Logging, no_logging, disk_log, LogFactory, is_file_handler, Event, get_logger, after_running, run,
  new_logger,
}
use pyxxl.Logs.Handled.{times}
use pyxxl.Logs.Written.{is_steady, written, run-IsWritten}
use pyxxl.Logs.Lifetime.{disk_log_exact, disk_body, closed}
use pyxxl.Logs.Following.{disk_pages, room, disk_pages_all}
use pyxxl.Runtime.TaskLog.{
  LogEntry, started, error, end_entries, log_entries, entry_lines, written-append,
  written-log_entries, steady-append, steady-log_entries,
}

-- what `except BaseException` logs, by what is put into the queue; a child that is killed puts nothing
unfoldable pub child_entries : Option Payload → List LogEntry
child_entries none = []
child_entries (some (succeeded v)) = []
child_entries (some (failed text trace)) = error text ∷ []

module _ (format : Option ℕ → String → String) (lines : String → List String)
    (describe : LogEntry → String) where
  -- process_handler_entry, for the loggers of the child: `during` is logged by the handler. A child
  -- that is killed stops there.
  unfoldable pub process_handler_log :
      LogFactory → RunData → ℕ → List (Event format lines) → Option Payload → Logging → Logging
  unfolding set_xxl_run_data set_cancel_event new_logger child_entries log_entries
  process_handler_log f d event during none s = run format lines (get_logger f s d.log_id) during
  process_handler_log f d event during (some p) s =
      let c = set_cancel_event event (set_xxl_run_data d new_context) in
      (new_logger format lines f d.log_id
        (during ++ log_entries format lines describe c d (child_entries (some p))) false s c).0

  -- `_run` for the files, when a child process with loggers of its own runs the handler
  unfoldable pub process_logged_run :
      RunData
      → ℕ
      → Option String
      → Outcome
      → List (Event format lines)
      → Option Payload
      → Logging
      → Context
      → Logging
  unfolding process_handler_log log_entries
  process_logged_run d event hook outcome during put s c =
      let c₁ = set_xxl_run_data d c in
      let s₁ =
        run format lines (get_logger disk_log s d.log_id)
          (log_entries format lines describe c₁ d (started d ∷ [])) in
      let child =
        process_handler_log disk_log d event during put (record no_logging { files = s₁.files }) in
      let s₂ =
        run format lines (record s₁ { files = child.files })
          (log_entries format lines describe c₁ d (end_entries d hook outcome)) in
      after_running format lines disk_log s₂ d.log_id (try_get_run_data c₁)

  -- What the child adds to the file.
  child_files :
      (d : RunData) (event : ℕ) (during : List (Event format lines)) (put : Option Payload)
      (s : Logging)
      → times is_file_handler (items s.handlers d.log_id) ≡ 0
      → is_steady format lines d.log_id during ≡ true
      → items (process_handler_log disk_log d event during put s).files d.log_id
        ≡ items s.files d.log_id
          ++ (written format lines lines 1 d.log_id during
              ++ entry_lines format lines describe d (child_entries put))
  unfolding process_handler_log entry_lines child_entries
  child_files d event during none s unopened steady =
      (disk_body format lines d.log_id during s unopened steady).0
      ∙ ap (λ l. items s.files d.log_id ++ l)
          (sym (append-nil (written format lines lines 1 d.log_id during)))
  child_files d event during (some p) s unopened steady =
      let n = d.log_id in
      let c = set_xxl_run_data d (set_cancel_event event new_context) in
      let logs = log_entries format lines describe c d (child_entries (some p)) in
      let all : is_steady format lines n (during ++ logs) ≡ true =
        steady-append format lines describe n during logs
        ∙ ground (
          arith,
          steady,
          steady-log_entries format lines describe c d n (child_entries (some p)),
        ) in
      (disk_log_exact format lines n (during ++ logs) false s c unopened all).0
      ∙ ap (λ l. items s.files n ++ l)
          (written-append format lines describe lines 1 n during logs
            ∙ ap (λ l. written format lines lines 1 n during ++ l)
                (written-log_entries format lines describe (set_cancel_event event new_context) d
                  (child_entries (some p))))

  -- A child starts without handlers.
  child_unopened :
      (s : Logging) (n : ℕ)
      → times is_file_handler (items (record no_logging { files = s.files }).handlers n) ≡ 0
  unfolding no_logging empty times get
  child_unopened s n = refl

  -- All that stands in the file at the end.
  process_logged_run-files :
      (d : RunData) (event : ℕ) (hook : Option String) (outcome : Outcome)
      (during : List (Event format lines)) (put : Option Payload) (s : Logging) (c : Context)
      → times is_file_handler (items s.handlers d.log_id) ≡ 0
      → is_steady format lines d.log_id during ≡ true
      → items (process_logged_run d event hook outcome during put s c).files d.log_id
        ≡ ((items s.files d.log_id ++ entry_lines format lines describe d (started d ∷ []))
            ++ (written format lines lines 1 d.log_id during
                ++ entry_lines format lines describe d (child_entries put)))
          ++ entry_lines format lines describe d (end_entries d hook outcome)
  unfolding process_logged_run
  process_logged_run-files d event hook outcome during put s c unopened steady =
      let n = d.log_id in
      let c₁ = set_xxl_run_data d c in
      let starts = log_entries format lines describe c₁ d (started d ∷ []) in
      let finishes = log_entries format lines describe c₁ d (end_entries d hook outcome) in
      let steady_entries = steady-log_entries format lines describe c₁ d n in
      let (before, one, consoles) =
        disk_body format lines n starts s unopened (steady_entries (started d ∷ [])) in
      let s₁ = run format lines (get_logger disk_log s n) starts in
      let fresh_child = record no_logging { files = s₁.files } in
      let child = process_handler_log disk_log d event during put fresh_child in
      let s₂ = record s₁ { files = child.files } in
      let w =
        run-IsWritten format lines n finishes s₂ (steady_entries (end_entries d hook outcome)) in
      let own = written-log_entries format lines describe c d in
      ap (λ m. items m n)
        (closed format lines (run format lines s₂ finishes) n (try_get_run_data c₁)).0
      ∙ w.files
      ∙ ap (λ k. items child.files n ++ written format lines lines k n finishes) one
      ∙ ap (λ l. items child.files n ++ l) (own (end_entries d hook outcome))
      ∙ ap (λ l. l ++ entry_lines format lines describe d (end_entries d hook outcome))
          (child_files d event during put fresh_child (child_unopened s₁ n) steady
            ∙ ap
                (λ l.
                  l
                  ++ (written format lines lines 1 n during
                      ++ entry_lines format lines describe d (child_entries put)))
                (before ∙ ap (λ l. items s.files n ++ l) (own (started d ∷ []))))

  -- The lines of the exception that a child reports.
  abbrev pub caught_lines : RunData → Option Payload → List String
  caught_lines d none = []
  caught_lines d (some (succeeded v)) = []
  caught_lines d (some (failed text trace)) = lines (format (some d.log_id) (describe (error text)))

  caught_lines-entries :
      (d : RunData) (put : Option Payload)
      → entry_lines format lines describe d (child_entries put) ≡ caught_lines d put
  unfolding entry_lines child_entries
  caught_lines-entries d none = refl
  caught_lines-entries d (some (succeeded v)) = refl
  caught_lines-entries d (some (failed text trace)) =
      append-nil (lines (format (some d.log_id) (describe (error text))))

  -- A trigger of a process handler runs with its log in a directory; its log file is empty, the
  -- parent's logger of it has no handler of a file, and in the child nobody else opens or closes the
  -- logger. Whether the child comes to its end or is killed, and however the parent's wait ends: read
  -- by pages from line 1 on, the log holds, as far as the pages go, the lines of the parent's start,
  -- then of each record of level INFO or above that was written to it in the child, then of the
  -- exception that the child puts into the queue, if it puts one, then of the parent's end; each once.
  pub child_log_pages :
      (d : RunData) (event : ℕ) (hook : Option String) (outcome : Outcome)
      (during : List (Event format lines)) (put : Option Payload) (s : Logging) (c : Context)
      (k tail : ℕ)
      → 1 ≤ tail
      → times is_file_handler (items s.handlers d.log_id) ≡ 0
      → items s.files d.log_id ≡ []
      → is_steady format lines d.log_id during ≡ true
      → disk_pages k tail
          (items (process_logged_run d event hook outcome during put s c).files d.log_id)
          1
        ≡ take (room k tail) (
            entry_lines format lines describe d (started d ∷ [])
            ++ (written format lines lines 1 d.log_id during
                ++ (caught_lines d put
                    ++ entry_lines format lines describe d (end_entries d hook outcome))))
  child_log_pages d event hook outcome during put s c k tail ht unopened fresh steady =
      let first = entry_lines format lines describe d (started d ∷ []) in
      let middle = written format lines lines 1 d.log_id during in
      let caught = entry_lines format lines describe d (child_entries put) in
      let last = entry_lines format lines describe d (end_entries d hook outcome) in
      let files =
        process_logged_run-files d event hook outcome during put s c unopened steady
        ∙ ap (λ l. ((l ++ first) ++ (middle ++ caught)) ++ last) fresh
        ∙ append_assoc first (middle ++ caught) last
        ∙ ap (λ l. first ++ l) (append_assoc middle caught last)
        ∙ ap (λ l. first ++ (middle ++ (l ++ last))) (caught_lines-entries d put) in
      ap (λ l. disk_pages k tail l 1) files
      ∙ disk_pages_all k tail 1 (first ++ (middle ++ (caught_lines d put ++ last))) (omega arith) ht
