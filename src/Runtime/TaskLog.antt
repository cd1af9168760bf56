-- ===== src/Runtime/TaskLog.antt =====
-- pyxxl/runtime/executor.py: what `_run` writes to the log of its task, from its context and
-- `new_logger` to the end of the `with`.
use mathlib.Core.List.{append_assoc}
use pyxxl.Base.{
  ℕ, ◌≡◌, refl, ap, ◌∙◌, sym, String, true, false, ◌&&◌, Option, none, some, List, [], ◌∷◌, ◌++◌,
  take, ◌≤◌, arith, leb, nat_beq, nat_beq_refl, nat_eq, Bool-cases, inl, inr,
}
use pyxxl.Model.{RunData}
use pyxxl.Context.{Context, set_xxl_run_data, try_get_run_data}
use pyxxl.Runtime.Executor.State.{items}
use pyxxl.Runtime.Executor.Tasks.{Outcome, returned, cancelled, timed_out, raised}
use pyxxl.Logs.Loggers.{
  Logging, LogFactory, disk_log, info_level, warning_level, error_level, is_file_handler, log_id_of,
  Event, opens, writes, closes, new_logger,
}
use pyxxl.Logs.Handled.{times, copies}
use pyxxl.Logs.Written.{is_steady, written}
use pyxxl.Logs.Lifetime.{disk_log_exact}
use pyxxl.Logs.Following.{disk_pages, room, disk_pages_all}

-- What `_run` logs: its start, its end, and the errors that it catches.
pub data LogEntry : Type 0 where
  started : RunData → LogEntry
  finished : ℕ → ℕ → LogEntry
  cancelled_error timeout_error : LogEntry
  error : String → LogEntry

-- `info`, `warning` or `exception`
unfoldable pub entry_level : LogEntry → ℕ
entry_level (started d) = info_level
entry_level (finished job log) = info_level
entry_level cancelled_error = info_level
entry_level timeout_error = warning_level
entry_level (error text) = error_level

-- what is logged behind `await handler.start(...)`, where `succeeded_callback` may raise
unfoldable pub end_entries : RunData → Option String → Outcome → List LogEntry
end_entries d hook (returned text) =
    finished d.job_id d.log_id ∷ elim hook [ none ↦ [] | some raised_text ↦ error raised_text ∷ [] ]
end_entries d hook cancelled = cancelled_error ∷ []
end_entries d hook timed_out = timeout_error ∷ []
end_entries d hook (raised text) = error text ∷ []

module _ (format : Option ℕ → String → String) (lines : String → List String)
    (describe : LogEntry → String) where
  unfoldable pub log_entry : Context → RunData → LogEntry → Event format lines
  unfolding entry_level try_get_run_data
  log_entry c d e =
      writes d.log_id (try_get_run_data c) (record { level = entry_level e; content = describe e })

  unfoldable pub log_entries : Context → RunData → List LogEntry → List (Event format lines)
  unfolding log_entry
  log_entries c d [] = []
  log_entries c d (e ∷ es) = log_entry c d e ∷ log_entries c d es

  -- the body of the `with`: `during` happens while the handler runs, `after` during the cleanup
  unfoldable pub run_body :
      Context
      → RunData
      → Option String
      → Outcome
      → List (Event format lines)
      → List (Event format lines)
      → List (Event format lines)
  unfolding log_entry log_entries end_entries
  run_body c d hook outcome during after =
      log_entry c d (started d) ∷ during ++ (log_entries c d (end_entries d hook outcome) ++ after)

  -- `_run` for the loggers and the context of its task, where no exception leaves it
  unfoldable pub logged_run :
      LogFactory
      → RunData
      → Option String
      → Outcome
      → List (Event format lines)
      → List (Event format lines)
      → Logging
      → Context
      → Logging × Context
  unfolding run_body set_xxl_run_data new_logger
  logged_run f d hook outcome during after s c =
      let c₁ = set_xxl_run_data d c in
      new_logger format lines f d.log_id (run_body c₁ d hook outcome during after) false s c₁

  -- The lines of entries in the log of a trigger.
  unfoldable pub entry_lines : RunData → List LogEntry → List String
  entry_lines d [] = []
  entry_lines d (e ∷ es) = lines (format (some d.log_id) (describe e)) ++ entry_lines d es

  pub written-append :
      (pieces : String → List String) (k n : ℕ) (xs ys : List (Event format lines))
      → written format lines pieces k n (xs ++ ys)
        ≡ written format lines pieces k n xs ++ written format lines pieces k n ys
  unfolding written
  written-append pieces k n [] ys = refl
  written-append pieces k n (opens f m ∷ xs) ys = written-append pieces k n xs ys
  written-append pieces k n (closes f m c ∷ xs) ys = written-append pieces k n xs ys
  written-append pieces k n (writes m c r ∷ xs) ys =
      elim (Bool-cases (nat_beq m n && leb info_level r.level)) [
        | inl own ↦
            rw (own, written-append pieces k n xs ys)
              (sym (
                append_assoc (copies k (pieces (format (log_id_of c) r.content)))
                  (written format lines pieces k n xs) (written format lines pieces k n ys)))
        | inr other ↦ rw other (written-append pieces k n xs ys)
      ]

  entry_level-info : (e : LogEntry) → leb info_level (entry_level e) ≡ true
  unfolding entry_level
  entry_level-info (started d) = refl
  entry_level-info (finished job log) = refl
  entry_level-info cancelled_error = refl
  entry_level-info timeout_error = refl
  entry_level-info (error text) = refl

  pub written-log_entries :
      (c : Context) (d : RunData) (es : List LogEntry)
      → written format lines lines 1 d.log_id (log_entries (set_xxl_run_data d c) d es)
        ≡ entry_lines d es
  unfolding written log_entries log_entry entry_lines copies entry_level set_xxl_run_data
      try_get_run_data log_id_of
  written-log_entries c d [] = refl
  written-log_entries c d (e ∷ es) =
      rw (entry_level-info e, written-log_entries c d es, nat_beq_refl d.log_id)
        (append_assoc (lines (format (some d.log_id) (describe e))) [] (entry_lines d es))

  pub steady-append :
      (n : ℕ) (xs ys : List (Event format lines))
      → is_steady format lines n (xs ++ ys)
        ≡ (is_steady format lines n xs && is_steady format lines n ys)
  unfolding is_steady
  steady-append n [] ys = refl
  steady-append n (x ∷ xs) ys = ground (arith, steady-append n xs ys)

  pub steady-log_entries :
      (c : Context) (d : RunData) (n : ℕ) (es : List LogEntry)
      → is_steady format lines n (log_entries c d es) ≡ true
  unfolding is_steady log_entries log_entry
  steady-log_entries c d n [] = refl
  steady-log_entries c d n (e ∷ es) = ground (arith, steady-log_entries c d n es)

  -- All that the body writes to the log of its trigger.
  written-run_body :
      (c : Context) (d : RunData) (hook : Option String) (outcome : Outcome)
      (during after : List (Event format lines))
      → written format lines lines 1 d.log_id
          (run_body (set_xxl_run_data d c) d hook outcome during after)
        ≡ entry_lines d (started d ∷ [])
          ++ (written format lines lines 1 d.log_id during
              ++ (entry_lines d (end_entries d hook outcome)
                  ++ written format lines lines 1 d.log_id after))
  unfolding run_body
  written-run_body c d hook outcome during after =
      let c₁ = set_xxl_run_data d c in
      let own = written format lines lines 1 d.log_id in
      let ending = log_entries c₁ d (end_entries d hook outcome) in
      let split = written-append lines 1 d.log_id in
      split (log_entries c₁ d (started d ∷ [])) (during ++ (ending ++ after))
      ∙ ap (λ l. l ++ own (during ++ (ending ++ after))) (written-log_entries c d (started d ∷ []))
      ∙ ap (λ l. entry_lines d (started d ∷ []) ++ l)
          (split during (ending ++ after)
            ∙ ap (λ l. own during ++ l)
                (split ending after
                  ∙ ap (λ l. l ++ own after)
                      (written-log_entries c d (end_entries d hook outcome))))

  steady-run_body :
      (c : Context) (d : RunData) (hook : Option String) (outcome : Outcome)
      (during after : List (Event format lines))
      → is_steady format lines d.log_id during ≡ true
      → is_steady format lines d.log_id after ≡ true
      → is_steady format lines d.log_id (run_body c d hook outcome during after) ≡ true
  unfolding run_body
  steady-run_body c d hook outcome during after before behind =
      let n = d.log_id in
      let ending = log_entries c d (end_entries d hook outcome) in
      let body = during ++ (ending ++ after) in
      steady-append n (log_entries c d (started d ∷ [])) body
      ∙ ground (
        arith,
        steady-log_entries c d n (started d ∷ []),
        steady-append n during (ending ++ after),
        steady-append n ending after,
        steady-log_entries c d n (end_entries d hook outcome),
        before,
        behind,
      )

  -- A trigger runs with its log in a directory; its log file is empty, its logger has no handler of a
  -- file, nobody else opens or closes the logger, and no child process writes to the file. Afterwards
  -- the log is read by pages from line 1 on: they hold, as far as they go, the lines of its start,
  -- then of each record of level INFO or above that was written while the handler ran, then of what
  -- its outcome makes `_run` write, then of such records written during its cleanup; each once.
  pub task_log_pages :
      (d : RunData) (hook : Option String) (outcome : Outcome)
      (during after : List (Event format lines)) (s : Logging) (c : Context) (k tail : ℕ)
      → 1 ≤ tail
      → times is_file_handler (items s.handlers d.log_id) ≡ 0
      → items s.files d.log_id ≡ []
      → is_steady format lines d.log_id during ≡ true
      → is_steady format lines d.log_id after ≡ true
      → disk_pages k tail
          (items (logged_run disk_log d hook outcome during after s c).0.files d.log_id)
          1
        ≡ take (room k tail) (
            entry_lines d (started d ∷ [])
            ++ (written format lines lines 1 d.log_id during
                ++ (entry_lines d (end_entries d hook outcome)
                    ++ written format lines lines 1 d.log_id after)))
  unfolding logged_run
  task_log_pages d hook outcome during after s c k tail ht unopened fresh before behind =
      let c₁ = set_xxl_run_data d c in
      let body = run_body c₁ d hook outcome during after in
      let steady = steady-run_body c₁ d hook outcome during after before behind in
      let (files, closed, consoles, context) =
        disk_log_exact format lines d.log_id body false s c₁ unopened steady in
      let e : items (new_logger format lines disk_log d.log_id body false s c₁).0.files d.log_id
          ≡ written format lines lines 1 d.log_id body =
        files ∙ ap (λ l. l ++ written format lines lines 1 d.log_id body) fresh in
      rw e (
        disk_pages_all k tail 1 (written format lines lines 1 d.log_id body) (omega arith) ht
        ∙ ap (take (room k tail)) (written-run_body c d hook outcome during after))
