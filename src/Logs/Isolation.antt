-- ===== src/Logs/Isolation.antt =====
-- What an event of one log id's logger leaves of another's.
use pyxxl.Base.{
  ℕ, ◌≡◌, refl, ap, inl, inr, String, false, ◌&&◌, Option, List, [], ◌∷◌, ◌++◌, set, leb, nat_beq,
  nat_beq_iff, nat_eq, if◌then◌else◌, Bool-cases, arith,
}
use pyxxl.Model.{RunData}
use pyxxl.Runtime.Executor.State.{items}
use pyxxl.Logs.Store.{emit_all}
use pyxxl.Logs.Loggers.{
  Handler, stream, Record, Logging, disk_log, redis_log, own_handler, info_level,
  max_log_tail_lines, is_file_handler, file_handlers, remove_handler, log_id_of, get_logger,
  log_record, close_files, after_running, Event, opens, writes, closes, step,
}
use pyxxl.Logs.Handled.{
  is_redis_handler, times, copies, items-set, call_handlers-handlers, call_handlers-files,
  call_handlers-lists,
}

-- Two states that agree on the logger and the log of a log id.
pub record IsSame (n : ℕ) (s t : Logging) : Type 0 where
  pub handlers : items s.handlers n ≡ items t.handlers n
  pub files : items s.files n ≡ items t.files n
  pub lists : items s.lists n ≡ items t.lists n

module _ (format : Option ℕ → String → String) (lines : String → List String) where
  -- The log id whose logger an event is about.
  unfoldable pub subject : Event format lines → ℕ
  subject (opens f n) = n
  subject (writes n context r) = n
  subject (closes f n context) = n

  pub log_record-handlers :
      (s : Logging) (n : ℕ) (c : Option RunData) (r : Record)
      → (log_record format lines s n c r).handlers ≡ s.handlers
  unfolding log_record
  log_record-handlers s n c r = elim (Bool-cases (leb info_level r.level)) [
    | inl e ↦ rw e (call_handlers-handlers format lines (items s.handlers n) s n _)
    | inr e ↦ rw e refl
  ]

  pub log_record-files :
      (s : Logging) (n : ℕ) (c : Option RunData) (r : Record) (m : ℕ)
      → items (log_record format lines s n c r).files m ≡ (
          if nat_beq n m && leb info_level r.level
          then items s.files m
            ++ copies
                (times is_file_handler (items s.handlers n))
                (lines (format (log_id_of c) r.content))
          else items s.files m)
  unfolding log_record
  log_record-files s n c r m =
      let called =
        call_handlers-files format lines (items s.handlers n) s n (format (log_id_of c) r.content)
          m in
      elim (Bool-cases (leb info_level r.level)) [
        | inl e ↦ rw (e, called) (ground arith)
        | inr e ↦ rw e (ground arith)
      ]

  pub log_record-lists :
      (s : Logging) (n : ℕ) (c : Option RunData) (r : Record) (m : ℕ)
      → items (log_record format lines s n c r).lists m ≡ (
          if nat_beq n m && leb info_level r.level
          then emit_all max_log_tail_lines (items s.lists m) (
              copies
                (times is_redis_handler (items s.handlers n))
                (format (log_id_of c) r.content ∷ []))
          else items s.lists m)
  unfolding log_record
  log_record-lists s n c r m =
      let called =
        call_handlers-lists format lines (items s.handlers n) s n (format (log_id_of c) r.content)
          m in
      elim (Bool-cases (leb info_level r.level)) [
        | inl e ↦ rw (e, called) (ground arith)
        | inr e ↦ rw e (ground arith)
      ]

  pub close_files-files :
      (hs : List Handler) (s : Logging) (n : ℕ) (c : Option RunData)
      → (close_files format lines s n c hs).files ≡ s.files
  unfolding close_files log_record
  close_files-files [] s n c = refl
  close_files-files (h ∷ hs) s n c = close_files-files hs _ n c

  pub close_files-lists :
      (hs : List Handler) (s : Logging) (n : ℕ) (c : Option RunData)
      → (close_files format lines s n c hs).lists ≡ s.lists
  unfolding close_files log_record
  close_files-lists [] s n c = refl
  close_files-lists (h ∷ hs) s n c = close_files-lists hs _ n c

  -- So many handlers of files taken off.
  unfoldable pub removed : List Handler → List Handler → List Handler
  unfolding remove_handler
  removed [] hs = hs
  removed (fh ∷ fhs) hs = removed fhs (remove_handler hs)

  pub close_files-handlers :
      (fhs : List Handler) (s : Logging) (n : ℕ) (c : Option RunData) (m : ℕ)
      → items (close_files format lines s n c fhs).handlers m
        ≡ (if nat_beq n m then removed fhs (items s.handlers m) else items s.handlers m)
  unfolding close_files log_record removed
  close_files-handlers [] s n c m = ground arith
  close_files-handlers (fh ∷ fhs) s n c m =
      let ih =
        close_files-handlers fhs
          (record s { handlers = set s.handlers n (remove_handler (items s.handlers n)) }) n c m in
      let now = items-set s.handlers n m (remove_handler (items s.handlers n)) in
      elim (Bool-cases (nat_beq n m)) [
        | inl e ↦ rw (ih, now, e, (nat_beq_iff n m).0 e) refl
        | inr e ↦ rw (ih, now, e) refl
      ]

  -- An event about another log id changes nothing of a log id.
  pub step-other :
      (n : ℕ) (s : Logging) (e : Event format lines)
      → nat_beq (subject e) n ≡ false
      → IsSame n (step format lines s e) s
  unfolding step subject get_logger after_running
  step-other n s (opens f m) h = record {
    handlers =
        ground
          (arith, items-set s.handlers m n (items s.handlers m ++ stream ∷ own_handler f ∷ []), h);
    files = refl;
    lists = refl;
  }
  step-other n s (writes m c r) h = record {
    handlers = ap (λ d. items d n) (log_record-handlers s m c r);
    files = ground (arith, log_record-files s m c r n, h);
    lists = ground (arith, log_record-lists s m c r n, h);
  }
  step-other n s (closes disk_log m c) h =
      let fhs = file_handlers (items s.handlers m) in
      record {
        handlers = ground (arith, close_files-handlers fhs s m c n, h);
        files = ap (λ d. items d n) (close_files-files fhs s m c);
        lists = ap (λ d. items d n) (close_files-lists fhs s m c);
      }
  step-other n s (closes redis_log m c) h = record { handlers = refl; files = refl; lists = refl }
