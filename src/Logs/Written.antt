-- ===== src/Logs/Written.antt =====
-- What the calls of a task's logger leave in its log, from one `new_logger` to its end.
use mathlib.Core.List.{append-nil, append_assoc}
use pyxxl.Base.{
  ℕ, ◌≡◌, refl, sym, ap, ◌∙◌, inl, inr, String, Bool, true, false, not, ◌&&◌, ◌||◌, Option, List,
  [], ◌∷◌, ◌++◌, leb, nat_beq, nat_beq_iff, nat_eq, if◌then◌else◌, Bool-cases, arith,
}
use pyxxl.Runtime.Executor.State.{items}
use pyxxl.Logs.Store.{emit, emit_all}
use pyxxl.Logs.Loggers.{
  Logging, info_level, max_log_tail_lines, is_file_handler, log_id_of, log_record, Event, opens,
  writes, closes, step, run,
}
use pyxxl.Logs.Handled.{is_redis_handler, times, copies}
use pyxxl.Logs.Isolation.{
  IsSame, subject, step-other, log_record-handlers, log_record-files, log_record-lists,
}

emit_all-append :
    (n : ℕ) (out xs ys : List String)
    → emit_all n out (xs ++ ys) ≡ emit_all n (emit_all n out xs) ys
unfolding emit_all
emit_all-append n out [] ys = refl
emit_all-append n out (x ∷ xs) ys = emit_all-append n (emit n out x) xs ys

-- The text of a record as one piece.
abbrev pub whole : String → List String
whole text = text ∷ []

module _ (format : Option ℕ → String → String) (lines : String → List String) where
  is_write : Event format lines → Bool
  is_write (opens f n) = false
  is_write (writes n c r) = true
  is_write (closes f n c) = false

  -- Nobody opens or closes the logger of a log id.
  unfoldable pub is_steady : ℕ → List (Event format lines) → Bool
  unfolding is_write
  is_steady n [] = true
  is_steady n (e ∷ es) =
      let rest = is_steady n es in (not (nat_beq (subject format lines e) n) || is_write e) && rest

  -- What the calls of the logger of a log id are to leave: of each record that is not below INFO,
  -- its text in pieces, so many times over.
  unfoldable pub written : (String → List String) → ℕ → ℕ → List (Event format lines) → List String
  written pieces k n [] = []
  written pieces k n (opens f m ∷ es) = written pieces k n es
  written pieces k n (writes m c r ∷ es) =
      let rest = written pieces k n es in
      if nat_beq m n && leb info_level r.level
      then copies k (pieces (format (log_id_of c) r.content)) ++ rest
      else rest
  written pieces k n (closes f m c ∷ es) = written pieces k n es

  pub record IsWritten (n : ℕ) (es : List (Event format lines)) (s s' : Logging) : Type 0 where
    pub handlers : items s'.handlers n ≡ items s.handlers n
    pub files :
        items s'.files n
        ≡ items s.files n ++ written lines (times is_file_handler (items s.handlers n)) n es
    pub lists :
        items s'.lists n
        ≡ emit_all max_log_tail_lines
            (items s.lists n)
            (written whole (times is_redis_handler (items s.handlers n)) n es)

  -- An event about another log id leaves no mark.
  written-other :
      (n : ℕ) (e : Event format lines) (es : List (Event format lines)) (s s₁ s' : Logging)
      → IsSame n s₁ s
      → ((pieces : String → List String) (k : ℕ)
          → written pieces k n (e ∷ es) ≡ written pieces k n es)
      → IsWritten n es s₁ s'
      → IsWritten n (e ∷ es) s s'
  written-other n e es s s₁ s' same no_mark w = record {
    handlers = w.handlers ∙ same.handlers;
    files =
        rw
          (
            no_mark lines (times is_file_handler (items s.handlers n)),
            sym same.files,
            sym same.handlers,
          )
          w.files;
    lists =
        rw
          (
            no_mark whole (times is_redis_handler (items s.handlers n)),
            sym same.lists,
            sym same.handlers,
          )
          w.lists;
  }

  pub run-IsWritten :
      (n : ℕ) (es : List (Event format lines)) (s : Logging)
      → is_steady n es ≡ true
      → IsWritten n es s (run format lines s es)
  unfolding run is_steady written step subject emit_all
  run-IsWritten n [] s h = record {
    handlers = refl;
    files = sym (append-nil (items s.files n));
    lists = refl;
  }
  run-IsWritten n (opens f m ∷ es) s h =
      written-other n (opens f m) es s _ _
        (step-other format lines n s (opens f m) (ground (arith, h))) (λ pieces k. refl)
        (run-IsWritten n es _ (ground (arith, h)))
  run-IsWritten n (closes f m c ∷ es) s h =
      written-other n (closes f m c) es s _ _
        (step-other format lines n s (closes f m c) (ground (arith, h))) (λ pieces k. refl)
        (run-IsWritten n es _ (ground (arith, h)))
  run-IsWritten n (writes m c r ∷ es) s h =
      elim (Bool-cases (nat_beq m n && leb info_level r.level)) [
        | inr other ↦
            written-other n (writes m c r) es s _ _
              (record {
                handlers = ap (λ d. items d n) (log_record-handlers format lines s m c r);
                files = rw (log_record-files format lines s m c r n, other) refl;
                lists = rw (log_record-lists format lines s m c r n, other) refl;
              })
              (λ pieces k. rw other refl) (run-IsWritten n es _ (ground (arith, h)))
        | inl own ↦
            let ih = run-IsWritten n es (log_record format lines s m c r) (ground (arith, h)) in
            let same = log_record-handlers format lines s m c r in
            let at : m ≡ n = (nat_beq_iff m n).0 (ground (arith, own)) in
            record {
              handlers = ih.handlers ∙ ap (λ d. items d n) same;
              files =
                  ih.files
                  ∙ rw (same, log_record-files format lines s m c r n, own, at)
                      (append_assoc (items s.files n)
                        (copies (times is_file_handler (items s.handlers n))
                          (lines (format (log_id_of c) r.content)))
                        (written lines (times is_file_handler (items s.handlers n)) n es));
              lists =
                  ih.lists
                  ∙ rw (same, log_record-lists format lines s m c r n, own, at)
                      (sym (
                        emit_all-append max_log_tail_lines (items s.lists n)
                          (copies (times is_redis_handler (items s.handlers n))
                            (format (log_id_of c) r.content ∷ []))
                          (written whole (times is_redis_handler (items s.handlers n)) n es)));
            }
      ]
