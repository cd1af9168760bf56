-- ===== src/Logs/Handled.antt =====
-- What a call of a task's logger leaves in the files, in the lists of Redis and of the handlers.
use mathlib.Core.List.{append-nil, append_assoc}
use pyxxl.Base.{
  ℕ, zero, suc, ◌+◌, ◌≡◌, refl, ap, ◌∙◌, inl, inr, String, Bool, true, false, Option, none, some,
  List, [], ◌∷◌, ◌++◌, Dict, get, set, get-set, nat_beq, nat_beq_iff, nat_eq, if◌then◌else◌,
  Bool-cases, arith,
}
use pyxxl.Runtime.Executor.State.{items}
use pyxxl.Logs.Store.{emit, emit_all}
use pyxxl.Logs.Loggers.{
  Handler, stream, file, redis, Logging, max_log_tail_lines, is_file_handler, emit_to,
  call_handlers,
}

abbrev pub is_redis_handler : Handler → Bool
is_redis_handler stream = false
is_redis_handler file = false
is_redis_handler redis = true

abbrev pub is_console_handler : Handler → Bool
is_console_handler stream = true
is_console_handler file = false
is_console_handler redis = false

-- How many handlers of a kind there are.
unfoldable pub times : (Handler → Bool) → List Handler → ℕ
times kind [] = 0
times kind (h ∷ hs) = let rest = times kind hs in if kind h then suc rest else rest

pub times-append :
    (kind : Handler → Bool) (hs ks : List Handler)
    → times kind (hs ++ ks) ≡ times kind hs + times kind ks
unfolding times
times-append kind [] ks = ground arith
times-append kind (h ∷ hs) ks = ground (arith, times-append kind hs ks)

-- A list so many times over.
unfoldable pub copies : ℕ → List String → List String
copies zero xs = []
copies (suc k) xs = xs ++ copies k xs

abbrev or_empty {ℓ} : {A : Type ℓ} → Option (List A) → List A
or_empty o = elim o [ none ↦ [] | some l ↦ l ]

or_empty_if {ℓ} :
    {A : Type ℓ} (b : Bool) (v : List A) (o : Option (List A))
    → or_empty (if b then some v else o) ≡ (if b then v else or_empty o)
or_empty_if true v o = refl
or_empty_if false v o = refl

-- What a dictionary of lists holds after a write.
pub items-set {ℓ} :
    {A : Type ℓ} (d : Dict ℕ (List A)) (k j : ℕ) (v : List A)
    → items (set d k v) j ≡ (if nat_beq k j then v else items d j)
items-set d k j v = ap or_empty (get-set d k j v) ∙ or_empty_if (nat_beq k j) v (get d j)

pub items-set_same {ℓ} :
    {A : Type ℓ} (d : Dict ℕ (List A)) (k : ℕ) (v : List A) → items (set d k v) k ≡ v
items-set_same d k v = items-set d k k v ∙ ground arith

module _ (format : Option ℕ → String → String) (lines : String → List String) where
  pub call_handlers-handlers :
      (hs : List Handler) (s : Logging) (n : ℕ) (text : String)
      → (call_handlers format lines s n text hs).handlers ≡ s.handlers
  unfolding call_handlers emit_to
  call_handlers-handlers [] s n text = refl
  call_handlers-handlers (stream ∷ hs) s n text = call_handlers-handlers hs _ n text
  call_handlers-handlers (file ∷ hs) s n text = call_handlers-handlers hs _ n text
  call_handlers-handlers (redis ∷ hs) s n text = call_handlers-handlers hs _ n text

  pub call_handlers-files :
      (hs : List Handler) (s : Logging) (n : ℕ) (text : String) (m : ℕ)
      → items (call_handlers format lines s n text hs).files m ≡ (
          if nat_beq n m
          then items s.files m ++ copies (times is_file_handler hs) (lines text)
          else items s.files m)
  unfolding call_handlers emit_to copies times
  call_handlers-files [] s n text m = ground (arith, append-nil (items s.files m))
  call_handlers-files (stream ∷ hs) s n text m = call_handlers-files hs _ n text m
  call_handlers-files (redis ∷ hs) s n text m = call_handlers-files hs _ n text m
  call_handlers-files (file ∷ hs) s n text m =
      let ih = call_handlers-files hs (emit_to format lines s n text file) n text m in
      let now = items-set s.files n m (items s.files n ++ lines text) in
      elim (Bool-cases (nat_beq n m)) [
        | inl e ↦
            rw (ih, now, e, (nat_beq_iff n m).0 e)
              (append_assoc (items s.files m) (lines text)
                (copies (times is_file_handler hs) (lines text)))
        | inr e ↦ rw (ih, now, e) refl
      ]

  pub call_handlers-lists :
      (hs : List Handler) (s : Logging) (n : ℕ) (text : String) (m : ℕ)
      → items (call_handlers format lines s n text hs).lists m ≡ (
          if nat_beq n m
          then emit_all max_log_tail_lines
              (items s.lists m)
              (copies (times is_redis_handler hs) (text ∷ []))
          else items s.lists m)
  unfolding call_handlers emit_to copies times emit_all
  call_handlers-lists [] s n text m = ground arith
  call_handlers-lists (stream ∷ hs) s n text m = call_handlers-lists hs _ n text m
  call_handlers-lists (file ∷ hs) s n text m = call_handlers-lists hs _ n text m
  call_handlers-lists (redis ∷ hs) s n text m =
      let ih = call_handlers-lists hs (emit_to format lines s n text redis) n text m in
      let now = items-set s.lists n m (emit max_log_tail_lines (items s.lists n) text) in
      elim (Bool-cases (nat_beq n m)) [
        | inl e ↦ rw (ih, now, e, (nat_beq_iff n m).0 e) refl
        | inr e ↦ rw (ih, now, e) refl
      ]
