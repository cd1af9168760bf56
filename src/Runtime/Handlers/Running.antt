-- ===== src/Runtime/Handlers/Running.antt =====
-- How a handler ends in a child process.
use pyxxl.Base.{
  ℕ, zero, suc, ◌+◌, ◌*◌, ◌≤◌, ◌<◌, ◌≡◌, refl, ap, sym, not, ◌&&◌, ◌∙◌, String, string_eq, ◌==◌,
  if◌then◌else◌, Bool, true, false, Option, none, some, [], ◌∷◌, arith,
}
use pyxxl.Model.{RunMode, async, thread, process, RunData}
use pyxxl.Config.Settings.{ExecutorConfig}
use pyxxl.Runtime.Handlers.Registry.{Function, HandlerInfo, is_mode, is_process_safe}
use pyxxl.Runtime.Handlers.Process.{
  Payload, Interruption, Ending, Call, resolve, process_handler_entry, read_payload, Child,
  get_nowait, is_alive, wait_process_result, starts, joins, closes, start_process, child_of, gives,
  gives_coroutine, throws, returns, raises, exited, after_wait, is_interruption, signalled,
  start_thread, start, succeeded, failed,
}

-- One round, in a child that puts `p`.
round :
    (c : Child) (n k : ℕ) (p : Option Payload)
    → c.put ≡ p
    → c.shows ≤ c.death
    → (suc (suc k) ≤ c.death → wait_process_result c n (suc (suc k)) ≡ some (read_payload c.put))
    → wait_process_result c (suc n) k ≡ some (read_payload c.put)
unfolding wait_process_result
round c n k none e before more = ground (arith, e, before, more)
round c n k (some p) e before more = ground (arith, e, before, more)

-- With enough rounds the loop ends, with what the child put before it died.
wait_ends :
    (c : Child) (n k : ℕ)
    → c.shows ≤ c.death
    → k ≤ c.death
    → c.death < k + 2 * n
    → wait_process_result c n k ≡ some (read_payload c.put)
wait_ends c zero k before here enough = absurd (omega (arith, here, enough))
wait_ends c (suc n) k before here enough =
    round c n k c.put refl before
      λ on. wait_ends c n (suc (suc k)) before on (omega (arith, enough))

-- What a call of a function comes to in a child process.
abbrev pub end_of : Call → Ending
end_of (gives v) = returns v
end_of (gives_coroutine trace) =
    raises "Process mode does not support async handlers."
      (if trace == "" then none else some trace)
end_of (throws text trace) =
    raises (if text == "" then "Process mode handler failed." else text)
      (if trace == "" then none else some trace)

read_entry : (call : Call) → read_payload (some (process_handler_entry call)) ≡ end_of call
unfolding read_payload process_handler_entry
read_entry (gives v) = refl
read_entry (gives_coroutine trace) = refl
read_entry (throws text trace) = refl

read_put :
    (puts : Bool) (call : Call)
    → read_payload (if puts then some (process_handler_entry call) else none)
      ≡ (if puts then end_of call else exited)
unfolding read_payload
read_put true call = read_entry call
read_put false call = refl

resolve-safe :
    (f : Function) (trace : String) (call : Call)
    → is_process_safe f ≡ true
    → resolve f trace call ≡ call
unfolding resolve is_process_safe
resolve-safe f trace call safe = ground arith

-- For a function that a child process can import, whose child puts what the call comes to before it
-- dies, or is killed and puts nothing: when the timeout leaves the parent enough rounds to see the
-- child dead, `_start_process` ends without an interruption, with the value that the function
-- returned, with its exception as a RuntimeError, or with an unexpected exit; and the process is
-- joined and the queue closed, without a signal.
pub process_mode_result :
    (f : Function) (trace : String) (call : Call) (shows death n : ℕ) (puts can_kill : Bool)
    (d : RunData) (config : ExecutorConfig) (why : Interruption)
    → is_process_safe f ≡ true
    → shows ≤ death
    → death < 2 * n
    → start_process
        (some d)
        (some config)
        (child_of
          (if puts then some (process_handler_entry (resolve f trace call)) else none)
          shows
          death)
        n
        can_kill
        why
      ≡ (if puts then end_of call else exited, starts ∷ joins ∷ closes ∷ [])
unfolding start_process child_of
process_mode_result f trace call shows death n puts can_kill d config why safe before enough =
    let put = if puts then some (process_handler_entry call) else none in
    let ended =
      wait_ends (child_of put shows death) n 0 before (omega arith) (omega (arith, enough)) in
    rw (resolve-safe f trace call safe) (
      ap (after_wait (child_of put shows death) (2 * n) can_kill why) ended
      ∙ ap (λ e. (e, starts ∷ joins ∷ closes ∷ [])) (read_put puts call))

read_payload-is_interruption : (p : Option Payload) → is_interruption (read_payload p) ≡ false
unfolding read_payload
read_payload-is_interruption none = refl
read_payload-is_interruption (some (succeeded v)) = refl
read_payload-is_interruption (some (failed text trace)) = refl

-- What the loop for a child's result comes to is no interruption.
abbrev IsOwn : Option Ending → Type 0
IsOwn none = Unit
IsOwn (some e) = is_interruption e ≡ false

wait-IsOwn : (c : Child) (n k : ℕ) → IsOwn (wait_process_result c n k)
unfolding wait_process_result
wait-IsOwn c zero k = tt
wait-IsOwn c (suc n) k = look (get_nowait c k) (is_alive c (suc k)) (wait-IsOwn c n (suc (suc k)))
  where
    look :
        (p : Option Payload) (alive : Bool)
        → IsOwn (wait_process_result c n (suc (suc k)))
        → IsOwn (elim p [
          | some p ↦ some (read_payload (some p))
          | none ↦ elim alive [
            | true ↦ wait_process_result c n (suc (suc k))
            | false ↦ some (read_payload (get_nowait c (suc (suc k))))
          ]
        ])
    look (some p) alive w = read_payload-is_interruption (some p)
    look none true w = w
    look none false w = read_payload-is_interruption (get_nowait c (suc (suc k)))

after_wait-signalled :
    (c : Child) (k : ℕ) (can_kill : Bool) (why : Interruption) (e : Option Ending)
    → IsOwn e
    → signalled (after_wait c k can_kill why e).1
      ≡ is_interruption (after_wait c k can_kill why e).0
after_wait-signalled c k can_kill why none h = refl
after_wait-signalled c k can_kill why (some e) h = sym h

start_process-signalled :
    (d : Option RunData) (config : Option ExecutorConfig) (c : Child) (n : ℕ) (can_kill : Bool)
    (why : Interruption)
    → signalled (start_process d config c n can_kill why).1
      ≡ is_interruption (start_process d config c n can_kill why).0
unfolding start_process
start_process-signalled none config c n can_kill why = refl
start_process-signalled (some d) none c n can_kill why = refl
start_process-signalled (some d) (some config) c n can_kill why =
    after_wait-signalled c (2 * n) can_kill why (wait_process_result c n 0) (wait-IsOwn c n 0)

-- In every run of a handler: in a thread or a child process its cancel event is set exactly when
-- `start` ends by a timeout or a cancellation, and a coroutine has no such event.
pub start_signals :
    (h : HandlerInfo) (d : Option RunData) (config : Option ExecutorConfig) (local : Option Ending)
    (c : Child) (n : ℕ) (can_kill : Bool) (why : Interruption)
    → (start h d config local c n can_kill why).1
      ≡ (not (is_mode h.mode async) && is_interruption (start h d config local c n can_kill why).0)
unfolding start
start_signals h d config local c n can_kill why = go h.mode
  where
    go :
        (m : RunMode)
        → (start (record h { mode = m }) d config local c n can_kill why).1 ≡ (
            not (is_mode m async)
            && is_interruption (start (record h { mode = m }) d config local c n can_kill why).0)
    go async = refl
    go thread = in_thread local
      where
        in_thread :
            (e : Option Ending) → (start_thread why e).1 ≡ is_interruption (start_thread why e).0
        in_thread none = refl
        in_thread (some e) = refl
    go process = start_process-signalled d config c n can_kill why
