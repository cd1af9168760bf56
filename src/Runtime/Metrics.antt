-- ===== src/Runtime/Metrics.antt =====
-- pyxxl/monitoring/prometheus.py: `metrics`, as the calls that it makes of the Prometheus client.
use pyxxl.Base.{
  Dict, ◌||◌, if◌then◌else◌, set, get-set, empty, get-empty, ℕ, ◌≡◌, refl, ap, sym, ◌∙◌, inl, inr,
  true, Option, none, some, List, [], ◌∷◌, ◌++◌, length, contains, get, keys, nat_eq, nat_beq,
  arith, nat_beq_iff, Bool-cases,
}
use pyxxl.Model.{RunData}
use pyxxl.Runtime.Executor.Shutdown.{state-of-keys}
use pyxxl.Runtime.Executor.State.{Executor, items}
use pyxxl.Runtime.Executor.Spec.{JobState, idle, busy}
use pyxxl.Runtime.Executor.Slots.{slot}
use pyxxl.Runtime.Executor.Entries.{state_of}
use pyxxl.Runtime.Executor.Invariant.{IsValid, current_data, job_state, task_data}

-- The calls of the client's gauges and infos: without labels, or with a job's.
pub data Call : Type 0 where
  clear_running_info clear_queue_info : Call
  asyncio_tasks running_tasks : ℕ → Call
  running_info : ℕ → RunData → Call
  queue_tasks : ℕ → ℕ → Call
  queue_info : ℕ → List RunData → Call
  thread_pool_info : Call

-- `for key, value in executor.tasks.items()`: the value is the task object
abbrev info_of : ℕ → Option RunData → List Call
info_of j none = []
info_of j (some d) = running_info j d ∷ []

unfoldable pub running_calls : Executor → List ℕ → List Call
running_calls s [] = []
running_calls s (j ∷ js) = info_of j (task_data s.objects (get s.tasks j)) ++ running_calls s js

-- `for key, queue in executor.queue.items()`
unfoldable pub queue_calls : Executor → List ℕ → List Call
queue_calls s [] = []
queue_calls s (j ∷ js) =
    queue_tasks j (length (items s.queue j)) ∷ queue_info j (items s.queue j) ∷ queue_calls s js

-- metrics, with the number of asyncio tasks
unfoldable pub metrics : Executor → ℕ → List Call
unfolding running_calls queue_calls
metrics s tasks =
    clear_running_info
    ∷ clear_queue_info
    ∷ asyncio_tasks tasks
    ∷ running_tasks (length (keys s.tasks))
    ∷ (running_calls s (keys s.tasks) ++ (queue_calls s (keys s.queue) ++ thread_pool_info ∷ []))

-- What waits at a job in its queue.
abbrev pub waiting_of : JobState → List RunData
waiting_of idle = []
waiting_of (busy r next waiting) = waiting

abbrev pub runner_of : JobState → Option RunData
runner_of idle = none
runner_of (busy r next waiting) = some r

-- What the gauges and infos with a job's label show.
pub record Page : Type 0 where
  pub running_task_info : Dict ℕ RunData
  pub queue_tasks_total : Dict ℕ ℕ
  pub queue_tasks_info : Dict ℕ (List RunData)

-- What a call of the client makes of them.
unfoldable pub show : Page → Call → Page
show p clear_running_info = record p { running_task_info = empty }
show p clear_queue_info = record p { queue_tasks_info = empty }
show p (running_info j d) = record p { running_task_info = set p.running_task_info j d }
show p (queue_tasks j n) = record p { queue_tasks_total = set p.queue_tasks_total j n }
show p (queue_info j ds) = record p { queue_tasks_info = set p.queue_tasks_info j ds }
show p _ = p

unfoldable pub show_all : Page → List Call → Page
unfolding show
show_all p [] = p
show_all p (c ∷ cs) = show_all (show p c) cs

show_all-append :
    (cs ds : List Call) (p : Page) → show_all p (cs ++ ds) ≡ show_all (show_all p cs) ds
unfolding show_all
show_all-append [] ds p = refl
show_all-append (c ∷ cs) ds p = show_all-append cs ds (show p c)

abbrev or_else_run : Option RunData → Option RunData → Option RunData
or_else_run none before = before
or_else_run (some d) before = some d

-- The loop over the tasks shows what runs at the jobs of the table, and nothing else changes.
running-info :
    (s : Executor) (js : List ℕ) (p : Page) (j : ℕ)
    → get (show_all p (running_calls s js)).running_task_info j ≡ (
        if contains js j
        then or_else_run (current_data s j) (get p.running_task_info j)
        else get p.running_task_info j)
unfolding show_all running_calls contains
running-info s [] p j = refl
running-info s (k ∷ js) p j = of_current (current_data s k) refl (λ p'. running-info s js p' j)
  where
    same : nat_beq k j ≡ true → current_data s j ≡ current_data s k
    same e = ap (current_data s) (sym ((nat_beq_iff k j).0 e))

    of_current :
        (c : Option RunData)
        → current_data s k ≡ c
        → ((p' : Page)
            → get (show_all p' (running_calls s js)).running_task_info j ≡ (
                if contains js j
                then or_else_run (current_data s j) (get p'.running_task_info j)
                else get p'.running_task_info j))
        → get (show_all p (info_of k c ++ running_calls s js)).running_task_info j ≡ (
            if nat_beq k j || contains js j
            then or_else_run (current_data s j) (get p.running_task_info j)
            else get p.running_task_info j)
    of_current none e ih = elim (Bool-cases (nat_beq k j)) [
      | inl b ↦ ih p ∙ ground (arith, b, same b, e)
      | inr b ↦ ih p ∙ ground (arith, b)
    ]
    of_current (some d) e ih =
        let now = get-set p.running_task_info k j d in
        elim (Bool-cases (nat_beq k j)) [
          | inl b ↦ ih (show p (running_info k d)) ∙ ground (arith, b, same b, e, now)
          | inr b ↦ ih (show p (running_info k d)) ∙ ground (arith, b, now)
        ]

running-rest :
    (s : Executor) (js : List ℕ) (p : Page)
    → ((show_all p (running_calls s js)).queue_tasks_total ≡ p.queue_tasks_total)
      × ((show_all p (running_calls s js)).queue_tasks_info ≡ p.queue_tasks_info)
unfolding show_all running_calls
running-rest s [] p = (refl, refl)
running-rest s (k ∷ js) p = of_current (current_data s k) (running-rest s js)
  where
    of_current :
        (c : Option RunData)
        → ((p : Page)
            → ((show_all p (running_calls s js)).queue_tasks_total ≡ p.queue_tasks_total)
              × ((show_all p (running_calls s js)).queue_tasks_info ≡ p.queue_tasks_info))
        → ((show_all p (info_of k c ++ running_calls s js)).queue_tasks_total ≡ p.queue_tasks_total)
          × ((show_all p (info_of k c ++ running_calls s js)).queue_tasks_info ≡ p.queue_tasks_info)
    of_current none ih = ih p
    of_current (some d) ih = ih (show p (running_info k d))

-- The loop over the queues.
queue-show :
    (s : Executor) (js : List ℕ) (p : Page) (j : ℕ)
    → let p' = show_all p (queue_calls s js) in
      (p'.running_task_info ≡ p.running_task_info)
      × (get p'.queue_tasks_total j
          ≡ (if contains js j then some (length (items s.queue j)) else get p.queue_tasks_total j))
      × (get p'.queue_tasks_info j
          ≡ (if contains js j then some (items s.queue j) else get p.queue_tasks_info j))
unfolding show_all queue_calls contains
queue-show s [] p j = (refl, refl, refl)
queue-show s (k ∷ js) p j =
    let ih =
      queue-show s js
        (show (show p (queue_tasks k (length (items s.queue k)))) (queue_info k (items s.queue k)))
        j in
    let n = get-set p.queue_tasks_total k j (length (items s.queue k)) in
    let q = get-set p.queue_tasks_info k j (items s.queue k) in
    let same : nat_beq k j ≡ true → items s.queue j ≡ items s.queue k =
      λ e. ap (items s.queue) (sym ((nat_beq_iff k j).0 e)) in
    elim (Bool-cases (nat_beq k j)) [
      | inl b ↦ (
        ih.0,
        ih.1 ∙ ground (arith, b, ap length (same b), n),
        ih.2 ∙ ground (arith, b, same b, q),
      )
      | inr b ↦ (ih.0, ih.1 ∙ ground (arith, b, n), ih.2 ∙ ground (arith, b, q))
    ]

module _ (s : Executor) (w : IsValid s) where
  queue-waiting : (j : ℕ) → waiting_of (job_state s j) ≡ items s.queue j
  unfolding slot
  queue-waiting j = of_current (current_data s j) (w.jobs j).at_rest
    where
      of_current :
          (c : Option RunData)
          → (c ≡ none
              → ((slot s j).current ≡ none) × ((slot s j).next ≡ none) × ((slot s j).waiting ≡ []))
          → waiting_of (state_of (slot s j) c) ≡ items s.queue j
      of_current none at_rest = sym (at_rest refl).2
      of_current (some d) at_rest = refl

  runner-current : (j : ℕ) → runner_of (job_state s j) ≡ current_data s j
  runner-current j = of_current (current_data s j)
    where
      of_current : (c : Option RunData) → runner_of (state_of (slot s j) c) ≡ c
      of_current none = refl
      of_current (some d) = refl

  shown-runner :
      (j : ℕ)
      → (if contains (keys s.tasks) j then or_else_run (current_data s j) none else none)
        ≡ runner_of (job_state s j)
  shown-runner j = elim (Bool-cases (contains (keys s.tasks) j)) [
    | inl e ↦
        ap (λ b. if b then or_else_run (current_data s j) none else none) e
        ∙ of_current (current_data s j)
        ∙ sym (runner-current j)
    | inr e ↦
        ap (λ b. if b then or_else_run (current_data s j) none else none) e
        ∙ sym (ap runner_of (state-of-keys s j e))
  ]
    where
      of_current : (c : Option RunData) → or_else_run c none ≡ c
      of_current none = refl
      of_current (some d) = refl

-- In a valid state, whatever was shown before: after `metrics` the info of a job's running trigger is
-- the trigger that runs at that job, and there is none exactly where none runs; the info of a job's
-- queue is what waits in it, and there is none where the executor has no queue for the job; the number
-- of a job's waiting triggers is that of its queue, and where it has no queue what was shown before.
pub metrics_show :
    (s : Executor) (tasks : ℕ) (p : Page) (j : ℕ)
    → IsValid s
    → let p' = show_all p (metrics s tasks) in
      (get p'.running_task_info j ≡ runner_of (job_state s j))
      × (get p'.queue_tasks_info j
          ≡ (if contains (keys s.queue) j then some (waiting_of (job_state s j)) else none))
      × (get p'.queue_tasks_total j ≡ (
          if contains (keys s.queue) j
          then some (length (waiting_of (job_state s j)))
          else get p.queue_tasks_total j))
unfolding metrics show_all show
metrics_show s tasks p j w =
    let p₁ = record p { running_task_info = empty; queue_tasks_info = empty } in
    let p₂ = show_all p₁ (running_calls s (keys s.tasks)) in
    let p₃ = show_all p₂ (queue_calls s (keys s.queue)) in
    let split : show_all p (metrics s tasks) ≡ p₃ =
      show_all-append (running_calls s (keys s.tasks))
        (queue_calls s (keys s.queue) ++ thread_pool_info ∷ []) p₁
      ∙ show_all-append (queue_calls s (keys s.queue)) (thread_pool_info ∷ []) p₂ in
    let kept = running-rest s (keys s.tasks) p₁ in
    let queues = queue-show s (keys s.queue) p₂ j in
    let waits = queue-waiting s w j in
    (
      ap (λ (x : Page). get x.running_task_info j) split
          ∙ ap (λ m. get m j) queues.0
          ∙ running-info s (keys s.tasks) p₁ j
          ∙ ap (λ o. if contains (keys s.tasks) j then or_else_run (current_data s j) o else o)
              (get-empty {K = ℕ} {V = RunData} j)
          ∙ shown-runner s w j,
      ap (λ (x : Page). get x.queue_tasks_info j) split
          ∙ queues.2
          ∙ ap (λ m. if contains (keys s.queue) j then some (items s.queue j) else get m j) kept.1
          ∙ ap (λ o. if contains (keys s.queue) j then some (items s.queue j) else o)
              (get-empty {K = ℕ} {V = List RunData} j)
          ∙ ap (λ l. if contains (keys s.queue) j then some l else none) (sym waits),
      ap (λ (x : Page). get x.queue_tasks_total j) split
          ∙ queues.1
          ∙ ap (λ m. if contains (keys s.queue) j then some (length (items s.queue j)) else get m j)
              kept.0
          ∙ ap
              (λ l.
                if contains (keys s.queue) j then some (length l) else get p.queue_tasks_total j)
              (sym waits),
    )
