-- ===== src/Context.antt =====
-- pyxxl/context/runtime.py: what the context of a running task holds. A logger is the log id that it
-- was made for, a cancel event its number.
use pyxxl.Base.{ℕ, Option, none, some, ◌⊎◌, inl, inr}
use pyxxl.Model.{RunData}

-- `GlobalVars`: the values of its three context variables in one context
pub record Context : Type 0 where
  pub data_var : Option RunData
  pub logger_var : Option ℕ
  pub event_var : Option ℕ

-- the `RuntimeError` of a property whose variable is not set
pub data Missing : Type 0 where
  no_run_data no_logger no_cancel_event : Missing

unfoldable pub new_context : Context
new_context = record { data_var = none; logger_var = none; event_var = none }

unfoldable pub set_xxl_run_data : RunData → Context → Context
set_xxl_run_data d c = record c { data_var = some d }

unfoldable pub try_get_run_data : Context → Option RunData
try_get_run_data c = c.data_var

unfoldable pub xxl_run_data : Context → Missing ⊎ RunData
xxl_run_data c = elim c.data_var [ none ↦ inl no_run_data | some d ↦ inr d ]

-- set_task_logger: its token, which is the value before, and the context
unfoldable pub set_task_logger : ℕ → Context → Option ℕ × Context
set_task_logger n c = (c.logger_var, record c { logger_var = some n })

-- `_LOGGER.reset(token)`
unfoldable pub reset_task_logger : Option ℕ → Context → Context
reset_task_logger token c = record c { logger_var = token }

unfoldable pub logger : Context → Missing ⊎ ℕ
logger c = elim c.logger_var [ none ↦ inl no_logger | some n ↦ inr n ]

unfoldable pub set_cancel_event : ℕ → Context → Context
set_cancel_event e c = record c { event_var = some e }

unfoldable pub cancel_event : Context → Missing ⊎ ℕ
cancel_event c = elim c.event_var [ none ↦ inl no_cancel_event | some e ↦ inr e ]
