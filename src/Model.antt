-- ===== src/Model.antt =====
-- pyxxl/model/enums.py and pyxxl/model/run_data.py: the enumerations and the payload of a trigger.
-- The fields of a payload have the protocol's types: identifiers and times are numbers.
use pyxxl.Base.{ℕ, String, Option}
pub mod Payload
mod Examples

-- `ExecutorBlockStrategy`; the payload carries its `value`.
pub data BlockStrategy : Type 0 where
  serial_execution discard_later cover_early : BlockStrategy

unfoldable pub strategy_value : BlockStrategy → String
strategy_value serial_execution = "SERIAL_EXECUTION"
strategy_value discard_later = "DISCARD_LATER"
strategy_value cover_early = "COVER_EARLY"

-- `HandlerRunMode`
pub data RunMode : Type 0 where
  async thread process : RunMode

unfoldable pub mode_value : RunMode → String
mode_value async = "async"
mode_value thread = "thread"
mode_value process = "process"

-- `RunData`
pub record RunData : Type 0 where
  pub job_id : ℕ
  pub log_id : ℕ
  pub executor_handler : String
  pub executor_block_strategy : String
  pub executor_params : Option String
  pub executor_timeout : Option ℕ
  pub log_date_time : Option ℕ
  pub glue_type : Option String
  pub glue_source : Option String
  pub glue_updatetime : Option ℕ
  pub broadcast_index : Option ℕ
  pub broadcast_total : Option ℕ
