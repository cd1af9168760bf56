-- ===== src/Model/Examples.antt =====
-- A payload with members that its class does not know.
use pyxxl.Base.{◌≡◌, refl, none, [], ◌∷◌, string_eq}
use pyxxl.Model.Payload.{null, number, text, RawData, is_field, from_dict, only_fields}

abbrev raw : RawData
raw = record {
  job_id = number 7;
  log_id = number 1;
  executor_handler = text "demo";
  executor_block_strategy = text "SERIAL_EXECUTION";
  executor_params = null;
  executor_timeout = number 60;
  log_date_time = null;
  glue_type = text "BEAN";
  glue_source = null;
  glue_updatetime = null;
  broadcast_index = number 0;
  broadcast_total = number 1;
}

-- A required field is missing.
no_handler : from_dict (("jobId", number 7) ∷ ("logId", number 1) ∷ []) ≡ none
unfolding from_dict only_fields is_field
no_handler = refl
