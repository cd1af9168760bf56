-- ===== src/Model/Payload.antt =====
-- pyxxl/model/run_data.py: `RunData.from_dict` on a JSON object, whose values it does not look at; and
-- `asdict`, by which a payload is handed to a child process.
use mathlib.Core.List.{append-nil}
use pyxxl.Base.{
  ℕ, ◌≡◌, refl, ap, ◌∙◌, inl, inr, String, Bool, false, ◌||◌, Option, none, some, List, [], ◌∷◌,
  ◌++◌, All, Bool-cases, string_eq, ◌==◌, if◌then◌else◌,
}

-- A JSON value.
pub data Value : Type 0 where
  null : Value
  number : ℕ → Value
  text : String → Value

-- A JSON object, with its members in their order.
abbrev pub Object : Type 0
Object = List (String × Value)

-- `RunData`, with the values as they come
pub record RawData : Type 0 where
  pub job_id : Value
  pub log_id : Value
  pub executor_handler : Value
  pub executor_block_strategy : Value
  pub executor_params : Value
  pub executor_timeout : Value
  pub log_date_time : Value
  pub glue_type : Value
  pub glue_source : Value
  pub glue_updatetime : Value
  pub broadcast_index : Value
  pub broadcast_total : Value

abbrev one_of : String → List String → Bool
one_of k [] = false
one_of k (n ∷ ns) = k == n || one_of k ns

-- class_fields
unfoldable pub is_field : String → Bool
is_field k = one_of k (
    "jobId" ∷ "logId" ∷ "executorHandler" ∷ "executorBlockStrategy" ∷ "executorParams"
    ∷ "executorTimeout" ∷ "logDateTime" ∷ "glueType" ∷ "glueSource" ∷ "glueUpdatetime"
    ∷ "broadcastIndex" ∷ "broadcastTotal" ∷ [])

-- `{key: value for key, value in data.items() if key in class_fields}`
unfoldable pub only_fields : Object → Object
only_fields [] = []
only_fields ((k, v) ∷ rest) =
    let kept = only_fields rest in if is_field k then (k, v) ∷ kept else kept

unfoldable pub lookup : String → Object → Option Value
lookup k [] = none
lookup k ((j, v) ∷ rest) = if j == k then some v else lookup k rest

abbrev pub or_null : Option Value → Value
or_null none = null
or_null (some v) = v

infixl 5 ◌>>=◌
abbrev pub ◌>>=◌ {ℓ κ} : {A : Type ℓ} {B : Type κ} → Option A → (A → Option B) → Option B
none >>= f = none
some a >>= f = f a

-- `cls(**members)`: `none` is the TypeError for a field without default that is missing
unfoldable pub construct : Object → Option RawData
unfolding lookup
construct d = do
  job ← lookup "jobId" d
  log ← lookup "logId" d
  handler ← lookup "executorHandler" d
  strategy ← lookup "executorBlockStrategy" d
  some record {
    job_id = job;
    log_id = log;
    executor_handler = handler;
    executor_block_strategy = strategy;
    executor_params = or_null (lookup "executorParams" d);
    executor_timeout = or_null (lookup "executorTimeout" d);
    log_date_time = or_null (lookup "logDateTime" d);
    glue_type = or_null (lookup "glueType" d);
    glue_source = or_null (lookup "glueSource" d);
    glue_updatetime = or_null (lookup "glueUpdatetime" d);
    broadcast_index = or_null (lookup "broadcastIndex" d);
    broadcast_total = or_null (lookup "broadcastTotal" d);
  }

-- from_dict
unfoldable pub from_dict : Object → Option RawData
unfolding construct
from_dict d = construct (only_fields d)

-- asdict
unfoldable pub as_dict : RawData → Object
as_dict r =
    (("jobId", r.job_id)
      ∷ ("logId", r.log_id)
      ∷ ("executorHandler", r.executor_handler)
      ∷ ("executorBlockStrategy", r.executor_block_strategy)
      ∷ ("executorParams", r.executor_params)
      ∷ ("executorTimeout", r.executor_timeout)
      ∷ ("logDateTime", r.log_date_time)
      ∷ ("glueType", r.glue_type)
      ∷ ("glueSource", r.glue_source)
      ∷ ("glueUpdatetime", r.glue_updatetime)
      ∷ ("broadcastIndex", r.broadcast_index)
      ∷ ("broadcastTotal", r.broadcast_total)
      ∷ [])

-- A member that is no field.
abbrev pub IsExtra : String × Value → Type 0
IsExtra (k, v) = is_field k ≡ false

only_fields-append : (d e : Object) → only_fields (d ++ e) ≡ only_fields d ++ only_fields e
unfolding only_fields
only_fields-append [] e = refl
only_fields-append ((k, v) ∷ d) e = elim (Bool-cases (is_field k)) [
  | inl h ↦ rw h (ap (λ x. (k, v) ∷ x) (only_fields-append d e))
  | inr h ↦ rw h (only_fields-append d e)
]

only_fields-extra : (d : Object) → All IsExtra d → only_fields d ≡ []
unfolding only_fields
only_fields-extra [] h = refl
only_fields-extra ((k, v) ∷ d) h = rw h.0 (only_fields-extra d h.1)

only_fields-as_dict : (r : RawData) → only_fields (as_dict r) ≡ as_dict r
unfolding only_fields as_dict is_field
only_fields-as_dict r = refl

-- What `asdict` gives is read back by `from_dict`, with whatever members that are no fields stand
-- before and behind it.
pub from_dict-as_dict :
    (r : RawData) (before after : Object)
    → All IsExtra before
    → All IsExtra after
    → from_dict (before ++ as_dict r ++ after) ≡ some r
unfolding from_dict as_dict
from_dict-as_dict r before after h k =
    ap construct (
      only_fields-append (before ++ as_dict r) after
      ∙ ap (λ x. x ++ only_fields after) (only_fields-append before (as_dict r))
      ∙ ap (λ x. (x ++ only_fields (as_dict r)) ++ only_fields after) (only_fields-extra before h)
      ∙ ap (λ x. only_fields (as_dict r) ++ x) (only_fields-extra after k)
      ∙ append-nil (only_fields (as_dict r))
      ∙ only_fields-as_dict r)
    ∙ whole r
  where
    whole : (r : RawData) → construct (as_dict r) ≡ some r
    whole r = refl
