-- ===== src/Runtime/Handlers/Registry.antt =====
-- pyxxl/runtime/handlers.py: `HandlerInfo.__post_init__` and `JobHandler.register`;
-- pyxxl/runtime/process.py: `normalize_handler_mode`.
use pyxxl.Base.{
  String, Bool, true, false, Option, none, some, List, [], ◌∷◌, Dict, get, set, not, ◌&&◌, ◌||◌,
  string_eq, ◌==◌, if◌then◌else◌,
}
use pyxxl.Model.{RunMode, async, thread, process, mode_value}

-- What the registry reads of a function: `iscoroutinefunction`, `isfunction`, and whether its
-- qualified name has "<locals>".
pub record Function : Type 0 where
  pub name : String
  pub is_coroutine : Bool
  pub is_function : Bool
  pub has_locals : Bool

-- `HandlerInfo`
pub record HandlerInfo : Type 0 where
  pub handler : Function
  pub mode : RunMode
  pub is_async : Bool

-- `JobRegisterError`, by its text, and `TypeError`
pub data RegisterError : Type 0 where
  async_required process_unsafe : RegisterError
  no_async : RunMode → RegisterError
  registered : String → RegisterError
  unknown_mode : String → RegisterError
  bare_arguments too_many name_twice mode_twice : RegisterError

pub data Result {ℓ} (A : Type ℓ) : Type ℓ where
  ok : A → Result A
  err : RegisterError → Result A

abbrev pub is_mode : RunMode → RunMode → Bool
is_mode async async = true
is_mode thread thread = true
is_mode process process = true
is_mode _ _ = false

-- _is_process_safe
unfoldable pub is_process_safe : Function → Bool
is_process_safe f = f.is_function && not f.has_locals

-- `self.mode or (ASYNC if self.is_async else THREAD)`
unfoldable pub default_mode : Function → Option RunMode → RunMode
default_mode f (some m) = m
default_mode f none = if f.is_coroutine then async else thread

-- the checks of __post_init__, with the mode that it settled
unfoldable pub check_mode : Function → RunMode → Result HandlerInfo
check_mode f m =
    if is_mode m async && not f.is_coroutine
    then err async_required
    else if (is_mode m thread || is_mode m process) && f.is_coroutine
    then err (no_async m)
    else if is_mode m process && not (is_process_safe f)
    then err process_unsafe
    else ok (record { handler = f; mode = m; is_async = f.is_coroutine })

-- HandlerInfo.__post_init__
unfoldable pub handler_info : Function → Option RunMode → Result HandlerInfo
handler_info f mode = check_mode f (default_mode f mode)

-- A mode as a caller gives it: none, the enumeration, or a text, stripped and in lower case.
pub data ModeArgument : Type 0 where
  no_mode : ModeArgument
  enumerated : RunMode → ModeArgument
  text : String → ModeArgument

-- normalize_handler_mode
unfoldable pub normalize_handler_mode : ModeArgument → Result (Option RunMode)
normalize_handler_mode no_mode = ok none
normalize_handler_mode (enumerated m) = ok (some m)
normalize_handler_mode (text raw) =
    if raw == mode_value async
    then ok (some async)
    else if raw == mode_value thread
    then ok (some thread)
    else if raw == mode_value process
    then ok (some process)
    else err (unknown_mode raw)

-- `handler_name or func.__name__`
unfoldable pub real_name : Option String → Function → String
real_name none f = f.name
real_name (some name) f = if name == "" then f.name else name

abbrev pub Handlers : Type 0
Handlers = Dict String HandlerInfo

abbrev pub is_known : Option HandlerInfo → Bool
is_known none = false
is_known (some h) = true

abbrev pub store_info : Handlers → String → Result HandlerInfo → Result Handlers
store_info handlers name (err e) = err e
store_info handlers name (ok info) = ok (set handlers name info)

-- _decorate: the registry afterwards, or the error
unfoldable pub decorate :
    Handlers → Function → Option String → Bool → Option RunMode → Result Handlers
decorate handlers f name replace mode =
    if is_known (get handlers (real_name name f)) && not replace
    then err (registered (real_name name f))
    else store_info handlers (real_name name f) (handler_info f mode)

-- A positional argument of register: the function, or a name or mode.
pub data Argument : Type 0 where
  function : Function → Argument
  value : String → ModeArgument → Argument

-- What register returns: the registry after it decorated, or a decorator with its name and mode.
pub data Registration : Type 0 where
  decorated : Handlers → Registration
  decorator : Option String → Option RunMode → Registration

abbrev pub is_given {ℓ} : {A : Type ℓ} → Option A → Bool
is_given none = false
is_given (some a) = true

abbrev pub as_decorated : Result Handlers → Result Registration
as_decorated (err e) = err e
as_decorated (ok h) = ok (decorated h)

-- the second positional argument, a mode
abbrev pub second_mode :
    Option String → Option RunMode → Result (Option RunMode) → Result Registration
second_mode name mode (err e) = err e
second_mode name mode (ok m) = ok (decorator name m)

-- The text of a function names no mode.
abbrev pub mode_of : Argument → ModeArgument
mode_of (function f) = text "<function>"
mode_of (value s m) = m

abbrev pub name_of : Argument → Option String
name_of (function f) = none
name_of (value s m) = some s

-- register, behind the first normalisation of the mode
unfoldable pub register_with :
    Handlers → List Argument → Option String → Bool → Option RunMode → Result Registration
register_with handlers [] name replace mode = ok (decorator name mode)
register_with handlers (function f ∷ []) name replace mode =
    as_decorated (decorate handlers f name replace mode)
register_with handlers (function f ∷ a ∷ rest) name replace mode = err bare_arguments
register_with handlers (value s m ∷ []) name replace mode =
    if is_given name then err name_twice else ok (decorator (some s) mode)
register_with handlers (value s m ∷ a ∷ []) name replace mode =
    if is_given name
    then err name_twice
    else if is_given mode
    then err mode_twice
    else second_mode (some s) mode (normalize_handler_mode (mode_of a))
register_with handlers (value s m ∷ a ∷ b ∷ rest) name replace mode = err too_many

abbrev pub register_normalized :
    Handlers → List Argument → Option String → Bool → Result (Option RunMode) → Result Registration
register_normalized handlers args name replace (err e) = err e
register_normalized handlers args name replace (ok mode) =
    register_with handlers args name replace mode

-- register
unfoldable pub register :
    Handlers → List Argument → Option String → Bool → ModeArgument → Result Registration
register handlers args name replace mode =
    register_normalized handlers args name replace (normalize_handler_mode mode)

-- One registration: the function, its name, `replace` and the mode.
pub record Entry : Type 0 where
  pub func : Function
  pub name : Option String
  pub replace : Bool
  pub mode : Option RunMode

abbrev pub or_before : Handlers → Result Handlers → Handlers
or_before handlers (ok h) = h
or_before handlers (err e) = handlers

-- A sequence of decorations: one that raises leaves the registry.
unfoldable pub decorate_all : Handlers → List Entry → Handlers
decorate_all handlers [] = handlers
decorate_all handlers (e ∷ es) =
    decorate_all (or_before handlers (decorate handlers e.func e.name e.replace e.mode)) es
