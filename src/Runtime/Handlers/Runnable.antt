-- ===== src/Runtime/Handlers/Runnable.antt =====
-- Every handler of the registry fits its mode, and a registration touches its own name only.
use pyxxl.Base.{
  ◌≡◌, refl, subst, inl, inr, String, Bool, true, false, Option, none, some, List, [], ◌∷◌, empty,
  get, not, ◌&&◌, ◌||◌, string_eq, ◌==◌, if_intro, Bool-cases, get-set, get-empty, arith,
}
use pyxxl.Model.{RunMode, async, thread, process}
use pyxxl.Runtime.Handlers.Registry.{
  Function, HandlerInfo, Result, ok, err, is_mode, is_process_safe, default_mode, check_mode,
  handler_info, real_name, Handlers, is_known, store_info, decorate, registered, Entry, or_before,
  decorate_all,
}

-- A handler that `start` can run in its mode: a coroutine function exactly in the mode `async`, and
-- one that a child process can import in the mode `process`.
pub record IsRunnable (h : HandlerInfo) : Type 0 where
  pub asynchronous : is_mode h.mode async ≡ h.handler.is_coroutine
  pub importable : is_mode h.mode process ≡ true → is_process_safe h.handler ≡ true
  pub flag : h.is_async ≡ h.handler.is_coroutine

-- What a check comes to.
abbrev Passes : Function → Result HandlerInfo → Type 0
Passes f (ok h) = IsRunnable h × (h.handler ≡ f)
Passes f (err e) = Unit

check_mode-Passes : (f : Function) (m : RunMode) → Passes f (check_mode f m)
unfolding check_mode
check_mode-Passes f m =
    if_intro (Passes f) (is_mode m async && not f.is_coroutine) _ _ (λ e. tt)
      λ a.
        if_intro (Passes f) ((is_mode m thread || is_mode m process) && f.is_coroutine) _ _
          (λ e. tt)
          λ b.
            if_intro (Passes f) (is_mode m process && not (is_process_safe f)) _ _ (λ e. tt)
              λ c. (
                record {
                  asynchronous = sync m a b;
                  importable = λ p. ground (arith, p, c);
                  flag = refl;
                },
                refl,
              )
  where
    sync :
        (m : RunMode)
        → (is_mode m async && not f.is_coroutine) ≡ false
        → ((is_mode m thread || is_mode m process) && f.is_coroutine) ≡ false
        → is_mode m async ≡ f.is_coroutine
    sync async a b = ground (arith, a)
    sync thread a b = ground (arith, b)
    sync process a b = ground (arith, b)

-- Every handler of the registry can run.
abbrev pub AllRunnable : Handlers → Type 0
AllRunnable handlers = (n : String) (h : HandlerInfo) → get handlers n ≡ some h → IsRunnable h

store_info-AllRunnable :
    (handlers : Handlers) (name : String) (f : Function) (r : Result HandlerInfo)
    → Passes f r
    → AllRunnable handlers
    → AllRunnable (or_before handlers (store_info handlers name r))
store_info-AllRunnable handlers name f (err x) p all n h e = all n h e
store_info-AllRunnable handlers name f (ok info) p all n h e = elim (Bool-cases (name == n)) [
  | inl s ↦
      let same : some info ≡ some h = ground (arith, get-set handlers name n info, s, e) in
      subst (λ o. Stored o) same p.0
  | inr s ↦ all n h (ground (arith, get-set handlers name n info, s, e))
]
  where
    Stored : Option HandlerInfo → Type 0
    Stored none = Unit
    Stored (some x) = IsRunnable x

decorate-AllRunnable :
    (handlers : Handlers) (f : Function) (name : Option String) (replace : Bool)
    (mode : Option RunMode)
    → AllRunnable handlers
    → AllRunnable (or_before handlers (decorate handlers f name replace mode))
unfolding decorate handler_info
decorate-AllRunnable handlers f name replace mode all =
    if_intro (λ r. AllRunnable (or_before handlers r))
      (is_known (get handlers (real_name name f)) && not replace) _ _ (λ e. all)
      λ e.
        store_info-AllRunnable handlers (real_name name f) f (check_mode f (default_mode f mode))
          (check_mode-Passes f (default_mode f mode)) all

-- Whatever is registered, in whatever order, with or without errors: every handler that a name finds
-- is a coroutine function exactly when its mode is `async`, and importable by a child process when
-- its mode is `process`.
pub decorate_all-AllRunnable : (es : List Entry) → AllRunnable (decorate_all empty es)
unfolding decorate_all
decorate_all-AllRunnable es =
    go empty es (λ n h e. absurd (ground (arith, get-empty {K = String} {V = HandlerInfo} n, e)))
  where
    go :
        (handlers : Handlers) (es : List Entry)
        → AllRunnable handlers
        → AllRunnable (decorate_all handlers es)
    go handlers [] all = all
    go handlers (e ∷ es) all =
        go (or_before handlers (decorate handlers e.func e.name e.replace e.mode)) es
          (decorate-AllRunnable handlers e.func e.name e.replace e.mode all)

store_info-get :
    (handlers : Handlers) (name n : String) (r : Result HandlerInfo)
    → (name == n) ≡ false
    → get (or_before handlers (store_info handlers name r)) n ≡ get handlers n
store_info-get handlers name n (err e) h = refl
store_info-get handlers name n (ok info) h = ground (arith, get-set handlers name n info, h)

-- A registration leaves every other name; for a name that is taken it raises and leaves the handler
-- that is there, unless it is told to replace it.
pub decorate_keeps :
    (handlers : Handlers) (f : Function) (name : Option String) (replace : Bool)
    (mode : Option RunMode)
    → ((n : String)
        → (real_name name f == n) ≡ false
        → get (or_before handlers (decorate handlers f name replace mode)) n ≡ get handlers n)
      × ((is_known (get handlers (real_name name f)) ≡ true)
          → replace ≡ false
          → decorate handlers f name replace mode ≡ err (registered (real_name name f)))
unfolding decorate
decorate_keeps handlers f name replace mode = (
  λ n h.
      if_intro (λ r. get (or_before handlers r) n ≡ get handlers n)
        (is_known (get handlers (real_name name f)) && not replace) _ _ (λ e. refl)
        (λ e. store_info-get handlers (real_name name f) n (handler_info f mode) h),
  λ k r. rw (k, r) refl,
)
