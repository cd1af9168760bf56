-- ===== src/Runtime/Handlers/Ladder.antt =====
-- pyxxl/runtime/handlers.py: `_stop_process`. The process is asked for whether it is alive once at
-- each look, in order from 0 on; what it answers at a look is an argument.
use pyxxl.Base.{
  ℕ, zero, suc, ◌+◌, ◌≤◌, ◌≡◌, refl, sym, ap, ◌∙◌, subst, inl, inr, Bool, true, false, List, [],
  ◌∷◌, ◌&&◌, ◌||◌, if◌then◌else◌, if_intro, Bool-cases, arith,
}

pub data Action : Type 0 where
  -- `cancel_event.set()`
  signals : Action
  -- `asyncio.sleep(0.05)`
  sleeps : Action
  terminates kills : Action

module _ (alive : ℕ → Bool) where
  -- a loop of so many looks, from look `k` on, and what follows it
  abbrev pub poll : ℕ → ℕ → (ℕ → List Action) → List Action
  poll zero k next = next k
  poll (suc n) k next = let rest = poll n (suc k) next in if alive k then sleeps ∷ rest else []

  -- `if process.is_alive() and hasattr(process, "kill")`
  abbrev pub kill_if_alive : Bool → ℕ → List Action
  kill_if_alive can_kill k = if alive k && can_kill then kills ∷ [] else []

  -- `if process.is_alive(): process.terminate()` and what follows
  abbrev pub terminate_if_alive : Bool → ℕ → List Action
  terminate_if_alive can_kill k =
      let rest = poll 20 (suc k) (kill_if_alive can_kill) in
      if alive k then terminates ∷ rest else rest

-- _stop_process
unfoldable pub stop_process : (ℕ → Bool) → Bool → List Action
stop_process alive can_kill = signals ∷ poll alive 10 0 (terminate_if_alive alive can_kill)

abbrev pub is_terminate : Action → Bool
is_terminate terminates = true
is_terminate _ = false

abbrev pub is_kill : Action → Bool
is_kill kills = true
is_kill _ = false

abbrev pub any_action : (Action → Bool) → List Action → Bool
any_action test [] = false
any_action test (a ∷ rest) = test a || any_action test rest

module _ (alive : ℕ → Bool) (dead_stays : (k : ℕ) → alive k ≡ false → alive (suc k) ≡ false) where
  -- alive later, alive now
  alive_before : (n k : ℕ) → alive (k + n) ≡ true → alive k ≡ true
  alive_before zero k h = subst (λ x. alive x ≡ true) (omega arith) h
  alive_before (suc n) k h =
      let later = alive_before n (suc k) (subst (λ x. alive x ≡ true) (omega arith) h) in
      elim (Bool-cases (alive k)) [
        | inl e ↦ e
        | inr e ↦ absurd (ground (arith, later, dead_stays k e))
      ]

  dead_later : (k n m : ℕ) → k + n ≡ m → alive k ≡ false → alive m ≡ false
  dead_later k n m e h = elim (Bool-cases (alive m)) [
    | inl l ↦ absurd (ground (arith, h, alive_before n k (subst (λ x. alive x ≡ true) (sym e) l)))
    | inr l ↦ l
  ]

  -- An action that is none of the loop's stands behind it, and only where the process lived so long.
  any-poll :
      (test : Action → Bool) (n k m : ℕ) (next : ℕ → List Action)
      → test sleeps ≡ false
      → k + n ≡ m
      → (alive m ≡ false → any_action test (next m) ≡ false)
      → any_action test (poll alive n k next) ≡ any_action test (next m)
  any-poll test zero k m next quiet e done = ap (λ x. any_action test (next x)) (omega (arith, e))
  any-poll test (suc n) k m next quiet e done =
      if_intro (λ l. any_action test l ≡ any_action test (next m)) (alive k) _ _
        (λ h.
          ap (λ b. b || any_action test (poll alive n (suc k) next)) quiet
          ∙ any-poll test n (suc k) m next quiet (omega (arith, e)) done)
        λ h. sym (done (dead_later k (suc n) m e h))

  no_terminate :
      (can_kill : Bool) (k : ℕ) → any_action is_terminate (kill_if_alive alive can_kill k) ≡ false
  no_terminate can_kill k =
      if_intro (λ l. any_action is_terminate l ≡ false) (alive k && can_kill) _ _ (λ h. refl)
        (λ h. refl)

  kills_last :
      (can_kill : Bool) (k : ℕ)
      → any_action is_kill (kill_if_alive alive can_kill k) ≡ (alive k && can_kill)
  kills_last can_kill k =
      if_intro (λ l. any_action is_kill l ≡ (alive k && can_kill)) (alive k && can_kill) _ _ sym sym

  kill_later :
      (can_kill : Bool)
      → any_action is_kill (poll alive 20 11 (kill_if_alive alive can_kill))
        ≡ (alive 31 && can_kill)
  kill_later can_kill =
      any-poll is_kill 20 11 31 (kill_if_alive alive can_kill) refl refl
        (λ h. kills_last can_kill 31 ∙ ap (λ b. b && can_kill) h)
      ∙ kills_last can_kill 31

  terminate-any :
      (can_kill : Bool) → any_action is_terminate (terminate_if_alive alive can_kill 10) ≡ alive 10
  terminate-any can_kill =
      let quiet =
        any-poll is_terminate 20 11 31 (kill_if_alive alive can_kill) refl refl
          (λ h. no_terminate can_kill 31) in
      elim (Bool-cases (alive 10)) [
        | inl e ↦
            ap
              (λ b. any_action is_terminate (
                if b
                then terminates ∷ poll alive 20 11 (kill_if_alive alive can_kill)
                else poll alive 20 11 (kill_if_alive alive can_kill)))
              e
            ∙ sym e
        | inr e ↦
            ap
              (λ b. any_action is_terminate (
                if b
                then terminates ∷ poll alive 20 11 (kill_if_alive alive can_kill)
                else poll alive 20 11 (kill_if_alive alive can_kill)))
              e
            ∙ quiet
            ∙ no_terminate can_kill 31
            ∙ sym e
      ]

  kill-any :
      (can_kill : Bool)
      → any_action is_kill (terminate_if_alive alive can_kill 10) ≡ (alive 31 && can_kill)
  kill-any can_kill =
      if_intro (λ l. any_action is_kill l ≡ (alive 31 && can_kill)) (alive 10) _ _
        (λ h. kill_later can_kill) (λ h. kill_later can_kill)

-- The number of waits.
abbrev pub waits : List Action → ℕ
waits [] = 0
waits (sleeps ∷ rest) = suc (waits rest)
waits (_ ∷ rest) = waits rest

waits-poll :
    (alive : ℕ → Bool) (n k bound : ℕ) (next : ℕ → List Action)
    → ((j : ℕ) → waits (next j) ≤ bound)
    → waits (poll alive n k next) ≤ n + bound
waits-poll alive zero k bound next h = omega (arith, h k)
waits-poll alive (suc n) k bound next h =
    if_intro (λ l. waits l ≤ suc n + bound) (alive k) _ _
      (λ a. omega (arith, waits-poll alive n (suc k) bound next h)) (λ a. omega arith)

waits-kill_if_alive :
    (alive : ℕ → Bool) (can_kill : Bool) (k : ℕ) → waits (kill_if_alive alive can_kill k) ≤ 0
waits-kill_if_alive alive can_kill k =
    if_intro (λ l. waits l ≤ 0) (alive k && can_kill) _ _ (λ h. omega arith) (λ h. omega arith)

abbrev pub is_sleep : Action → Bool
is_sleep sleeps = true
is_sleep _ = false

abbrev pub asks_first : List Action → Bool
asks_first (signals ∷ rest) = true
asks_first _ = false

waits-stop_process : (alive : ℕ → Bool) (can_kill : Bool) → waits (stop_process alive can_kill) ≤ 30
unfolding stop_process
waits-stop_process alive can_kill =
    waits-poll alive 10 0 20 (terminate_if_alive alive can_kill) λ j.
      if_intro (λ l. waits l ≤ 20) (alive j) _ _
        (λ h.
          waits-poll alive 20 (suc j) 0 (kill_if_alive alive can_kill)
            (waits-kill_if_alive alive can_kill))
        (λ h.
          waits-poll alive 20 (suc j) 0 (kill_if_alive alive can_kill)
            (waits-kill_if_alive alive can_kill))

-- A process that stays dead once it is, is first asked to stop; it is terminated exactly when it is
-- still alive after ten waits, and killed exactly when it is still alive after twenty more and can be
-- killed; it is waited for exactly when it is alive at first, and at most thirty times.
pub stop_process_ladder :
    (alive : ℕ → Bool) (can_kill : Bool)
    → ((k : ℕ) → alive k ≡ false → alive (suc k) ≡ false)
    → (any_action is_terminate (stop_process alive can_kill) ≡ alive 10)
      × (any_action is_kill (stop_process alive can_kill) ≡ (alive 31 && can_kill))
      × (asks_first (stop_process alive can_kill) ≡ true)
      × (waits (stop_process alive can_kill) ≤ 30)
      × (any_action is_sleep (stop_process alive can_kill) ≡ alive 0)
unfolding stop_process
stop_process_ladder alive can_kill stays = (
  any-poll alive stays is_terminate 10 0 10 (terminate_if_alive alive can_kill) refl refl
        (λ h. terminate-any alive stays can_kill ∙ h)
      ∙ terminate-any alive stays can_kill,
  any-poll alive stays is_kill 10 0 10 (terminate_if_alive alive can_kill) refl refl (λ h.
        kill-any alive stays can_kill
        ∙ ap (λ b. b && can_kill) (dead_later alive stays 10 21 31 refl h))
      ∙ kill-any alive stays can_kill,
  refl,
  waits-stop_process alive can_kill,
  ground arith,
)
