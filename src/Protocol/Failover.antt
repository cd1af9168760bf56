-- ===== src/Protocol/Failover.antt =====
-- What `_post` comes to: the first verdict, over the rounds before which an admin was out of reach.
use pyxxl.Base.{
  ℕ, zero, suc, ◌+◌, ◌<◌, ◌≡◌, refl, sym, ap, ◌∙◌, subst, String, Bool, true, false, Option, none,
  some, List, [], ◌∷◌, nat_beq, or_else, not, ◌||◌, if◌then◌else◌, if_intro, arith,
}
use pyxxl.Protocol.Admin.{
  Response, Exchange, Once, accepted, refused, retryable, post_once, Round, done, exhausted,
  uncaught, broken, client_error, other_error, after_once, after_round, Answer, returned, raised,
  give_up, ClientError, at_address, post_round, post_loop, post,
}

-- What settles a call of `_post`: a response that is accepted, or an exception that it does not catch.
pub data Verdict : Type 0 where
  accepts : Response → Verdict
  escapes : String → Verdict

abbrev pub verdict_or : Once → Option Verdict → Option Verdict
verdict_or (accepted r) later = some (accepts r)
verdict_or (refused why) later = later
verdict_or (retryable why) later = later
verdict_or (uncaught why) later = some (escapes why)

abbrev settled : Verdict → Round
settled (accepts r) = done r
settled (escapes why) = broken why

abbrev pub retryable_or : Once → Bool → Bool
retryable_or (accepted r) later = later
retryable_or (refused why) later = later
retryable_or (retryable why) later = true
retryable_or (uncaught why) later = later

abbrev pub or_later : Option Verdict → Bool → Option Verdict → Option Verdict
or_later (some v) again later = some v
or_later none again later = if again then later else none

abbrev pub answer_of : Answer → Option Verdict
answer_of (returned r) = some (accepts r)
answer_of (raised (client_error e)) = none
answer_of (raised (other_error why)) = some (escapes why)

give_up-answers : (last : Option ClientError) → answer_of (give_up last) ≡ none
unfolding give_up
give_up-answers none = refl
give_up-answers (some e) = refl

module _ (send : ℕ → String → Exchange) where
  -- the first verdict among the admins of one round
  abbrev pub first_verdict : ℕ → List String → Option Verdict
  first_verdict times [] = none
  first_verdict times (url ∷ urls) =
      verdict_or (post_once (send times url)) (first_verdict times urls)

  -- one of the admins of a round is out of reach
  abbrev pub any_retryable : ℕ → List String → Bool
  any_retryable times [] = false
  any_retryable times (url ∷ urls) =
      retryable_or (post_once (send times url)) (any_retryable times urls)

  -- What one round comes to: a verdict, or none and the admins that were out of reach.
  data RoundView (round : Round) (had : Bool) (first : Option Verdict) (again : Bool) : Type 0 where
    settles : (v : Verdict) → round ≡ settled v → first ≡ some v → RoundView round had first again
    exhausts :
        (last : Option ClientError)
        → round ≡ exhausted (had || again) last
        → first ≡ none
        → RoundView round had first again

  view_next :
      (o : Once) (url : String) (next : Bool → Option ClientError → Round) (had : Bool)
      (first : Option Verdict) (again : Bool)
      → ((h : Bool) (l : Option ClientError) → RoundView (next h l) h first again)
      → RoundView (after_once o url next had) had (verdict_or o first) (retryable_or o again)
  view_next (accepted r) url next had first again v = settles (accepts r) refl refl
  view_next (uncaught why) url next had first again v = settles (escapes why) refl refl
  view_next (refused why) url next had first again v = v had (some (at_address url why))
  view_next (retryable why) url next had first again v = elim (v true (some (at_address url why))) [
    | settles r p q ↦ settles r p q
    | exhausts l p q ↦ exhausts l (p ∙ ap (λ b. exhausted b l) (ground arith)) q
  ]

  view_round :
      (us urls : List String) (t : ℕ) (had : Bool) (last : Option ClientError)
      → RoundView
          (post_round us send t urls had last)
          had
          (first_verdict t urls)
          (any_retryable t urls)
  view_round us [] t had last = exhausts last (ap (λ b. exhausted b last) (ground arith)) refl
  view_round us (url ∷ urls) t had last =
      view_next (post_once (send t url)) url _ had _ _ (λ h l. view_round us urls t h l)

  -- the first verdict over so many rounds: a round without one is followed by another only when
  -- an admin was out of reach
  abbrev pub first_in_rounds : List String → ℕ → ℕ → Option Verdict
  first_in_rounds urls zero t = none
  first_in_rounds urls (suc left) t =
      or_later (first_verdict t urls) (any_retryable t urls) (first_in_rounds urls left (suc t))

  next_round :
      (had : Bool) (left : ℕ) (next : Option ClientError → Answer) (later : Option Verdict)
      (last : Option ClientError)
      → answer_of (next last) ≡ later
      → (left ≡ 0 → later ≡ none)
      → answer_of (after_round (exhausted had last) left next) ≡ or_later none had later
  next_round false left next later last h end = give_up-answers last
  next_round true zero next later last h end = give_up-answers last ∙ sym (end refl)
  next_round true (suc left) next later last h end =
      if_intro (λ a. answer_of a ≡ later) (not (nat_beq (suc left) 0)) _ _ (λ b. h)
        (λ b. absurd (ground (arith, b)))

  rounds_end : (urls : List String) (left t : ℕ) → left ≡ 0 → first_in_rounds urls left t ≡ none
  rounds_end urls zero t e = refl
  rounds_end urls (suc left) t e = absurd (ground (arith, e))

  answer_of-settled :
      (v : Verdict) (left : ℕ) (next : Option ClientError → Answer)
      → answer_of (after_round (settled v) left next) ≡ some v
  answer_of-settled (accepts r) left next = refl
  answer_of-settled (escapes why) left next = refl

  pub answer_of-post_loop :
      (urls : List String) (n t : ℕ) (last : Option ClientError)
      → answer_of (post_loop urls send n t last) ≡ first_in_rounds urls n t
  answer_of-post_loop urls zero t last = give_up-answers last
  answer_of-post_loop urls (suc left) t last =
      let later = first_in_rounds urls left (suc t) in
      let next : Option ClientError → Answer = λ l. post_loop urls send left (suc t) l in
      elim (view_round urls urls t false last) [
        | settles v p q ↦
            ap (λ x. answer_of (after_round x left next)) p
            ∙ answer_of-settled v left next
            ∙ sym (ap (λ x. or_later x (any_retryable t urls) later) q)
        | exhausts l p q ↦
            ap (λ x. answer_of (after_round x left next)) p
            ∙ next_round (any_retryable t urls) left next later l
                (answer_of-post_loop urls left (suc t) l) (rounds_end urls left (suc t))
            ∙ sym (ap (λ x. or_later x (any_retryable t urls) later) q)
      ]

  -- A round is passed when no admin settles it and one is out of reach.
  abbrev pub IsPassed : List String → ℕ → Type 0
  IsPassed urls t = (first_verdict t urls ≡ none) × (any_retryable t urls ≡ true)

  pub first_in_rounds-reaches :
      (urls : List String) (n t k : ℕ) (r : Verdict)
      → k < n
      → ((j : ℕ) → j < k → IsPassed urls (t + j))
      → first_verdict (t + k) urls ≡ some r
      → first_in_rounds urls n t ≡ some r
  first_in_rounds-reaches urls zero t k r lt passed here = absurd (ground (arith, lt))
  first_in_rounds-reaches urls (suc n) t zero r lt passed here =
      let e : first_verdict t urls ≡ some r =
        subst (λ x. first_verdict x urls ≡ some r) (omega arith) here in
      ap (λ x. or_later x (any_retryable t urls) (first_in_rounds urls n (suc t))) e
  first_in_rounds-reaches urls (suc n) t (suc k) r lt passed here =
      let p = subst (λ x. IsPassed urls x) (omega arith) (passed 0 (omega arith)) in
      let later = first_in_rounds urls n (suc t) in
      ap (λ x. or_later x (any_retryable t urls) later) p.0
      ∙ ap (λ b. or_later none b later) p.1
      ∙ (first_in_rounds-reaches urls n (suc t) k r (omega (arith, lt))
          (λ j h. subst (λ x. IsPassed urls x) (omega arith) (passed (suc j) (omega (arith, h))))
          (subst (λ x. first_verdict x urls ≡ some r) (omega arith) here))

-- Whatever the network does, the first verdict decides what `_post` does, taken by rounds over the
-- admins in their order, where a round without one is followed by another only when an admin was out
-- of reach and attempts are left. It returns the response when that is one that an admin accepts,
-- raises on an exception that it does not catch, and raises an XXLClientError exactly when there is
-- no verdict.
pub post_finds_first :
    (urls : List String) (send : ℕ → String → Exchange) (retry : Option ℕ) (default : ℕ)
    → answer_of (post urls send retry default) ≡ first_in_rounds send urls (or_else retry default) 1
unfolding post
post_finds_first urls send retry default =
    answer_of-post_loop send urls (or_else retry default) 1 none

-- If round k has a verdict, k is within the attempts, and in each round before it there was none and
-- an admin was out of reach, then that verdict decides what `_post` does.
pub post_retries :
    (urls : List String) (send : ℕ → String → Exchange) (retry : Option ℕ) (default k : ℕ)
    (r : Verdict)
    → k < or_else retry default
    → ((j : ℕ) → j < k → IsPassed send urls (1 + j))
    → first_verdict send (1 + k) urls ≡ some r
    → answer_of (post urls send retry default) ≡ some r
post_retries urls send retry default k r lt passed here =
    post_finds_first urls send retry default
    ∙ first_in_rounds-reaches send urls (or_else retry default) 1 k r lt passed here
