-- ===== src/Events/Rounds.antt =====
-- A round of the event queue as a relation, and that `runOnce` makes just such a round.
use pimc_toolkit.Common.{
  ℕ, ◌+◌, ◌%◌, ◌^◌, ◌≤◌, ◌<◌, ◌≡◌, refl, ap, List, [], ◌∷◌, ◌++◌, ◌⊎◌, inl, inr, Bool, true, false,
  length, arith,
}
use pimc_toolkit.Core.Result.{Result, ok, err}
use pimc_toolkit.Events.FixedEventQueue.{EventHandler, chain_events, run_once}

module _ {S : Type 0} where
  answer_cases : (p : S × Bool) → ((s : S) × (p ≡ (s, true))) ⊎ ((s : S) × (p ≡ (s, false)))
  answer_cases (s, true) = inl (s, refl)
  answer_cases (s, false) = inr (s, refl)

module _ {S E : Type 0} where
  -- The handlers are asked in their order, those that are ready fire, and none of them fails: `n` of
  -- them have fired.
  pub data Through : List (EventHandler S E) → S → ℕ → S → Type 0 where
    finished : {s : S} → Through [] s 0 s
    skip :
        {eh : EventHandler S E} {rest : List (EventHandler S E)} {s s1 s' : S} {n : ℕ}
        → eh.ready s ≡ (s1, false)
        → Through rest s1 n s'
        → Through (eh ∷ rest) s n s'
    fire :
        {eh : EventHandler S E} {rest : List (EventHandler S E)} {s s1 s2 s' : S} {n : ℕ}
        → eh.ready s ≡ (s1, true)
        → eh.fire s1 ≡ (s2, ok tt)
        → Through rest s2 n s'
        → Through (eh ∷ rest) s (n + 1) s'

  -- The round ends at a handler that is ready and fails: those before it went through, and those
  -- behind it are not asked.
  pub record Stopped (handlers : List (EventHandler S E)) (s s' : S) (e : E) : Type 0 where
    pub before : List (EventHandler S E)
    pub behind : List (EventHandler S E)
    pub handler : EventHandler S E
    pub split : handlers ≡ before ++ (handler ∷ behind)
    pub fired : ℕ
    pub reached : S
    pub asked : S
    pub through : Through before s fired reached
    pub is_ready : handler.ready reached ≡ (asked, true)
    pub fails : handler.fire asked ≡ (s', err e)

  pub data Round (handlers : List (EventHandler S E)) (s : S) : S → Result ℕ E → Type 0 where
    all_asked :
        {s' : S} {n : ℕ}
        → n ≤ length handlers
        → Through handlers s n s'
        → Round handlers s s' (ok n)
    stopped : {s' : S} {e : E} → Stopped handlers s s' e → Round handlers s s' (err e)

  outcome_cases :
      (p : S × Result (Unit {0}) E)
      → ((s : S) × (p ≡ (s, ok tt))) ⊎ ((s : S) × (e : E) × (p ≡ (s, err e)))
  outcome_cases (s, ok _) = inl (s, refl)
  outcome_cases (s, err e) = inr (s, e, refl)

  -- How a chain that has counted `count` events comes out.
  abbrev Outcome : List (EventHandler S E) → ℕ → S → Type 0
  Outcome handlers count s =
      ((s' : S) × (n : ℕ) × (n ≤ length handlers)
        × Through handlers s n s'
        × (chain_events handlers count s ≡ (s', ok (count + n))))
      ⊎ ((s' : S) × (e : E) × Stopped handlers s s' e
          × (chain_events handlers count s ≡ (s', err e)))

  skipped :
      (eh : EventHandler S E) (rest : List (EventHandler S E)) (count : ℕ) (s s1 : S)
      → eh.ready s ≡ (s1, false)
      → Outcome rest count s1
      → Outcome (eh ∷ rest) count s
  unfolding chain_events
  skipped eh rest count s s1 q (inl (s', n, le, t, e)) =
      inl (s', n, omega arith, skip q t, rw (q, e) refl)
  skipped eh rest count s s1 q (inr (s', e, st, c)) = inr (
    s',
    e,
    record {
      before = eh ∷ st.before;
      behind = st.behind;
      handler = st.handler;
      split = ap (λ t. eh ∷ t) st.split;
      fired = st.fired;
      reached = st.reached;
      asked = st.asked;
      through = skip q st.through;
      is_ready = st.is_ready;
      fails = st.fails;
    },
    rw (q, c) refl,
  )

  fired_on :
      (eh : EventHandler S E) (rest : List (EventHandler S E)) (count : ℕ) (s s1 s2 : S)
      → count + 1 < 2 ^ 32
      → eh.ready s ≡ (s1, true)
      → eh.fire s1 ≡ (s2, ok tt)
      → Outcome rest (count + 1) s2
      → Outcome (eh ∷ rest) count s
  unfolding chain_events
  fired_on eh rest count s s1 s2 lt q f (inl (s', n, le, t, e)) =
      let exact : (count + 1) % 2 ^ 32 ≡ count + 1 = omega arith in
      let total : count + 1 + n ≡ count + (n + 1) = omega arith in
      inl (s', n + 1, omega arith, fire q f t, rw (q, f, exact, e, total) refl)
  fired_on eh rest count s s1 s2 lt q f (inr (s', e, st, c)) =
      let exact : (count + 1) % 2 ^ 32 ≡ count + 1 = omega arith in
      inr (
        s',
        e,
        record {
          before = eh ∷ st.before;
          behind = st.behind;
          handler = st.handler;
          split = ap (λ t. eh ∷ t) st.split;
          fired = st.fired + 1;
          reached = st.reached;
          asked = st.asked;
          through = fire q f st.through;
          is_ready = st.is_ready;
          fails = st.fails;
        },
        rw (q, f, exact, c) refl,
      )

  failed_at :
      (eh : EventHandler S E) (rest : List (EventHandler S E)) (count : ℕ) (s s1 s2 : S) (e : E)
      → eh.ready s ≡ (s1, true)
      → eh.fire s1 ≡ (s2, err e)
      → Outcome (eh ∷ rest) count s
  unfolding chain_events
  failed_at eh rest count s s1 s2 e q f = inr (
    s2,
    e,
    record {
      before = [];
      behind = rest;
      handler = eh;
      split = refl;
      fired = 0;
      reached = s;
      asked = s1;
      through = finished;
      is_ready = q;
      fails = f;
    },
    rw (q, f) refl,
  )

  chain_events_cases :
      (handlers : List (EventHandler S E)) (count : ℕ) (s : S)
      → count + length handlers < 2 ^ 32
      → Outcome handlers count s
  chain_events_cases [] count s lt =
      unfold chain_events in
      let none_more : count ≡ count + 0 = omega arith in
      inl (s, 0, omega arith, finished, ap (λ n. (s, ok n)) none_more)
  chain_events_cases (eh ∷ rest) count s lt = elim (answer_cases (eh.ready s)) [
    | inr (s1, q) ↦ skipped eh rest count s s1 q (chain_events_cases rest count s1 (omega arith))
    | inl (s1, q) ↦ elim (outcome_cases (eh.fire s1)) [
      | inl (s2, f) ↦
          fired_on eh rest count s s1 s2 (omega arith) q f
            (chain_events_cases rest (count + 1) s2 (omega arith))
      | inr (s2, e, f) ↦ failed_at eh rest count s s1 s2 e q f
    ]
  ]

  -- Every call of `runOnce` is a round, where the handlers are fewer than 2 ^ 32. Either all handlers
  -- are asked in their order, those that are ready fire and the result is their number; or the first
  -- one that fails ends the round with its error, and those behind it are not asked.
  pub run_once-Round :
      (handlers : List (EventHandler S E)) (s : S)
      → length handlers < 2 ^ 32
      → Round handlers s (run_once handlers s).0 (run_once handlers s).1
  unfolding run_once
  run_once-Round handlers s lt = elim (chain_events_cases handlers 0 s (omega arith)) [
    | inl (s', n, le, t, e) ↦
        let zero_plus : 0 + n ≡ n = omega arith in rw (e, zero_plus) (all_asked le t)
    | inr (s', e, st, c) ↦ rw c (stopped st)
  ]
