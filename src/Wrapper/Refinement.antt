-- ===== src/Wrapper/Refinement.antt =====
-- The wrapper of src/interrupt/mod.rs against a machine without its status: whether it is enabled, and the
-- two stacks, are enough.
use fuguex_peripheral.Base.{
  ℕ, suc, ◌+◌, ◌≤◌, ◌<◌, ◌≡◌, refl, sym, ap, ◌∙◌, inl, inr, arith, Bool, true, false, not, ◌&&◌,
  List, [], ◌∷◌, push, pop, is_empty, length, length-push, length-pop, Outcome, ok, err, panic,
  ◌>>=◌, >>=-eq-ok, if◌then◌else◌, Bool-cases, Option-cases,
}
use fuguex_peripheral.Interrupt.{InterruptHandlerOverrider, HookOutcome}
use fuguex_peripheral.Wrapper.{
  fired, usize_mod, status_fire, status_unfire, has_fired, fired_count, resumed, InterruptWrapper,
  disable, enable, top_is, unwind, enter, dispatch, hook_architectural_step,
}
use fuguex_peripheral.Wrapper.Runs.{Call, hook, turn_off, turn_on}
use fuguex_peripheral.Wrapper.Stacks.{
  Stacks, status_of, wrapped, is_running, come_back, ask, step, steps, hooks,
}

status_unfire-status_of :
    (checks : Bool) (rs : List ℕ)
    → length rs < usize_mod
    → status_unfire checks (resumed rs) ≡ ok (resumed (pop rs))
unfolding status_unfire
status_unfire-status_of checks [] h = refl
status_unfire-status_of checks (x ∷ []) h = refl
status_unfire-status_of checks (x ∷ y ∷ rs) h =
    let one_less : status_unfire checks (fired (suc (suc (length rs))))
        ≡ ok (fired (suc (length rs))) =
      ground arith in
    one_less ∙ ap (λ k. ok (fired (suc k))) (omega (arith, length-pop (y ∷ rs)))

status_fire-status_of :
    (checks enabled : Bool) (rs : List ℕ) (a : ℕ)
    → length rs + 1 < usize_mod
    → status_fire checks (status_of enabled rs) ≡ ok (status_of enabled (push rs a))
unfolding status_fire
status_fire-status_of checks false rs a h = refl
status_fire-status_of checks true [] a h = refl
status_fire-status_of checks true (x ∷ rs) a h =
    let one_more : status_fire checks (fired (suc (length rs)))
        ≡ ok (fired (suc (suc (length rs)))) =
      ground arith in
    one_more ∙ ap (λ k. ok (fired (suc k))) (omega (arith, length-push rs a))

has_fired-status_of :
    (enabled : Bool) (rs : List ℕ)
    → has_fired (status_of enabled rs) ≡ (enabled && not (is_empty rs))
has_fired-status_of false rs = refl
has_fired-status_of true [] = refl
has_fired-status_of true (x ∷ rs) = refl

fired_count-status_of :
    (enabled : Bool) (rs : List ℕ)
    → fired_count (status_of enabled rs) ≡ (if enabled then length rs else 0)
fired_count-status_of false rs = refl
fired_count-status_of true [] = refl
fired_count-status_of true (x ∷ rs) = refl

module _ {I : Type 0} (checks allow_nesting : Bool) where
  abbrev at : I → Bool → List ℕ → List ℕ → InterruptWrapper I
  at i enabled hs rs =
      wrapped allow_nesting
        (record { interrupt = i; enabled = enabled; handlers = hs; returns = rs })

  unwind-at :
      (i : I) (enabled : Bool) (hs rs : List ℕ) (address : ℕ)
      → length rs < usize_mod
      → unwind checks (at i enabled hs rs) address
        ≡ ok (at i enabled hs (if enabled && top_is rs address then pop rs else rs))
  unfolding unwind
  unwind-at i false hs rs address room = refl
  unwind-at i true hs [] address room = refl
  unwind-at i true hs (x ∷ rs) address room = elim (Bool-cases (top_is (x ∷ rs) address)) [
    | inl back ↦ rw back (rw (status_unfire-status_of checks (x ∷ rs) room) refl)
    | inr on ↦ rw on refl
  ]

  enter-at :
      (i : I) (enabled : Bool) (hs rs : List ℕ) (h address : ℕ)
      → length rs + 1 < usize_mod
      → enter checks (at i enabled hs rs) h address
        ≡ ok (at i enabled (push hs h) (push rs address))
  unfolding enter
  enter-at i enabled hs rs h address room =
      rw (status_fire-status_of checks enabled rs address room) refl

  enable-at :
      (i : I) (enabled : Bool) (hs rs : List ℕ) → enable (at i enabled hs rs) ≡ at i true hs rs
  unfolding enable
  enable-at i false hs rs = refl
  enable-at i true hs [] = refl
  enable-at i true hs (x ∷ rs) = refl

  disable-at :
      (i : I) (enabled : Bool) (hs rs : List ℕ) → disable (at i enabled hs rs) ≡ at i false hs rs
  unfolding disable
  disable-at i enabled hs rs = refl

  come_back-if :
      (i : I) (enabled : Bool) (hs rs : List ℕ) (address : ℕ)
      → wrapped allow_nesting (
          come_back
            (record { interrupt = i; enabled = enabled; handlers = hs; returns = rs })
            address)
        ≡ at i enabled hs (if enabled && top_is rs address then pop rs else rs)
  unfolding come_back
  come_back-if i enabled hs rs address = elim (Bool-cases (enabled && top_is rs address)) [
    | inl back ↦ rw back refl
    | inr on ↦ rw on refl
  ]

>>=_congr :
    {A B C : Type 0} (first : Outcome A) (f : A → Outcome C) (g : A → Outcome B) (k : B → Outcome C)
    → ((a : A) → f a ≡ (g a >>= k))
    → (first >>= f) ≡ ((first >>= g) >>= k)
>>=_congr (ok a) f g k h = h a
>>=_congr (err e) f g k h = refl
>>=_congr panic f g k h = refl

>>=_exchange :
    {A B C D : Type 0} (first : Outcome A) (f : A → Outcome B) (f' : B → Outcome D)
    (g : A → Outcome C) (g' : C → Outcome D)
    → ((a : A) → first ≡ ok a → (f a >>= f') ≡ (g a >>= g'))
    → ((first >>= f) >>= f') ≡ ((first >>= g) >>= g')
>>=_exchange (ok a) f f' g g' h = h a refl
>>=_exchange (err e) f f' g g' h = refl
>>=_exchange panic f f' g g' h = refl

length-come_back :
    {I : Type 0} (p : Stacks I) (address : ℕ)
    → length (come_back p address).returns ≤ length p.returns
unfolding come_back
length-come_back p address = elim (Bool-cases (p.enabled && top_is p.returns address)) [
  | inl back ↦ rw back (omega (arith, length-pop p.returns))
  | inr on ↦ rw on (omega arith)
]

module _ {State Operation : Type 0} (o : InterruptHandlerOverrider State Operation)
    (checks allow_nesting : Bool) where
  -- The result of the wrapper for a result of the machine.
  abbrev lift :
      Stacks o.Self × State × HookOutcome → Outcome (InterruptWrapper o.Self × State × HookOutcome)
  lift (p, state, out) = ok (wrapped allow_nesting p, state, out)

  dispatch-ask :
      (p : Stacks o.Self) (state : State) (address : ℕ) (operation : Operation)
      → length p.returns + 1 < usize_mod
      → dispatch o checks (wrapped allow_nesting p) state address operation
        ≡ (ask o p state address operation >>= lift)
  unfolding dispatch ask
  dispatch-ask p state address operation room = rw (fired_count-status_of p.enabled p.returns) (
      >>=_congr
        (o.fire p.interrupt (if p.enabled then length p.returns else 0) state address operation) _ _
        lift
        (λ (taken, i, s). elim (Option-cases taken) [
          | inl idle ↦ rw idle refl
          | inr (h, entered) ↦ rw entered (
              rw (enter-at checks allow_nesting i p.enabled p.handlers p.returns h address room)
                refl)
        ]))

  step-wrapped :
      (p : Stacks o.Self) (state : State) (address : ℕ) (operation : Operation)
      → length p.returns + 1 < usize_mod
      → hook_architectural_step o checks (wrapped allow_nesting p) state address operation
        ≡ (step o p state address operation >>= lift)
  unfolding hook_architectural_step step
  step-wrapped p state address operation room =
      let back = come_back p address in
      let shorter : length back.returns ≤ length p.returns = length-come_back p address in
      let unwound : unwind checks (wrapped allow_nesting p) address
          ≡ ok (wrapped allow_nesting back) =
        unwind-at checks allow_nesting p.interrupt p.enabled p.handlers p.returns address
          (omega arith)
        ∙ ap ok (
            sym (
              come_back-if checks allow_nesting p.interrupt p.enabled p.handlers p.returns
                address)) in
      let asked = dispatch-ask back state address operation (omega (arith, shorter)) in
      let running = has_fired-status_of back.enabled back.returns in
      elim (Bool-cases (is_running back && top_is back.handlers address)) [
        | inl entry ↦ rw unwound (rw running (rw entry refl))
        | inr other ↦ rw unwound (rw running (rw other asked))
      ]

  -- The length of the stack in a result.
  returned :
      {p q : Stacks o.Self} {s s' : State} {out out' : HookOutcome}
      → ◌≡◌ {A = Outcome (Stacks o.Self × State × HookOutcome)} (ok (p, s, out)) (ok (q, s', out'))
      → length p.returns ≡ length q.returns
  returned {p = p} {q = q} same = let equal : p ≡ q = cc same in ap (λ r. length r.returns) equal

  ask-length :
      (p q : Stacks o.Self) (s s' : State) (address : ℕ) (operation : Operation) (out : HookOutcome)
      → ask o p s address operation ≡ ok (q, s', out)
      → length q.returns ≤ length p.returns + 1
  unfolding ask
  ask-length p q s s' address operation out done =
      let ((taken, i, t), fired_now, rest) =
        >>=-eq-ok (o.fire p.interrupt _ s address operation) _ done in
      elim (Option-cases taken) [
        | inl idle ↦
            let same : length p.returns ≡ length q.returns = returned (rw idle at rest) in
            omega (arith, same)
        | inr (h, entered) ↦
            let same : length (push p.returns address) ≡ length q.returns =
              returned (rw entered at rest) in
            omega (arith, same, length-push p.returns address)
      ]

  step-length :
      (p q : Stacks o.Self) (s s' : State) (address : ℕ) (operation : Operation) (out : HookOutcome)
      → step o p s address operation ≡ ok (q, s', out)
      → length q.returns ≤ length p.returns + 1
  unfolding step
  step-length p q s s' address operation out done =
      let back = come_back p address in
      let shorter : length back.returns ≤ length p.returns = length-come_back p address in
      elim (Bool-cases (is_running back && top_is back.handlers address)) [
        | inl entry ↦
            let same : length back.returns ≡ length q.returns = returned (rw entry at done) in
            omega (arith, shorter, same)
        | inr other ↦
            let asked = rw other at done in
            omega (arith, shorter, ask-length back q s s' address operation out asked)
      ]

  -- The wrapper does what the machine of a flag and two stacks does: for any overrider, whether it answers,
  -- fails or panics, and any sequence of calls of the step hook, `disable` and `enable`, the hooks give the
  -- same states and outcomes, and the wrapper that is left is the one that the machine's stacks stand for.
  -- The return addresses and the calls together are fewer than 2 ^ 64.
  pub hooks_refine :
      (calls : List (Call State Operation)) (p : Stacks o.Self)
      → length p.returns + length calls < usize_mod
      → hooks o checks calls (wrapped allow_nesting p)
        ≡ (steps o calls p >>= λ (last, outs). ok (wrapped allow_nesting last, outs))
  unfolding hooks steps
  hooks_refine [] p room = refl
  hooks_refine (hook state address operation ∷ calls) p room =
      rw (step-wrapped p state address operation (omega arith)) (
        >>=_exchange (step o p state address operation) lift _ _ _ λ (q, s', out) done.
          let grown = step-length p q state s' address operation out done in
          rw (hooks_refine calls q (omega (arith, grown)))
            (>>=_exchange (steps o calls q) _ _ _ _ (λ last e. refl)))
  hooks_refine (turn_off ∷ calls) p room =
      rw (disable-at checks allow_nesting p.interrupt p.enabled p.handlers p.returns)
        (hooks_refine calls (record p { enabled = false }) (omega arith))
  hooks_refine (turn_on ∷ calls) p room =
      rw (enable-at checks allow_nesting p.interrupt p.enabled p.handlers p.returns)
        (hooks_refine calls (record p { enabled = true }) (omega arith))
