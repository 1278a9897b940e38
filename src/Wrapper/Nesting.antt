-- ===== src/Wrapper/Nesting.antt =====
-- One interrupt through the hook of src/interrupt/mod.rs: it fires, its handler is entered, and
-- control comes back to where it fired.
use fuguex_peripheral.Base.{
  ℕ, zero, suc, ◌+◌, ◌<◌, ◌≡◌, refl, sym, arith, Bool, true, false, ◌&&◌, List, push, some, none,
  Outcome, ok, ◌≢◌, pop-push, get_last?-push, eq→==, ne→==, [], ◌∷◌, ◌>>=◌,
}
use fuguex_peripheral.Interrupt.{InterruptHandlerOverrider, HookOutcome, unchanged, pass, branch}
use fuguex_peripheral.Wrapper.{
  Status, disabled, fired, pending, status_fire, status_unfire, has_fired, is_disabled, fired_count,
  InterruptWrapper, top_is, unwind, enter, dispatch, hook_architectural_step, usize_mod,
}
use fuguex_peripheral.Wrapper.Invariant.{Inv, HasRoom, Counts}

status_fire-eq-fired :
    (checks : Bool) (s : Status) (n : ℕ)
    → n + 1 < usize_mod
    → Counts s n
    → is_disabled s ≡ false
    → status_fire checks s ≡ ok (fired (suc (fired_count s)))
unfolding status_fire
status_fire-eq-fired checks disabled n h c d = cc
status_fire-eq-fired checks (fired k) n h c d = ground arith
status_fire-eq-fired checks pending n h c d = refl

status_unfire-fired :
    (checks : Bool) (s : Status) (n : ℕ)
    → Counts s n
    → is_disabled s ≡ false
    → status_unfire checks (fired (suc (fired_count s))) ≡ ok s
unfolding status_unfire
status_unfire-fired checks disabled n c d = cc
status_unfire-fired checks (fired zero) n c d = absurd (omega arith)
status_unfire-fired checks (fired (suc k)) n c d = ground arith
status_unfire-fired checks pending n c d = refl

top_is-push : (stack : List ℕ) (a : ℕ) → top_is (push stack a) a ≡ true
top_is-push stack a = rw (get_last?-push stack a, top_is) (eq→== a a refl)

top_is-push_ne : (stack : List ℕ) (a b : ℕ) → a ≢ b → top_is (push stack a) b ≡ false
top_is-push_ne stack a b h = rw (get_last?-push stack a, top_is) (ne→== b a (λ e. h (sym e)))

and_false : (b : Bool) {c : Bool} → c ≡ false → (b && c) ≡ false
and_false true h = h
and_false false h = refl

module _ {State Operation : Type 0} (o : InterruptHandlerOverrider State Operation)
    (checks : Bool) where
  abbrev pub step :
      InterruptWrapper o.Self
      → State
      → ℕ
      → Operation
      → Outcome (InterruptWrapper o.Self × State × HookOutcome)
  step = hook_architectural_step o checks

  -- The wrapper while the handler that was entered at `h` from `a` runs.
  abbrev inside : InterruptWrapper o.Self → o.Self → ℕ → InterruptWrapper o.Self
  inside w i a = record w {
    interrupt = i;
    status = fired (suc (fired_count w.status));
    returns_stack = push w.returns_stack a;
  }

  abbrev entering : InterruptWrapper o.Self → o.Self → ℕ → ℕ → InterruptWrapper o.Self
  entering w i a h = record (inside w i a) { handler_stack = push w.handler_stack h }

  unwind_idle :
      (w : InterruptWrapper o.Self) (a : ℕ)
      → top_is w.returns_stack a ≡ false
      → unwind checks w a ≡ ok w
  unfolding unwind
  unwind_idle w a outside =
      let idle : (has_fired w.status && top_is w.returns_stack a) ≡ false = and_false _ outside in
      rw idle

  unwind_return :
      (w : InterruptWrapper o.Self) (i : o.Self) (a : ℕ)
      → Inv w
      → is_disabled w.status ≡ false
      → unwind checks (inside w i a) a ≡ ok (record w { interrupt = i })
  unfolding unwind
  unwind_return w i a inv on =
      rw (top_is-push w.returns_stack a)
        (rw (status_unfire-fired checks w.status _ inv on) (rw (pop-push w.returns_stack a)))

  fires :
      (w : InterruptWrapper o.Self) (s : State) (a h : ℕ) (op : Operation) {i : o.Self} {s' : State}
      → Inv w
      → HasRoom w
      → is_disabled w.status ≡ false
      → top_is w.returns_stack a ≡ false
      → (has_fired w.status && top_is w.handler_stack a) ≡ false
      → o.fire w.interrupt (fired_count w.status) s a op ≡ ok (some h, i, s')
      → step w s a op
        ≡ ok (entering w i a h, s', record { action = branch h; state_changed = true })
  unfolding hook_architectural_step dispatch enter
  fires w s a h op inv room on outside elsewhere fire =
      rw (unwind_idle w a outside)
        (rw elsewhere (rw fire (rw (status_fire-eq-fired checks w.status _ room inv on))))

  enters :
      (w : InterruptWrapper o.Self) (s : State) (a h : ℕ) (op : Operation) (i : o.Self)
      → a ≢ h
      → step (entering w i a h) s h op ≡ ok (inside w i a, s, unchanged pass)
  unfolding hook_architectural_step
  enters w s a h op i ne =
      rw (unwind_idle (entering w i a h) h (top_is-push_ne w.returns_stack a h ne))
        (rw (top_is-push w.handler_stack h) (rw (pop-push w.handler_stack h)))

  returns :
      (w : InterruptWrapper o.Self) (s : State) (a : ℕ) (op : Operation) {i i' : o.Self}
      {s' : State}
      → Inv w
      → is_disabled w.status ≡ false
      → (has_fired w.status && top_is w.handler_stack a) ≡ false
      → o.fire i (fired_count w.status) s a op ≡ ok (none, i', s')
      → step (inside w i a) s a op ≡ ok (record w { interrupt = i' }, s', unchanged pass)
  unfolding hook_architectural_step dispatch
  returns w s a op {i = i} inv on elsewhere fire =
      rw (unwind_return w i a inv on) (rw elsewhere (rw fire))

  -- The body of a handler: the hook before each instruction, with the state that it then finds.
  unfoldable pub body_steps :
      InterruptWrapper o.Self
      → List (State × ℕ × Operation)
      → Outcome (InterruptWrapper o.Self × List HookOutcome)
  body_steps w [] = ok (w, [])
  body_steps w ((s, b, op) ∷ body) = do
    (w', s', out) ← step w s b op
    (last, outs) ← body_steps w' body
    ok (last, out ∷ outs)

  abbrev pub all_pass : List (State × ℕ × Operation) → List HookOutcome
  all_pass [] = []
  all_pass (b ∷ body) = unchanged pass ∷ all_pass body

  -- At the addresses of the body, which are neither the one to return to nor the top of the handler stack,
  -- the overrider answers with no interrupt; `i` and `i'` are the overrider before and after.
  abbrev pub IsBody :
      InterruptWrapper o.Self → ℕ → o.Self → List (State × ℕ × Operation) → o.Self → Type 0
  IsBody w a i [] i' = i ≡ i'
  IsBody w a i ((s, b, op) ∷ body) i' =
      (a ≢ b)
      × (top_is w.handler_stack b ≡ false)
      × (j : o.Self) × (t : State) × (o.fire i (suc (fired_count w.status)) s b op
          ≡ ok (none, j, t))
      × IsBody w a j body i'

  passes_by :
      (w : InterruptWrapper o.Self) (s t : State) (a b : ℕ) (op : Operation) (i j : o.Self)
      → a ≢ b
      → top_is w.handler_stack b ≡ false
      → o.fire i (suc (fired_count w.status)) s b op ≡ ok (none, j, t)
      → step (inside w i a) s b op ≡ ok (inside w j a, t, unchanged pass)
  unfolding hook_architectural_step dispatch
  passes_by w s t a b op i j ne elsewhere fire =
      rw (unwind_idle (inside w i a) b (top_is-push_ne w.returns_stack a b ne))
        (rw elsewhere (rw fire refl))

  body_steps-IsBody :
      (w : InterruptWrapper o.Self) (a : ℕ) (i i' : o.Self) (body : List (State × ℕ × Operation))
      → IsBody w a i body i'
      → body_steps (inside w i a) body ≡ ok (inside w i' a, all_pass body)
  unfolding body_steps
  body_steps-IsBody w a i i' [] same = rw same refl
  body_steps-IsBody w a i i' ((s, b, op) ∷ body) (ne, elsewhere, j, t, fire, rest) =
      rw (passes_by w s t a b op i j ne elsewhere fire)
        (rw (body_steps-IsBody w a j i' body rest) refl)

  -- A wrapper that is not disabled, in agreement with its stack and with room on it, at an address `a` that
  -- is on top of neither stack of an interrupt that runs, where the overrider answers with a handler at
  -- another address `h`: the hook branches there and counts one interrupt more; at `h` it passes; over a
  -- body at other addresses than `a` and the top of the handler stack, where the overrider answers with
  -- nothing, it passes at every step; and back at `a`, where the overrider again answers with nothing, it
  -- passes and leaves the status and both stacks that there were at the beginning.
  pub fire_and_return :
      (w : InterruptWrapper o.Self) (s s' s'' : State) (a h : ℕ) (op op' op'' : Operation)
      (body : List (State × ℕ × Operation)) {i i' i'' : o.Self} {t : State}
      → Inv w
      → HasRoom w
      → is_disabled w.status ≡ false
      → a ≢ h
      → top_is w.returns_stack a ≡ false
      → (has_fired w.status && top_is w.handler_stack a) ≡ false
      → o.fire w.interrupt (fired_count w.status) s a op ≡ ok (some h, i, s')
      → IsBody w a i body i'
      → o.fire i' (fired_count w.status) s'' a op'' ≡ ok (none, i'', t)
      → (w₁ w₂ w₃ : InterruptWrapper o.Self) × (step w s a op
          ≡ ok (w₁, s', record { action = branch h; state_changed = true }))
        × (w₁.status ≡ fired (suc (fired_count w.status)))
        × (step w₁ s' h op' ≡ ok (w₂, s', unchanged pass))
        × (body_steps w₂ body ≡ ok (w₃, all_pass body))
        × (step w₃ s'' a op'' ≡ ok (record w { interrupt = i'' }, t, unchanged pass))
  fire_and_return w s s' s'' a h op op' op'' body {i = i} {i' = i'} inv room on ne outside elsewhere
        fire quiet back =
      (
        entering w i a h,
        inside w i a,
        inside w i' a,
        fires w s a h op inv room on outside elsewhere fire,
        refl,
        enters w s' a h op' i ne,
        body_steps-IsBody w a i i' body quiet,
        returns w s'' a op'' inv on elsewhere back,
      )

  -- The status after an interrupt is taken.
  abbrev pub after_fire : Status → Status
  after_fire disabled = disabled
  after_fire (fired n) = fired (n + 1)
  after_fire pending = fired 1

  status_fire-eq-after_fire :
      (s : Status) → fired_count s + 1 < usize_mod → status_fire checks s ≡ ok (after_fire s)
  unfolding status_fire
  status_fire-eq-after_fire disabled room = refl
  status_fire-eq-after_fire (fired n) room = ground arith
  status_fire-eq-after_fire pending room = refl

  -- The hook asks neither whether the wrapper is enabled nor whether it may fire: whatever the status and
  -- whatever `allow_nesting`, with room for the count, at an address that is not the one to return to nor
  -- that of a handler to be entered, where the overrider answers with a handler, the hook branches to it,
  -- and leaves both addresses on the stacks. A disabled wrapper stays disabled; any other counts one
  -- interrupt more.
  pub hook_branches :
      (w : InterruptWrapper o.Self) (s : State) (a h : ℕ) (op : Operation) {i : o.Self} {s' : State}
      → fired_count w.status + 1 < usize_mod
      → (has_fired w.status && top_is w.returns_stack a) ≡ false
      → (has_fired w.status && top_is w.handler_stack a) ≡ false
      → o.fire w.interrupt (fired_count w.status) s a op ≡ ok (some h, i, s')
      → step w s a op
        ≡ ok (
          record w {
            interrupt = i;
            status = after_fire w.status;
            handler_stack = push w.handler_stack h;
            returns_stack = push w.returns_stack a;
          },
          s',
          record { action = branch h; state_changed = true },
        )
  unfolding hook_architectural_step unwind dispatch enter
  hook_branches w s a h op room outside elsewhere fire =
      rw outside (rw elsewhere (rw fire (rw (status_fire-eq-after_fire w.status room) refl)))
