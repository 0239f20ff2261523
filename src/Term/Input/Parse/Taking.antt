-- ===== src/Term/Input/Parse/Taking.antt =====
-- src/termctl.c: the loop of `take_event` ends.
use boggart.Base.{ℕ, zero, suc, ◌≤◌, ◌<◌, ◌≡◌, refl, sym, ◌==◌, Bool, none, if◌then◌else◌, arith}
use boggart.Term.Input.{Input, inbuf_consume}
use boggart.Term.Input.Escape.{Parsed}
use boggart.Term.Input.Parse.{parse_one, is_none, take_loop, take_event}
use boggart.Term.Input.Parse.Progress.{parse_one-Advances}

inbuf_consume-lt : (n : ℕ) (t : Input) → 0 < n → 0 < t.inlen → (inbuf_consume n t).inlen < t.inlen
unfolding inbuf_consume
inbuf_consume-lt n t h k = ground arith

round_lt :
    (t : Input)
    → 0 < t.inlen
    → 0 < (parse_one t).used
    → (inbuf_consume (parse_one t).used (parse_one t).input).inlen < t.inlen
round_lt t h k =
    let a = parse_one-Advances t h in
    omega (
      arith,
      a.kept,
      inbuf_consume-lt (parse_one t).used (parse_one t).input k (omega (arith, a.kept)),
    )

take_loop-empty : (fuel : ℕ) (t : Input) → t.inlen ≡ 0 → take_loop (suc fuel) t ≡ (none, t)
unfolding take_loop
take_loop-empty fuel t e = rw (take_loop, e) refl

branch_eq :
    {R : Type 0} (n u : ℕ) (c : Bool) (a b d m₁ m₂ : R)
    → (0 < n → 0 < u → m₁ ≡ m₂)
    → (if n == 0 then a else if u == 0 then b else if c then m₁ else d)
      ≡ (if n == 0 then a else if u == 0 then b else if c then m₂ else d)
branch_eq n u c a b d m₁ m₂ h = ground arith

take_loop-enough : (f g : ℕ) (t : Input) → t.inlen ≤ f → t.inlen ≤ g → take_loop f t ≡ take_loop g t
unfolding take_loop
take_loop-enough zero zero t h k = refl
take_loop-enough zero (suc g) t h k = sym (take_loop-empty g t (omega arith))
take_loop-enough (suc f) zero t h k = take_loop-empty f t (omega arith)
take_loop-enough (suc f) (suc g) t h k =
    let r : Parsed = parse_one t in
    let next : Input = inbuf_consume r.used r.input in
    branch_eq t.inlen r.used (is_none r.event.type) _ _ _ _ _ (λ p q.
      take_loop-enough f g next (omega (arith, round_lt t p q)) (omega (arith, round_lt t p q)))

-- The loop of `take_event` ends within a round for each byte of input: more rounds change nothing.
pub take_event-total : (fuel : ℕ) (t : Input) → t.inlen ≤ fuel → take_loop fuel t ≡ take_event t
unfolding take_event
take_event-total fuel t h = take_loop-enough fuel t.inlen t h (omega arith)
