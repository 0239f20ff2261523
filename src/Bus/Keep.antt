-- ===== src/Bus/Keep.antt =====
-- A dispatch of src/lbus.c keeps the invariant at every depth of nesting, and so do the operations
-- that run one.
use boggart.Base.{
  ◌⊎◌, inl, inr, true, ℕ, zero, suc, ◌+◌, ◌-◌, ◌≡◌, refl, ◌∙◌, List, [], ◌∷◌, length, length-append,
  arith,
}
use boggart.Bus.State.{Bytes, Pending, Bus, init, snapshot, compact}
use boggart.Bus.Dispatch.{
  Action, subscribes, unsubscribes, publishes, pushes, pulls, attaches, Script, perform, call_all,
  deliver_by, deliver, publish, deliver_each, drain_by, drain, attach_main, publish_cross,
}
use boggart.Bus.Valid.{
  IsValid, Keeps, compact-Keeps, subscribe-Keeps, unsubscribe-Keeps, push-Keeps, pull-Keeps,
}

-- The invariant and the depth are kept, and what is pending is as it was or all taken out.
pub record Leaves (b c : Bus) : Type 0 where
  pub valid : IsValid c
  pub depth : c.disp_depth ≡ b.disp_depth
  pub waiting : (c.pending ≡ b.pending) ⊎ (c.pending ≡ [])

pending_trans :
    (x y z : List Pending) → (y ≡ x) ⊎ (y ≡ []) → (z ≡ y) ⊎ (z ≡ []) → (z ≡ x) ⊎ (z ≡ [])
pending_trans x y z k (inr e) = inr e
pending_trans x y z (inl d) (inl e) = inl (e ∙ d)
pending_trans x y z (inr d) (inl e) = inr (e ∙ d)

Leaves-trans : {a b c : Bus} → Leaves a b → Leaves b c → Leaves a c
Leaves-trans {a} {b} {c} k l = record {
  valid = l.valid;
  depth = l.depth ∙ k.depth;
  waiting = pending_trans a.pending b.pending c.pending k.waiting l.waiting;
}

Leaves-refl : {a : Bus} → IsValid a → Leaves a a
Leaves-refl v = record { valid = v; depth = refl; waiting = inl refl }

Keeps-Leaves : {a b : Bus} → Keeps a b → Leaves a b
Keeps-Leaves k = record { valid = k.valid; depth = k.depth; waiting = inl k.waiting }

-- A function that may run inside a dispatch.
abbrev pub IsSafe : (Bus → Bus) → Type 0
IsSafe f = (b : Bus) → IsValid b → Leaves b (f b)

deliver_each-IsSafe :
    (nested : Bytes → Bytes → Bus → Bus)
    → ((topic payload : Bytes) → IsSafe (nested topic payload))
    → (ps : List Pending) → IsSafe (deliver_each nested ps)
unfolding deliver_each
deliver_each-IsSafe nested h [] b v = Leaves-refl v
deliver_each-IsSafe nested h (p ∷ ps) b v =
    let k = h p.topic p.payload b v in Leaves-trans k (deliver_each-IsSafe nested h ps _ k.valid)

-- A drain leaves nothing pending.
drain_by_lem :
    (nested : Bytes → Bytes → Bus → Bus)
    → ((topic payload : Bytes) → IsSafe (nested topic payload))
    → (b : Bus) → IsValid b
    → IsValid (drain_by nested b)
      × ((drain_by nested b).disp_depth ≡ b.disp_depth)
      × ((drain_by nested b).pending ≡ [])
unfolding drain_by
drain_by_lem nested h b v =
    let k =
      deliver_each-IsSafe nested h b.pending (record b { pending = []; pend_n = 0 }) (spliced v) in
    (k.valid, k.depth, either k.waiting)
  where
    spliced : IsValid b → IsValid (record b { pending = []; pend_n = 0 })
    spliced v = ground arith

    either : {x : List Pending} → (x ≡ []) ⊎ (x ≡ []) → x ≡ []
    either (inl e) = e
    either (inr e) = e

perform-IsSafe :
    (nested : Bytes → Bytes → Bus → Bus)
    → ((topic payload : Bytes) → IsSafe (nested topic payload))
    → (acts : List Action) → IsSafe (perform nested acts)
unfolding perform
perform-IsSafe nested h [] b v = Leaves-refl v
perform-IsSafe nested h (subscribes pat ref ∷ acts) b v =
    let k = Keeps-Leaves (subscribe-Keeps pat ref b v) in
    Leaves-trans k (perform-IsSafe nested h acts _ k.valid)
perform-IsSafe nested h (unsubscribes i ∷ acts) b v =
    let k = Keeps-Leaves (unsubscribe-Keeps i b v) in
    Leaves-trans k (perform-IsSafe nested h acts _ k.valid)
perform-IsSafe nested h (publishes topic payload ∷ acts) b v =
    let c : Bus = record b { published = b.published + 1 } in
    let k = h topic payload c (counted_only v) in
    let l = perform-IsSafe nested h acts _ k.valid in
    let m = Leaves-trans k l in record { valid = m.valid; depth = m.depth; waiting = m.waiting }
  where
    counted_only : IsValid b → IsValid (record b { published = b.published + 1 })
    counted_only v = ground arith
perform-IsSafe nested h (pushes name item ∷ acts) b v =
    let k = Keeps-Leaves (push-Keeps name item b v) in
    Leaves-trans k (perform-IsSafe nested h acts _ k.valid)
perform-IsSafe nested h (pulls name ∷ acts) b v =
    let k = Keeps-Leaves (pull-Keeps name b v) in
    Leaves-trans k (perform-IsSafe nested h acts _ k.valid)
perform-IsSafe nested h (attaches ∷ acts) b v =
    let (d, e, f) = drain_by_lem nested h (record b { attached = true }) (attached_only v) in
    let c : Bus = drain_by nested (record b { attached = true }) in
    let k : Leaves b c = record { valid = d; depth = e; waiting = inr f } in
    Leaves-trans k (perform-IsSafe nested h acts c d)
  where
    attached_only : IsValid b → IsValid (record b { attached = true })
    attached_only v = ground arith

call_all-IsSafe :
    (call : ℕ → Bus → Bus) → ((r : ℕ) → IsSafe (call r)) → (rs : List ℕ) → IsSafe (call_all call rs)
unfolding call_all
call_all-IsSafe call h [] b v = Leaves-refl v
call_all-IsSafe call h (r ∷ rs) b v =
    let k = h r b v in Leaves-trans k (call_all-IsSafe call h rs _ k.valid)

deliver_by-IsSafe :
    (call : ℕ → Bus → Bus)
    → ((r : ℕ) → IsSafe (call r))
    → (topic : Bytes) → IsSafe (λ b. (deliver_by call topic b).0)
unfolding deliver_by
deliver_by-IsSafe call h topic b v =
    let refs = snapshot topic b.subs in
    let inside : Bus = record b { disp_depth = b.disp_depth + 1 } in
    let k = call_all-IsSafe call h refs inside (entered v) in
    let b₁ = call_all call refs inside in
    let last : Bus = record b₁ {
      delivered = b₁.delivered + length refs;
      disp_depth = b₁.disp_depth - 1;
    } in
    let m = compact-Keeps last k.valid.ids k.valid.counted k.valid.bounded k.valid.sized in
    record {
      valid = m.valid;
      depth = m.depth ∙ left b₁.disp_depth k.depth;
      waiting = pending_trans b.pending b₁.pending (compact last).pending k.waiting (inl m.waiting);
    }
  where
    entered : IsValid b → IsValid (record b { disp_depth = b.disp_depth + 1 })
    entered v = record {
      ids = v.ids;
      clean = λ e. absurd (omega arith);
      counted = v.counted;
      bounded = v.bounded;
      sized = v.sized;
    }

    left : (d : ℕ) → d ≡ b.disp_depth + 1 → d - 1 ≡ b.disp_depth
    left d e = omega arith

module _ (script : Script) where
  deliver-IsSafe :
      (limit : ℕ) (topic payload : Bytes) → IsSafe (λ b. (deliver script limit topic payload b).0)
  unfolding deliver
  deliver-IsSafe zero topic payload = deliver_by-IsSafe (λ r c. c) (λ r b v. Leaves-refl v) topic
  deliver-IsSafe (suc limit) topic payload =
      deliver_by-IsSafe _
        (λ r c v. perform-IsSafe _ (λ t p. deliver-IsSafe limit t p) (script r topic payload c) c v)
        topic

  -- A publication keeps the invariant and the depth of dispatch, at any nesting of publications inside
  -- callbacks and whatever the callbacks call on the bus. What is pending is as it was, or all taken out,
  -- as a callback that attaches the main loop does.
  pub publish-Leaves :
      (limit : ℕ) (topic payload : Bytes) (b : Bus)
      → IsValid b
      → Leaves b (publish script limit topic payload b).0
  unfolding publish
  publish-Leaves limit topic payload b v =
      let k =
        deliver-IsSafe limit topic payload (record b { published = b.published + 1 }) (same v) in
      record { valid = k.valid; depth = k.depth; waiting = k.waiting }
    where
      same : IsValid b → IsValid (record b { published = b.published + 1 })
      same v = ground arith

  drain_lem :
      (limit : ℕ) (b : Bus)
      → IsValid b
      → IsValid (drain script limit b)
        × ((drain script limit b).disp_depth ≡ b.disp_depth)
        × ((drain script limit b).pending ≡ [])
  unfolding drain
  drain_lem limit b v = drain_by_lem _ (λ t p. deliver-IsSafe limit t p) b v

  -- Attaching the main loop drains: the invariant and the depth are kept, and nothing is left pending.
  pub attach_main_lem :
      (limit : ℕ) (b : Bus)
      → IsValid b
      → IsValid (attach_main script limit b)
        × ((attach_main script limit b).disp_depth ≡ b.disp_depth)
        × ((attach_main script limit b).pending ≡ [])
  unfolding attach_main
  attach_main_lem limit b v = drain_lem limit (record b { attached = true }) (same v)
    where
      same : IsValid b → IsValid (record b { attached = true })
      same v = ground arith

pub publish_cross-IsValid :
    (topic payload : Bytes) (b : Bus) → IsValid b → IsValid (publish_cross topic payload b).0
unfolding publish_cross
publish_cross-IsValid topic payload b v =
    ground (arith, length-append b.pending (record { topic = topic; payload = payload } ∷ []))

pub init-IsValid : IsValid init
unfolding init
init-IsValid = record {
  ids = omega arith;
  clean = λ e. tt;
  counted = refl;
  bounded = omega arith;
  sized = tt;
}
