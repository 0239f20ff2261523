-- ===== src/Bus/Select.antt =====
-- Who is served by a publication of src/lbus.c, and what `unsubscribe` and `has` answer.
use boggart.Base.{
  Says, ℕ, zero, suc, ◌≡◌, refl, subst, ◌⊎◌, inl, inr, List, [], ◌∷◌, Bool, true, false, not, ◌&&◌,
  length, Bool-cases,
}
use boggart.Bus.Glob.{globs}
use boggart.Bus.Glob.Spec.{Matches}
use boggart.Bus.Glob.Correct.{globs-Says}
use boggart.Bus.State.{Bytes, Sub, Bus, has, snapshot}
use boggart.Bus.Dispatch.{Script, deliver, publish}

-- Exactly the live entries whose pattern matches, in the order of subscription.
pub data Selected (topic : Bytes) : List Sub → List ℕ → Type 0 where
  nobody : Selected topic [] []
  served :
      (s : Sub) {ss : List Sub} {rs : List ℕ}
      → s.dead ≡ false
      → Matches s.pat topic
      → Selected topic ss rs
      → Selected topic (s ∷ ss) (s.ref ∷ rs)
  passed :
      (s : Sub) {ss : List Sub} {rs : List ℕ}
      → (s.dead ≡ true) ⊎ (¬ Matches s.pat topic)
      → Selected topic ss rs
      → Selected topic (s ∷ ss) rs

test_cases :
    (s : Sub) (topic : Bytes)
    → (((not s.dead && globs s.pat topic) ≡ true) × (s.dead ≡ false) × Matches s.pat topic)
      ⊎ (((not s.dead && globs s.pat topic) ≡ false) × ((s.dead ≡ true) ⊎ (¬ Matches s.pat topic)))
test_cases s topic = elim (Bool-cases s.dead) [
  | inl e ↦ inr (rw e, inl e)
  | inr e ↦ elim (Bool-cases (globs s.pat topic)) [
    | inl g ↦ inl (rw (e, g), e, subst (Says _) g (globs-Says s.pat topic))
    | inr g ↦ inr (rw (e, g), inr (subst (Says _) g (globs-Says s.pat topic)))
  ]
]

snapshot-Selected : (topic : Bytes) (ss : List Sub) → Selected topic ss (snapshot topic ss)
unfolding snapshot
snapshot-Selected topic [] = nobody
snapshot-Selected topic (s ∷ ss) = elim (test_cases s topic) [
  | inl (e, l, m) ↦ rw e (served s l m (snapshot-Selected topic ss))
  | inr (e, w) ↦ rw e (passed s w (snapshot-Selected topic ss))
]

-- The value of a publication is the number of entries that are live and whose pattern matches the
-- topic when it begins.
pub deliver-Selected :
    (script : Script) (limit : ℕ) (topic payload : Bytes) (b : Bus)
    → (rs : List ℕ) × Selected topic b.subs rs
      × ((publish script limit topic payload b).1 ≡ length rs)
unfolding publish deliver
deliver-Selected script zero topic payload b =
    (snapshot topic b.subs, snapshot-Selected topic b.subs, refl)
deliver-Selected script (suc limit) topic payload b =
    (snapshot topic b.subs, snapshot-Selected topic b.subs, refl)

-- Somebody would be served.
abbrev pub Wanted : Bytes → List Sub → Type 0
Wanted topic [] = ⊥
Wanted topic (s ∷ ss) = ((s.dead ≡ false) × Matches s.pat topic) ⊎ Wanted topic ss

-- `has` says whether there is a live entry whose pattern matches the topic.
pub has-Says : (topic : Bytes) (ss : List Sub) → Says (Wanted topic ss) (has topic ss)
unfolding has
has-Says topic [] = λ h. h
has-Says topic (s ∷ ss) = elim (test_cases s topic) [
  | inl (e, l, m) ↦ rw e (inl (l, m))
  | inr (e, w) ↦ rw e (later (has topic ss) w (has-Says topic ss))
]
  where
    here : (s.dead ≡ true) ⊎ (¬ Matches s.pat topic) → (s.dead ≡ false) × Matches s.pat topic → ⊥
    here (inl e) h = cc (h.0)
    here (inr n) h = n h.1

    later :
        (r : Bool)
        → (s.dead ≡ true) ⊎ (¬ Matches s.pat topic)
        → Says (Wanted topic ss) r
        → Says (Wanted topic (s ∷ ss)) r
    later true w h = inr h
    later false w h = elim [ inl x ↦ here w x | inr x ↦ h x ]
