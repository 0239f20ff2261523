-- ===== src/Bus/Subscribed.antt =====
-- src/lbus.c: which subscriptions are live after `subscribe` and `unsubscribe`.
use boggart.Base.{
  ℕ, suc, ◌≤◌, ◌<◌, ◌≡◌, refl, ◌⊎◌, inl, inr, ◌≢◌, ◌↔◌, List, [], ◌∷◌, ◌++◌, true, false, arith,
}
use boggart.Bus.State.{Bytes, Sub, Bus, compact, keep_live, mark_dead, subscribe, unsubscribe}
use boggart.Bus.Valid.{IsValid, Rising, Rising-le}

-- Some live entry has this id.
abbrev pub Live : ℕ → List Sub → Type 0
Live i [] = ⊥
Live i (s ∷ ss) = ((s.id ≡ i) × (s.dead ≡ false)) ⊎ Live i ss

Live-above : (i lo : ℕ) (ss : List Sub) (hi : ℕ) → Rising lo ss hi → i < lo → ¬ Live i ss
Live-above i lo [] hi r h l = l
Live-above i lo (s ∷ ss) hi r h (inl l) = omega arith
Live-above i lo (s ∷ ss) hi r h (inr l) = Live-above i (suc s.id) ss hi r.1 (omega arith) l

Live-below : (i lo : ℕ) (ss : List Sub) (hi : ℕ) → Rising lo ss hi → hi ≤ i → ¬ Live i ss
Live-below i lo [] hi r h l = l
Live-below i lo (s ∷ ss) hi r h (inl l) = omega (arith, Rising-le (suc s.id) ss hi r.1)
Live-below i lo (s ∷ ss) hi r h (inr l) = Live-below i (suc s.id) ss hi r.1 h l

keep_live-Live : (i : ℕ) (ss : List Sub) → Live i (keep_live ss) ↔ Live i ss
unfolding keep_live
keep_live-Live i [] = ground arith
keep_live-Live i (s ∷ ss) = ground (arith, keep_live-Live i ss)

compact-Live : (i : ℕ) (b : Bus) → Live i (compact b).subs ↔ Live i b.subs
unfolding compact
compact-Live i b = ground (arith, keep_live-Live i b.subs)

mark_dead-found : (i : ℕ) (ss : List Sub) → ((mark_dead i ss).1 ≡ true) ↔ Live i ss
unfolding mark_dead
mark_dead-found i [] = ground arith
mark_dead-found i (s ∷ ss) = ground (arith, mark_dead-found i ss)

mark_dead-gone : (i lo : ℕ) (ss : List Sub) (hi : ℕ) → Rising lo ss hi → ¬ Live i (mark_dead i ss).0
unfolding mark_dead
mark_dead-gone i lo [] hi r l = l
mark_dead-gone i lo (s ∷ ss) hi r l =
    ground (arith, mark_dead-gone i (suc s.id) ss hi r.1, Live-above i (suc s.id) ss hi r.1)

mark_dead-other : (i j : ℕ) (ss : List Sub) → j ≢ i → Live j (mark_dead i ss).0 ↔ Live j ss
unfolding mark_dead
mark_dead-other i j [] ne = ground arith
mark_dead-other i j (s ∷ ss) ne = ground (arith, mark_dead-other i j ss ne)

Live-append : (i : ℕ) (ss ts : List Sub) → Live i (ss ++ ts) ↔ (Live i ss ⊎ Live i ts)
Live-append i [] ts = ground arith
Live-append i (s ∷ ss) ts = ground (arith, Live-append i ss ts)

-- On a valid bus `unsubscribe` answers whether a live entry has the id; afterwards none has it, and
-- the entries of other ids are live as before.
pub unsubscribe_lem :
    (i : ℕ) (b : Bus)
    → IsValid b
    → let (c, found) = unsubscribe i b in
      ((found ≡ true) ↔ Live i b.subs)
      × (¬ Live i c.subs)
      × ((j : ℕ) → j ≢ i → Live j c.subs ↔ Live j b.subs)
unfolding unsubscribe
unsubscribe_lem i b v =
    let marked : Bus = record b { subs = (mark_dead i b.subs).0 } in
    (
      mark_dead-found i b.subs,
      λ l. mark_dead-gone i 1 b.subs b.next_id v.ids ((compact-Live i marked).0 l),
      λ j ne. (
        λ l. (mark_dead-other i j b.subs ne).0 ((compact-Live j marked).0 l),
        λ l. (compact-Live j marked).1 ((mark_dead-other i j b.subs ne).1 l),
      ),
    )

-- On a valid bus the id that `subscribe` gives is live afterwards and was not before, and the entries
-- of other ids are live as before.
pub subscribe_lem :
    (pat : Bytes) (ref : ℕ) (b : Bus)
    → IsValid b
    → let (c, i) = subscribe pat ref b in
      Live i c.subs × (¬ Live i b.subs) × ((j : ℕ) → j ≢ i → Live j c.subs ↔ Live j b.subs)
unfolding subscribe
subscribe_lem pat ref b v =
    let entry : Sub = record { id = b.next_id; pat = pat; ref = ref; dead = false } in
    (
      (Live-append b.next_id b.subs (entry ∷ [])).1 (inr (inl (refl, refl))),
      λ l. Live-below b.next_id 1 b.subs b.next_id v.ids (omega arith) l,
      λ j ne. ground (arith, Live-append j b.subs (entry ∷ [])),
    )
