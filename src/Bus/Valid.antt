-- ===== src/Bus/Valid.antt =====
-- The invariant of the bus of src/lbus.c, and that every operation keeps it, whatever the callbacks do.
use boggart.Base.{
  ℕ, suc, ◌+◌, ◌≤◌, ◌≡◌, refl, List, [], ◌∷◌, ◌++◌, false, length, length-append, arith,
}
use boggart.Bus.State.{
  Bytes, Sub, Queue, Bus, pend_max, compact, keep_live, mark_dead, subscribe, unsubscribe,
}
use boggart.Bus.Queues.{with_queue, update_queue, append_item, drop_item, push, pull}

-- The ids rise along the list, from `lo` and below `hi`.
abbrev pub Rising : ℕ → List Sub → ℕ → Type 0
Rising lo [] hi = lo ≤ hi
Rising lo (s ∷ ss) hi = (lo ≤ s.id) × Rising (suc s.id) ss hi

abbrev pub NoDead : List Sub → Type 0
NoDead [] = Unit {0}
NoDead (s ∷ ss) = (s.dead ≡ false) × NoDead ss

abbrev pub Sized : List Queue → Type 0
Sized [] = Unit {0}
Sized (q ∷ qs) = (q.depth ≡ length q.items) × Sized qs

-- Dead entries are there only while a dispatch is in flight.
pub record IsValid (b : Bus) : Type 0 where
  pub ids : Rising 1 b.subs b.next_id
  pub clean : b.disp_depth ≡ 0 → NoDead b.subs
  pub counted : b.pend_n ≡ length b.pending
  pub bounded : b.pend_n ≤ pend_max
  pub sized : Sized b.queues

-- An operation that may run inside a dispatch.
pub record Keeps (b c : Bus) : Type 0 where
  pub valid : IsValid c
  pub depth : c.disp_depth ≡ b.disp_depth
  pub waiting : c.pending ≡ b.pending

pub Rising-le : (lo : ℕ) (ss : List Sub) (hi : ℕ) → Rising lo ss hi → lo ≤ hi
Rising-le lo [] hi h = h
Rising-le lo (s ∷ ss) hi h = omega (arith, Rising-le (suc s.id) ss hi h.1)

Rising-lower : (lo lo' : ℕ) (ss : List Sub) (hi : ℕ) → lo' ≤ lo → Rising lo ss hi → Rising lo' ss hi
Rising-lower lo lo' [] hi l h = omega arith
Rising-lower lo lo' (s ∷ ss) hi l h = (omega arith, h.1)

Rising-snoc :
    (lo : ℕ) (ss : List Sub) (s : Sub) (hi : ℕ)
    → Rising lo ss hi
    → s.id ≡ hi
    → Rising lo (ss ++ (s ∷ [])) (hi + 1)
Rising-snoc lo [] s hi h e = omega arith
Rising-snoc lo (x ∷ ss) s hi h e = (h.0, Rising-snoc (suc x.id) ss s hi h.1 e)

keep_live-Rising : (lo : ℕ) (ss : List Sub) (hi : ℕ) → Rising lo ss hi → Rising lo (keep_live ss) hi
unfolding keep_live
keep_live-Rising lo [] hi h = h
keep_live-Rising lo (s ∷ ss) hi h =
    ground (arith, keep_live-Rising (suc s.id) ss hi, Rising-lower (suc s.id) lo (keep_live ss) hi)

keep_live-NoDead : (ss : List Sub) → NoDead (keep_live ss)
unfolding keep_live
keep_live-NoDead [] = tt
keep_live-NoDead (s ∷ ss) = ground (arith, keep_live-NoDead ss)

NoDead-snoc : (ss : List Sub) (s : Sub) → NoDead ss → s.dead ≡ false → NoDead (ss ++ (s ∷ []))
NoDead-snoc [] s h e = (e, tt)
NoDead-snoc (x ∷ ss) s h e = (h.0, NoDead-snoc ss s h.1 e)

mark_dead-Rising :
    (i lo : ℕ) (ss : List Sub) (hi : ℕ) → Rising lo ss hi → Rising lo (mark_dead i ss).0 hi
unfolding mark_dead
mark_dead-Rising i lo [] hi h = h
mark_dead-Rising i lo (s ∷ ss) hi h = ground (arith, mark_dead-Rising i (suc s.id) ss hi h.1)

-- The lists apart, compaction restores the invariant.
pub compact-Keeps :
    (b : Bus)
    → Rising 1 b.subs b.next_id
    → b.pend_n ≡ length b.pending
    → b.pend_n ≤ pend_max
    → Sized b.queues
    → Keeps b (compact b)
unfolding compact
compact-Keeps b r c l s =
    ground (arith, keep_live-Rising 1 b.subs b.next_id, keep_live-NoDead b.subs)

pub subscribe-Keeps :
    (pat : Bytes) (ref : ℕ) (b : Bus) → IsValid b → Keeps b (subscribe pat ref b).0
unfolding subscribe
subscribe-Keeps pat ref b v = record {
  valid = record {
    ids = Rising-snoc 1 b.subs _ b.next_id v.ids refl;
    clean = λ e. NoDead-snoc b.subs _ (v.clean e) refl;
    counted = v.counted;
    bounded = v.bounded;
    sized = v.sized;
  };
  depth = refl;
  waiting = refl;
}

pub unsubscribe-Keeps : (i : ℕ) (b : Bus) → IsValid b → Keeps b (unsubscribe i b).0
unfolding unsubscribe
unsubscribe-Keeps i b v =
    let k =
      compact-Keeps (record b { subs = (mark_dead i b.subs).0 })
        (mark_dead-Rising i 1 b.subs b.next_id v.ids) v.counted v.bounded v.sized in
    record { valid = k.valid; depth = k.depth; waiting = k.waiting }

with_queue-Sized :
    (name item : Bytes) (qs : List Queue) → Sized qs → Sized (with_queue name (append_item item) qs)
unfolding with_queue
with_queue-Sized name item [] h = (omega arith, tt)
with_queue-Sized name item (q ∷ qs) h =
    ground (arith, with_queue-Sized name item qs h.1, length-append q.items (item ∷ []))

update_queue-Sized :
    (name : Bytes) (qs : List Queue) → Sized qs → Sized (update_queue name drop_item qs)
unfolding update_queue
update_queue-Sized name [] h = tt
update_queue-Sized name (q ∷ qs) h = ground (arith, update_queue-Sized name qs h.1)

pub push-Keeps : (name item : Bytes) (b : Bus) → IsValid b → Keeps b (push name item b)
unfolding push
push-Keeps name item b v = ground (arith, with_queue-Sized name item b.queues)

pub pull-Keeps : (name : Bytes) (b : Bus) → IsValid b → Keeps b (pull name b).0
unfolding pull
pull-Keeps name b v = ground (arith, update_queue-Sized name b.queues)
