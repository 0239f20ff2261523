-- ===== src/Journal/Ring.antt =====
-- The slots of src/jwriter.c as a window on the records in flight.
use boggart.Base.{
  ℕ, suc, ◌+◌, ◌%◌, ◌^◌, ◌≤◌, ◌<◌, ◌≡◌, refl, ◌∙◌, ap, List, [], ◌∷◌, ◌++◌, Bool, true, false,
  if◌then◌else◌, length, get_or, set, get_or-set_self, get_or-set_ne, append_assoc, append-nil, sym,
  arith, bit_and_8191,
}
use boggart.Journal.Step.{store, run_statement}
use boggart.Journal.State.{
  Sqlite, Kind, insert, processed, flush, stop, Rec, is_data, jw_cap, blank, slot_of,
}
use boggart.Journal.Inv.{
  Effects, Holds, data_of, data_part, AllData, Closes, store_all, store_row, apply,
}

-- The index of the slot of a counter that has wrapped at 2 ^ 32.
pub slot_of-mod : (x : ℕ) → slot_of (x % 2 ^ 32) ≡ x % jw_cap
unfolding slot_of
slot_of-mod x = omega (arith, bit_and_8191 (x % 2 ^ 32))

-- A write behind the window leaves it as it is, as long as the window is not full.
pub Holds-set :
    (slots : List Rec) (c : ℕ) (ring : List Rec) (e : ℕ) (r : Rec)
    → c + length ring ≤ e
    → e < c + jw_cap
    → Holds slots c ring
    → Holds (set slots (e % jw_cap) r) c ring
Holds-set slots c [] e r l u h = tt
Holds-set slots c (x ∷ rs) e r l u h = (
  get_or-set_ne slots (e % jw_cap) (c % jw_cap) r blank (λ q. omega arith) ∙ h.0,
  Holds-set slots (suc c) rs e r (omega arith) (omega arith) h.1,
)

pub Holds-snoc :
    (slots : List Rec) (c : ℕ) (ring : List Rec) (r : Rec)
    → get_or slots ((c + length ring) % jw_cap) blank ≡ r
    → Holds slots c ring
    → Holds slots c (ring ++ (r ∷ []))
Holds-snoc slots c [] r e h =
    (ap (λ (k : ℕ). get_or slots (k % jw_cap) blank) (omega arith) ∙ e, tt)
Holds-snoc slots c (x ∷ rs) r e h = (
  h.0,
  Holds-snoc slots (suc c) rs r (ap (λ (k : ℕ). get_or slots (k % jw_cap) blank) (omega arith) ∙ e)
      h.1,
)

-- What `jwriter_push` does to the slots.
pub Holds-fill :
    (slots : List Rec) (n : ℕ) (ring : List Rec) (r : Rec)
    → length slots ≡ jw_cap
    → length ring < jw_cap
    → Holds slots n ring
    → Holds (set slots ((n + length ring) % jw_cap) r) n (ring ++ (r ∷ []))
Holds-fill slots n ring r hl hr h =
    Holds-snoc (set slots ((n + length ring) % jw_cap) r) n ring r
      (get_or-set_self slots ((n + length ring) % jw_cap) r blank (omega arith))
      (Holds-set slots n ring (n + length ring) r (omega arith) (omega arith) h)

pub data_of-snoc :
    (ring : List Rec) (r : Rec) → data_of (ring ++ (r ∷ [])) ≡ data_of ring ++ data_part r.kind r
data_of-snoc [] r = ground (arith, append-nil (data_part r.kind r))
data_of-snoc (x ∷ rs) r =
    ap (◌++◌ (data_part x.kind x)) (data_of-snoc rs r)
    ∙ sym (append_assoc (data_part x.kind x) (data_of rs) (data_part r.kind r))

pub AllData-snoc :
    (ring : List Rec) (r : Rec) → AllData ring → is_data r.kind ≡ true → AllData (ring ++ (r ∷ []))
AllData-snoc [] r h e = (e, tt)
AllData-snoc (x ∷ rs) r h e = (h.0, AllData-snoc rs r h.1 e)

pub Closes-snoc :
    (ring : List Rec) (r : Rec) (k : Kind) → AllData ring → r.kind ≡ k → Closes k (ring ++ (r ∷ []))
Closes-snoc [] r k h e = e
Closes-snoc (x ∷ []) r k h e = (h.0, e)
Closes-snoc (x ∷ y ∷ rs) r k h e = (h.0, Closes-snoc (y ∷ rs) r k h.1 e)

module _ {Db Table : Type 0} (sql : Sqlite Db) (fx : Effects sql Table) where
  apply-seen :
      (k : Kind) (r : Rec) (d : Db) → fx.txn (run_statement sql k r d) ≡ apply sql fx k r (fx.txn d)
  apply-seen insert r d = fx.insert_txn r d
  apply-seen processed r d = fx.update_txn r d
  apply-seen flush r d = refl
  apply-seen stop r d = refl

  -- A statement does to what the transaction sees what it is documented to do.
  pub store-seen :
      (opened : Bool) (r : Rec) (d : Db)
      → (if opened then fx.txn (store sql opened r d) else fx.table (store sql opened r d))
        ≡ store_row sql fx opened r (if opened then fx.txn d else fx.table d)
  store-seen false r d = refl
  store-seen true r d = apply-seen r.kind r d

  pub store_all-snoc :
      (opened : Bool) (rs : List Rec) (r : Rec) (t : Table)
      → store_all sql fx opened (rs ++ (r ∷ [])) t
        ≡ store_row sql fx opened r (store_all sql fx opened rs t)
  store_all-snoc opened [] r t = refl
  store_all-snoc opened (x ∷ rs) r t = store_all-snoc opened rs r (store_row sql fx opened x t)
