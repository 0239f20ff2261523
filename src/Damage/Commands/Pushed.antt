-- ===== src/Damage/Commands/Pushed.antt =====
-- studio/src/rencache.c: the buffer holds the commands that were pushed, in order.
use boggart.Base.{
  ℕ, zero, suc, ◌+◌, ◌*◌, ◌%◌, ◌≤◌, ◌<◌, ◌≡◌, refl, ◌∙◌, sym, ap, subst, inl, inr, List, [], ◌∷◌,
  ◌++◌, append-nil, ◌==◌, Bool, true, Option, none, some, Option-cases, if◌then◌else◌, arith,
}
use boggart.Damage.Commands.{
  CommandType, Command, Cache, fresh, rounded, put_command, doubled, command_buf_initial, room_for,
  push_command, issue, commands_from, commands,
}

-- The buffer has these commands, one after the other, from an offset on to another, each at a multiple
-- of 8.
abbrev pub Laid : (ℕ → Option Command) → List Command → ℕ → ℕ → Type 0
Laid buf [] at end = at ≡ end
Laid buf (c ∷ cs) at end =
    (buf at ≡ some c) × (0 < c.size) × (at % 8 ≡ 0) × (at < end) × Laid buf cs (at + c.size) end

-- The buffer in use ends with a whole command, on a multiple of 8, within the memory.
abbrev pub IsSound : Cache → Type 0
IsSound f =
    (f.command_buf_idx ≤ f.command_buf_size)
    × (f.command_buf_idx % 8 ≡ 0)
    × ((cs : List Command) × Laid f.command_buf cs 0 f.command_buf_idx)

doubled-enough : (fuel want n : ℕ) → 0 < want → n ≤ want + fuel → n ≤ doubled fuel want n
unfolding doubled
doubled-enough zero want n h k = omega arith
doubled-enough (suc fuel) want n h k =
    ground (arith, doubled-enough fuel (want * 2) n (omega arith) (omega arith))

pub room_for-fits :
    (realloc : ℕ → Bool) (n : ℕ) (f : Cache) (m : ℕ) → room_for realloc n f ≡ some m → n ≤ m
unfolding room_for
room_for-fits realloc n f m e = ground (
  arith,
  doubled-enough n command_buf_initial n (omega arith) (omega arith),
  doubled-enough n f.command_buf_size n,
)

put_command_self :
    (at : ℕ) (c : Command) (buf : ℕ → Option Command) → put_command at c buf at ≡ some c
put_command_self at c buf = ground arith

-- What is stored at the end leaves the commands before it alone.
Laid-keep :
    (buf : ℕ → Option Command) (cs : List Command) (at end : ℕ) (c : Command)
    → Laid buf cs at end
    → Laid (put_command end c buf) cs at end
Laid-keep buf [] at end c l = l
Laid-keep buf (d ∷ cs) at end c (e, k, a, m, l) =
    (ground arith, k, a, m, Laid-keep buf cs (at + d.size) end c l)

Laid-snoc :
    (buf : ℕ → Option Command) (cs : List Command) (at end : ℕ) (c : Command)
    → buf end ≡ some c
    → 0 < c.size
    → end % 8 ≡ 0
    → Laid buf cs at end
    → Laid buf (cs ++ c ∷ []) at (end + c.size)
Laid-snoc buf [] at end c e h a l =
    (ap buf l ∙ e, h, omega (arith, a), omega arith, ap (λ i. i + c.size) l)
Laid-snoc buf (d ∷ cs) at end c e h a (e', k, b, m, l) =
    (e', k, b, omega arith, Laid-snoc buf cs (at + d.size) end c e h a l)

commands_from-eq :
    (cs : List Command) (fuel at : ℕ) (f : Cache)
    → Laid f.command_buf cs at f.command_buf_idx
    → f.command_buf_idx < at + fuel
    → commands_from fuel at f ≡ cs
unfolding commands_from
commands_from-eq [] zero at f l h = refl
commands_from-eq (c ∷ cs) zero at f (e, k, a, m, l) h = absurd (omega arith)
commands_from-eq [] (suc fuel) at f l h = ground arith
commands_from-eq (c ∷ cs) (suc fuel) at f (e, k, a, m, l) h =
    ground (arith, commands_from-eq cs fuel (at + c.size) f l (omega arith))

pub commands-eq :
    (cs : List Command) (f : Cache) → Laid f.command_buf cs 0 f.command_buf_idx → commands f ≡ cs
unfolding commands
commands-eq cs f l = commands_from-eq cs (f.command_buf_idx + 1) 0 f l (omega arith)

module _ (realloc : ℕ → Bool) (k : CommandType) (size : ℕ) (fill : Command → Command)
    (f : Cache) where
  -- The command that is pushed, and nothing where there is no memory for it
  unfoldable pub pushed : List Command
  unfolding room_for
  pushed = elim (room_for realloc (f.command_buf_idx + rounded size) f) [
    | none ↦ []
    | some have ↦ fill (fresh k (rounded size)) ∷ []
  ]

  abbrev added : ℕ → Cache
  added have =
      let i = f.command_buf_idx in
      record f {
        command_buf =
            put_command i (fill (fresh k (rounded size)))
              (put_command i (fresh k (rounded size)) f.command_buf);
        command_buf_size = have;
        command_buf_idx = i + rounded size;
      }

  -- The two ways a push goes
  pub issue-cases {ℓ} :
      (P : Cache → List Command → Type ℓ)
      → P f []
      → ((have : ℕ)
          → f.command_buf_idx + rounded size ≤ have
          → P (added have) (fill (fresh k (rounded size)) ∷ []))
      → P (issue realloc k size fill f) pushed
  unfolding issue push_command pushed
  issue-cases P p q = elim (Option-cases (room_for realloc (f.command_buf_idx + rounded size) f)) [
    | inl n ↦ rw (n, issue, push_command, pushed) p
    | inr (have, n) ↦
        rw (n, issue, push_command, pushed)
          (q have (room_for-fits realloc (f.command_buf_idx + rounded size) f have n))
  ]

  added-Laid :
      (cs : List Command) (have : ℕ)
      → 0 < size
      → (fill (fresh k (rounded size))).size ≡ rounded size
      → f.command_buf_idx % 8 ≡ 0
      → Laid f.command_buf cs 0 f.command_buf_idx
      → Laid
          (added have).command_buf
          (cs ++ fill (fresh k (rounded size)) ∷ [])
          0
          (added have).command_buf_idx
  added-Laid cs have h e a l =
      let c = fill (fresh k (rounded size)) in
      let i = f.command_buf_idx in
      let buf = put_command i (fresh k (rounded size)) f.command_buf in
      subst (λ n. Laid (put_command i c buf) (cs ++ c ∷ []) 0 (i + n)) e
        (Laid-snoc (put_command i c buf) cs 0 i c (put_command_self i c buf) (omega (arith, e)) a
          (Laid-keep buf cs 0 i c (Laid-keep f.command_buf cs 0 i (fresh k (rounded size)) l)))

  -- A push keeps the buffer sound: the new command lies within the memory, at a multiple of 8. Without
  -- memory nothing changes.
  pub issue-IsSound :
      0 < size
      → (fill (fresh k (rounded size))).size ≡ rounded size
      → IsSound f
      → IsSound (issue realloc k size fill f)
  issue-IsSound h e (b, m, (cs, l)) =
      issue-cases (λ g ps. IsSound g) (b, m, (cs, l))
        (λ have n.
          (n, omega arith, (cs ++ fill (fresh k (rounded size)) ∷ [], added-Laid cs have h e m l)))

  -- What a frame's loops read from a sound buffer after a push is what they read before it, and then the
  -- new command, as its caller has filled it in; without memory for it they read what they read before.
  pub issue-commands :
      0 < size
      → (fill (fresh k (rounded size))).size ≡ rounded size
      → IsSound f
      → commands (issue realloc k size fill f) ≡ commands f ++ pushed
  issue-commands h e (b, m, (cs, l)) =
      issue-cases (λ g ps. commands g ≡ commands f ++ ps) (sym (append-nil (commands f)))
        (λ have n.
          commands-eq _ (added have) (added-Laid cs have h e m l)
          ∙ ap (λ z. z ++ fill (fresh k (rounded size)) ∷ []) (sym (commands-eq cs f l)))

  pub pushed-all : ((n : ℕ) → realloc n ≡ true) → pushed ≡ fill (fresh k (rounded size)) ∷ []
  unfolding pushed room_for
  pushed-all h =
      let n = f.command_buf_idx + rounded size in
      let full = h (
        doubled n (if f.command_buf_size == 0 then command_buf_initial else f.command_buf_size)
          n) in
      ground arith

  pub issue-screen : (issue realloc k size fill f).screen_rect ≡ f.screen_rect
  issue-screen = issue-cases (λ g ps. g.screen_rect ≡ f.screen_rect) refl (λ have n. refl)
