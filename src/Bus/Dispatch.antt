-- ===== src/Bus/Dispatch.antt =====
-- src/lbus.c: `deliver`, `enqueue_cross`, `bus_drain_cb`, `l_publish` and `l_attach_main`. A Lua
-- callback acts on the bus only by the functions of the library; what it calls is the parameter
-- `script`. `limit` bounds how deep publishes nest inside callbacks (Lua refuses a deeper `lua_pcall`).
use boggart.Base.{
  ℕ, zero, suc, ◌+◌, ◌-◌, leb, List, [], ◌∷◌, ◌++◌, Bool, true, false, length, if◌then◌else◌,
}
use boggart.Bus.State.{Bytes, Pending, Bus, pend_max, compact, subscribe, unsubscribe, snapshot}
use boggart.Bus.Queues.{push, pull}

-- One call of a callback on the bus.
pub data Action : Type 0 where
  subscribes : Bytes → ℕ → Action
  unsubscribes : ℕ → Action
  publishes : Bytes → Bytes → Action
  pushes : Bytes → Bytes → Action
  pulls : Bytes → Action
  attaches : Action

abbrev pub Script : Type 0
Script = ℕ → Bytes → Bytes → Bus → List Action

-- The loop of `bus_drain_cb` over the list that it took, with what a delivery does
unfoldable pub deliver_each : (Bytes → Bytes → Bus → Bus) → List Pending → Bus → Bus
deliver_each nested [] b = b
deliver_each nested (p ∷ ps) b = deliver_each nested ps (nested p.topic p.payload b)

-- `bus_drain_cb`: the whole list is taken out first.
unfoldable pub drain_by : (Bytes → Bytes → Bus → Bus) → Bus → Bus
unfolding deliver_each
drain_by nested b = deliver_each nested b.pending (record b { pending = []; pend_n = 0 })

-- A callback's calls, in order, with what a nested delivery does.
unfoldable pub perform : (Bytes → Bytes → Bus → Bus) → List Action → Bus → Bus
unfolding drain_by
perform nested [] b = b
perform nested (subscribes pat ref ∷ acts) b = perform nested acts (subscribe pat ref b).0
perform nested (unsubscribes i ∷ acts) b = perform nested acts (unsubscribe i b).0
perform nested (publishes topic payload ∷ acts) b =
    perform nested acts (nested topic payload (record b { published = b.published + 1 }))
perform nested (pushes name item ∷ acts) b = perform nested acts (push name item b)
perform nested (pulls name ∷ acts) b = perform nested acts (pull name b).0
perform nested (attaches ∷ acts) b =
    perform nested acts (drain_by nested (record b { attached = true }))

-- The loop over the snapshot: each callback runs to its end, a failing one too.
unfoldable pub call_all : (ℕ → Bus → Bus) → List ℕ → Bus → Bus
call_all call [] b = b
call_all call (r ∷ rs) b = call_all call rs (call r b)

-- Around the loop: the snapshot and `disp_depth++`, then the counts and `compact_locked`.
unfoldable pub deliver_by : (ℕ → Bus → Bus) → Bytes → Bus → Bus × ℕ
unfolding snapshot call_all compact
deliver_by call topic b =
    let refs = snapshot topic b.subs in
    let b₁ = call_all call refs (record b { disp_depth = b.disp_depth + 1 }) in
    let b₂ = record b₁ { delivered = b₁.delivered + length refs; disp_depth = b₁.disp_depth - 1 } in
    (compact b₂, length refs)

module _ (script : Script) where
  unfoldable pub deliver : ℕ → Bytes → Bytes → Bus → Bus × ℕ
  unfolding deliver_by perform
  deliver zero topic payload b = deliver_by (λ r c. c) topic b
  deliver (suc limit) topic payload b =
      deliver_by (λ r c. perform (λ t p d. (deliver limit t p d).0) (script r topic payload c) c)
        topic b

  -- `l_publish` on the main thread.
  unfoldable pub publish : ℕ → Bytes → Bytes → Bus → Bus × ℕ
  unfolding deliver
  publish limit topic payload b =
      deliver limit topic payload (record b { published = b.published + 1 })

  -- `bus_drain_cb`
  unfoldable pub drain : ℕ → Bus → Bus
  unfolding drain_by deliver
  drain limit b = drain_by (λ t p d. (deliver limit t p d).0) b

  -- `l_attach_main`
  unfoldable pub attach_main : ℕ → Bus → Bus
  unfolding drain
  attach_main limit b = drain limit (record b { attached = true })

-- `enqueue_cross`, with its allocations made. The Boolean is whether the main loop is woken.
unfoldable pub enqueue_cross : Bytes → Bytes → Bus → Bus × Bool
enqueue_cross topic payload b =
    if leb pend_max b.pend_n then (record b { dropped = b.dropped + 1 }, false) else (
      record b {
        pending = b.pending ++ (record { topic = topic; payload = payload } ∷ []);
        pend_n = b.pend_n + 1;
      },
      b.attached,
    )

-- `l_publish` and `bus_emit` on another thread.
unfoldable pub publish_cross : Bytes → Bytes → Bus → Bus × Bool
unfolding enqueue_cross
publish_cross topic payload b =
    enqueue_cross topic payload (record b { published = b.published + 1 })
