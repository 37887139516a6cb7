-- ===== src/Timeouts/Order.antt =====
-- The order of the timeouts, soonest first, and the loop of msg_runloop that stops at the first
-- one that is not due.
use msgbox.Prelude.{
  ℕ, zero, suc, ◌+◌, ◌≤◌, ◌<◌, ◌≡◌, refl, sym, ap, ◌∙◌, List, [], ◌∷◌, ◌++◌, map, length, remove_at,
  arith, ltb, if◌then◌else◌, Bool-cases, Option-cases, inl, inr, append_assoc, append-nil,
  map-append,
}
use msgbox.Cstructs.{Cstructs}
use msgbox.State.{State, Timeout, PendingCall}
use msgbox.State.Callbacks.{send_callback}
use msgbox.Timeouts.{
  udp_timeout, add_timeout, remove_timeout, timeout_index, expire_first, expire, check_timeouts,
}

-- No timeout is before the one ahead of it, and none before `low`.
abbrev pub Sorted : ℕ → List Timeout → Type 0
Sorted low [] = Unit {0}
Sorted low (t ∷ ts) = (low ≤ t.at) × Sorted t.at ts

-- All are at most `high`.
abbrev pub UpTo : ℕ → List Timeout → Type 0
UpTo high [] = Unit {0}
UpTo high (t ∷ ts) = (t.at ≤ high) × UpTo high ts

Sorted-mono : (a b : ℕ) (ts : List Timeout) → b ≤ a → Sorted a ts → Sorted b ts
Sorted-mono a b [] h s = tt
Sorted-mono a b (t ∷ ts) h s = (omega arith, s.1)

Sorted-append_one :
    (low : ℕ) (ts : List Timeout) (t : Timeout)
    → Sorted low ts
    → UpTo t.at ts
    → low ≤ t.at
    → Sorted low (ts ++ t ∷ [])
Sorted-append_one low [] t s u h = (h, tt)
Sorted-append_one low (x ∷ ts) t s u h = (s.0, Sorted-append_one x.at ts t s.1 u.1 u.0)

pub UpTo-mono : (a b : ℕ) (ts : List Timeout) → a ≤ b → UpTo a ts → UpTo b ts
UpTo-mono a b [] h u = tt
UpTo-mono a b (t ∷ ts) h u = (omega arith, UpTo-mono a b ts h u.1)

UpTo-append_one :
    (high : ℕ) (ts : List Timeout) (t : Timeout)
    → UpTo high ts
    → t.at ≤ high
    → UpTo high (ts ++ t ∷ [])
UpTo-append_one high [] t u h = (h, tt)
UpTo-append_one high (x ∷ ts) t u h = (u.0, UpTo-append_one high ts t u.1 h)

pub Sorted-remove_at : (low i : ℕ) (ts : List Timeout) → Sorted low ts → Sorted low (remove_at ts i)
Sorted-remove_at low i [] s = tt
Sorted-remove_at low zero (t ∷ ts) s = Sorted-mono t.at low ts s.0 s.1
Sorted-remove_at low (suc i) (t ∷ ts) s = (s.0, Sorted-remove_at t.at i ts s.1)

pub UpTo-remove_at : (high i : ℕ) (ts : List Timeout) → UpTo high ts → UpTo high (remove_at ts i)
UpTo-remove_at high i [] u = tt
UpTo-remove_at high zero (t ∷ ts) u = u.1
UpTo-remove_at high (suc i) (t ∷ ts) u = (u.0, UpTo-remove_at high i ts u.1)

-- Timeouts in order, none of them later than one second from now.
pub record Ordered (time_now : ℕ) (ts : List Timeout) : Type 0 where
  pub sorted : Sorted 0 ts
  pub near : UpTo (time_now + udp_timeout) ts

abbrev pub IsOrdered : State → Type 0
IsOrdered s = Ordered s.now s.timeouts

-- What is due comes before what is not.
abbrev pub due : ℕ → List Timeout → List Timeout
due time_now [] = []
due time_now (t ∷ ts) = if ltb time_now t.at then due time_now ts else t ∷ due time_now ts

abbrev pub not_due : ℕ → List Timeout → List Timeout
not_due time_now [] = []
not_due time_now (t ∷ ts) =
    if ltb time_now t.at then t ∷ not_due time_now ts else not_due time_now ts

late-due :
    (time_now low : ℕ) (ts : List Timeout)
    → time_now < low
    → Sorted low ts
    → (due time_now ts ≡ []) × (not_due time_now ts ≡ ts)
late-due time_now low [] h s = (refl, refl)
late-due time_now low (t ∷ ts) h s = ground (arith, late-due time_now t.at ts (omega arith) s.1)

-- The connections that callbacks are for, and that a timeout's error is for.
abbrev pub call_conns : List PendingCall → List ℕ
call_conns = map λ c. c.conn

abbrev pub timeout_conns : List Timeout → List ℕ
timeout_conns = map λ t. t.conn

module _ ⦃cs : Cstructs⦄ where
  -- A new timeout keeps the order.
  pub add_timeout-IsOrdered :
      (conn status reply_id : ℕ) (s : State)
      → IsOrdered s
      → IsOrdered (add_timeout conn status reply_id s)
  unfolding add_timeout
  add_timeout-IsOrdered conn status reply_id s o = rw (cs.add_item_lem) (record {
    sorted = Sorted-append_one 0 s.timeouts _ o.sorted o.near (omega arith);
    near = UpTo-append_one (s.now + udp_timeout) s.timeouts _ o.near (omega arith);
  })

  -- So does removing one.
  pub remove_timeout-IsOrdered :
      (st reply_id : ℕ) (s : State) → IsOrdered s → IsOrdered (remove_timeout st reply_id s)
  unfolding remove_timeout
  remove_timeout-IsOrdered st reply_id s o =
      elim (Option-cases (timeout_index st reply_id s.timeouts)) [
        | inl e ↦ rw (e, remove_timeout) o
        | inr (i, e) ↦
            rw (e, remove_timeout, cs.remove_item_lem)
              (record {
                sorted = Sorted-remove_at 0 i s.timeouts o.sorted;
                near = UpTo-remove_at (s.now + udp_timeout) i s.timeouts o.near;
              })
      ]

  expire_first-step :
      (t : Timeout) (ts : List Timeout) (s : State)
      → s.timeouts ≡ t ∷ ts
      → ((expire_first t s).timeouts ≡ ts)
        × (call_conns (expire_first t s).immediate_callbacks
            ≡ call_conns s.immediate_callbacks ++ t.conn ∷ [])
  unfolding expire_first send_callback
  expire_first-step t ts s e = (
    cs.remove_item_lem s.timeouts 0 ∙ ap (λ (xs : List Timeout). remove_at xs 0) e,
    ap call_conns (cs.add_item_lem s.immediate_callbacks _)
        ∙ map-append (λ (c : PendingCall). c.conn) s.immediate_callbacks _,
  )

  -- One round, by the list of timeouts.
  abbrev pub expire_on : ℕ → ℕ → State → List Timeout → State
  expire_on fuel time_now s [] = s
  expire_on fuel time_now s (t ∷ _) =
      let rest = expire fuel time_now (expire_first t s) in if ltb time_now t.at then s else rest

  pub expire-suc :
      (fuel time_now : ℕ) (ts : List Timeout) (s : State)
      → s.timeouts ≡ ts
      → expire (suc fuel) time_now s ≡ expire_on fuel time_now s ts
  unfolding expire
  expire-suc fuel time_now ts s e = expire_on_timeouts ∙ ap (expire_on fuel time_now s) e
    where
      expire_on_timeouts : expire (suc fuel) time_now s ≡ expire_on fuel time_now s s.timeouts
      expire_on_timeouts = refl

  expire-due :
      (fuel time_now low : ℕ) (ts : List Timeout) (s : State)
      → s.timeouts ≡ ts
      → length ts ≤ fuel
      → Sorted low ts
      → ((expire fuel time_now s).timeouts ≡ not_due time_now ts)
        × (call_conns (expire fuel time_now s).immediate_callbacks
            ≡ call_conns s.immediate_callbacks ++ timeout_conns (due time_now ts))
  unfolding expire
  expire-due zero time_now low [] s e h o = (e, sym (append-nil (call_conns s.immediate_callbacks)))
  expire-due zero time_now low (t ∷ ts) s e h o = absurd (omega arith)
  expire-due (suc fuel) time_now low [] s e h o =
      rw (expire-suc fuel time_now [] s e) (e, sym (append-nil (call_conns s.immediate_callbacks)))
  expire-due (suc fuel) time_now low (t ∷ ts) s e h o = elim (Bool-cases (ltb time_now t.at)) [
    | inl late ↦
        (let (nothing, all) = late-due time_now t.at ts (ground arith) o.1 in
          rw (expire-suc fuel time_now (t ∷ ts) s e, late, nothing, all)
            (e, sym (append-nil (call_conns s.immediate_callbacks))))
    | inr now' ↦
        (let (rest, one) = expire_first-step t ts s e in
          let (left, told) =
            expire-due fuel time_now t.at ts (expire_first t s) rest (omega arith) o.1 in
          rw (expire-suc fuel time_now (t ∷ ts) s e, now')
            (
              left,
              told
                  ∙ ap (λ (xs : List ℕ). xs ++ timeout_conns (due time_now ts)) one
                  ∙ append_assoc (call_conns s.immediate_callbacks) (t.conn ∷ [])
                      (timeout_conns (due time_now ts)),
            ))
  ]

  -- With the timeouts in order, the loop at the end of msg_runloop schedules one callback for each
  -- timeout that is due, for its connection and in order, and leaves exactly those that are not.
  pub check_timeouts-due :
      (s : State)
      → IsOrdered s
      → ((check_timeouts s).timeouts ≡ not_due s.now s.timeouts)
        × (call_conns (check_timeouts s).immediate_callbacks
            ≡ call_conns s.immediate_callbacks ++ timeout_conns (due s.now s.timeouts))
  unfolding check_timeouts
  check_timeouts-due s o =
      expire-due (length s.timeouts) s.now 0 s.timeouts s refl (omega arith) o.sorted
