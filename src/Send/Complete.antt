-- ===== src/Send/Complete.antt =====
-- What send_all hands to the system.
use msgbox.Prelude.{
  ℕ, zero, suc, ◌+◌, ◌≤◌, ◌<◌, ◌≡◌, ◌≢◌, refl, sym, ap, ◌∙◌, Bool, true, false, List, [], ◌∷◌, ◌++◌,
  Option, none, some, ◌==◌, if◌then◌else◌, length, take, drop, arith, length-drop, append_assoc,
  append-nil, take-append-drop, Bool-cases, inl, inr, upd_self,
}
use msgbox.Types.{MsgData}
use msgbox.State.{
  State, Response, done, fail, syscall, sys_send, answer_with, record_call, err_would_block,
}
use msgbox.Send.{send_some, send_loop, send_all, message_bytes, accept_bytes}

-- After the result true, all the bytes have been accepted, in order and once. After false, a part
-- that is not all of them has, and the last call failed with an error other than EWOULDBLOCK.
abbrev pub Outcome : ℕ → List ℕ → State → Bool × State → Type 0
Outcome socket bytes s (true, s') = s'.stream socket ≡ s.stream socket ++ bytes
Outcome socket bytes s (false, s') =
    (sent : List ℕ) × (unsent : List ℕ) × (bytes ≡ sent ++ unsent)
    × (unsent ≢ [])
    × (s'.stream socket ≡ s.stream socket ++ sent)
    × (s'.errno ≢ err_would_block)

-- A round that sent a part, and the rounds after it.
Outcome-part :
    (socket : ℕ) (bytes part rest : List ℕ) (s s1 : State) (r : Bool × State)
    → bytes ≡ part ++ rest
    → s1.stream socket ≡ s.stream socket ++ part
    → Outcome socket rest s1 r
    → Outcome socket bytes s r
Outcome-part socket bytes part rest s s1 (true, s') split grew e =
    e
    ∙ ap (λ xs. xs ++ rest) grew
    ∙ append_assoc (s.stream socket) part rest
    ∙ ap (◌++◌ (s.stream socket)) (sym split)
Outcome-part socket bytes part rest s s1 (false, s') split grew (sent, unsent, e, more, got, err) =
    (
      part ++ sent,
      unsent,
      split ∙ ap (◌++◌ part) e ∙ sym (append_assoc part sent unsent),
      more,
      got ∙ ap (λ xs. xs ++ sent) grew ∙ append_assoc (s.stream socket) part sent,
      err,
    )

abbrev pub after : ℕ → ℕ → Option (List ℕ) × State → Bool × State
after fuel socket (left, s1) = elim left [
  | none ↦ (false, s1)
  | some rest ↦ send_loop fuel socket rest s1
]

-- One round on each answer, given the rounds after it.
round :
    (script : List Response) (fuel socket b : ℕ) (bs : List ℕ) (s : State)
    → length script < fuel
    → ((bytes : List ℕ) (s1 : State)
        → suc (length s1.script) < fuel
        → Outcome socket bytes s1 (send_loop fuel socket bytes s1))
    → Outcome socket (b ∷ bs) s (
        after fuel socket
          (send_some socket (b ∷ bs) (answer_with (sys_send socket (b ∷ bs)) script s)))
unfolding send_some
round [] fuel socket b bs s h ih =
    ([], b ∷ bs, refl, (λ e. cc), sym (append-nil (s.stream socket)), omega arith)
round (done a ∷ script) fuel socket b bs s h ih =
    let part : List ℕ = take a.value (b ∷ bs) in
    let rest : List ℕ = drop a.value (b ∷ bs) in
    let s1 : State = accept_bytes socket part (record_call (sys_send socket (b ∷ bs)) script s) in
    Outcome-part socket (b ∷ bs) part rest s s1 (send_loop fuel socket rest s1)
      (sym (take-append-drop a.value (b ∷ bs))) (upd_self s.stream socket (s.stream socket ++ part))
      (ih rest s1 h)
round (fail e ∷ script) fuel socket b bs s h ih = elim (Bool-cases (e == err_would_block)) [
  | inl again ↦
      rw again
        (ih (b ∷ bs) (record (record_call (sys_send socket (b ∷ bs)) script s) { errno = e }) h)
  | inr stop ↦
      rw stop ([], b ∷ bs, refl, (λ e. cc), sym (append-nil (s.stream socket)), ground arith)
]

send_loop-Outcome :
    (fuel socket : ℕ) (bytes : List ℕ) (s : State)
    → suc (length s.script) < fuel
    → Outcome socket bytes s (send_loop fuel socket bytes s)
unfolding send_loop syscall
send_loop-Outcome zero socket bytes s h = absurd (omega arith)
send_loop-Outcome (suc fuel) socket [] s h = sym (append-nil (s.stream socket))
send_loop-Outcome (suc fuel) socket (b ∷ bs) s h =
    round s.script fuel socket b bs s (omega arith)
      (λ bytes s1 k. send_loop-Outcome fuel socket bytes s1 k)

-- send_all ends in one of two ways, for every sequence of answers of the system. With the result
-- 0, the bytes of the header and payload have been accepted on its socket, all, in order and once.
-- With -1, a proper part from the front has been, and the last error is not EWOULDBLOCK.
pub send_all-Outcome :
    (socket : ℕ) (d : MsgData) (s : State)
    → Outcome socket (message_bytes d) s (send_all socket d s)
unfolding send_all
send_all-Outcome socket d s =
    send_loop-Outcome (suc (suc (length s.script))) socket (message_bytes d) s (omega arith)

-- The bytes that the answers make room for, up to the first real error.
unfoldable pub room : List Response → ℕ
room [] = 0
room (done a ∷ script) = a.value + room script
room (fail e ∷ script) = let rest = room script in if e == err_would_block then rest else 0

round-true :
    (script : List Response) (fuel socket b : ℕ) (bs : List ℕ) (s : State)
    → suc (length bs) ≤ room script
    → ((bytes : List ℕ) (s1 : State)
        → length s1.script < length script
        → length bytes ≤ room s1.script
        → (send_loop fuel socket bytes s1).0 ≡ true)
    → (after fuel socket
        (send_some socket (b ∷ bs) (answer_with (sys_send socket (b ∷ bs)) script s))).0
      ≡ true
unfolding send_some room
round-true [] fuel socket b bs s h ih = absurd (omega arith)
round-true (done a ∷ script) fuel socket b bs s h ih =
    ih _ _ (omega arith) (omega (arith, length-drop a.value (b ∷ bs)))
round-true (fail e ∷ script) fuel socket b bs s h ih = elim (Bool-cases (e == err_would_block)) [
  | inl again ↦ rw again (ih (b ∷ bs) _ (omega arith) (ground arith))
  | inr stop ↦ absurd (ground arith)
]

send_loop-true :
    (fuel socket : ℕ) (bytes : List ℕ) (s : State)
    → suc (length s.script) < fuel
    → length bytes ≤ room s.script
    → (send_loop fuel socket bytes s).0 ≡ true
unfolding send_loop syscall
send_loop-true zero socket bytes s h r = absurd (omega arith)
send_loop-true (suc fuel) socket [] s h r = refl
send_loop-true (suc fuel) socket (b ∷ bs) s h r =
    round-true s.script fuel socket b bs s r
      (λ bytes s1 short k. send_loop-true fuel socket bytes s1 (omega arith) k)

-- If the answers of the system make room for the whole message before a real error, however it is
-- cut and however often the call would block, send_all returns 0.
pub send_all-true :
    (socket : ℕ) (d : MsgData) (s : State)
    → length (message_bytes d) ≤ room s.script
    → (send_all socket d s).0 ≡ true
unfolding send_all
send_all-true socket d s r =
    send_loop-true (suc (suc (length s.script))) socket (message_bytes d) s (omega arith) r
