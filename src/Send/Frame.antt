-- ===== src/Send/Frame.antt =====
-- What send_all leaves alone.
use msgbox.Prelude.{ℕ, zero, suc, refl, List, [], ◌∷◌, Option, none, some, length}
use msgbox.Types.{MsgData}
use msgbox.State.{State, Response, done, fail, syscall, sys_send}
use msgbox.State.Frame.{Kept, Kept_refl, Kept_trans, syscall-Kept}
use msgbox.Send.Complete.{after}
use msgbox.Send.{send_some, send_loop, send_all, message_bytes}

send_some-Kept :
    (socket : ℕ) (bytes : List ℕ) (r : Response × State) → Kept r.1 (send_some socket bytes r).1
unfolding send_some
send_some-Kept socket bytes (done a, s) = record {
  conn_at = refl;
  conns = refl;
  status_at = refl;
  conn_status = refl;
  immediate_callbacks = refl;
  timeouts = refl;
  now = refl;
  poll_fds = refl;
  removals = refl;
  freed_conns = refl;
  next_conn = refl;
  next_status = refl;
  fault = refl;
  memory = refl;
}
send_some-Kept socket bytes (fail e, s) = Kept_refl s

after-Kept :
    (fuel socket : ℕ) (left : Option (List ℕ)) (s : State)
    → ((bytes : List ℕ) → Kept s (send_loop fuel socket bytes s).1)
    → Kept s (after fuel socket (left, s)).1
after-Kept fuel socket none s ih = Kept_refl s
after-Kept fuel socket (some rest) s ih = ih rest

send_loop-Kept :
    (fuel socket : ℕ) (bytes : List ℕ) (s : State) → Kept s (send_loop fuel socket bytes s).1
unfolding send_loop
send_loop-Kept zero socket bytes s = Kept_refl s
send_loop-Kept (suc fuel) socket [] s = Kept_refl s
send_loop-Kept (suc fuel) socket (b ∷ bs) s =
    let r = syscall (sys_send socket (b ∷ bs)) s in
    let (left, s1) = send_some socket (b ∷ bs) r in
    Kept_trans s r.1 _ (syscall-Kept (sys_send socket (b ∷ bs)) s) (
      Kept_trans r.1 s1 _ (send_some-Kept socket (b ∷ bs) r)
        (after-Kept fuel socket left s1 (λ bytes. send_loop-Kept fuel socket bytes s1)))

pub send_all-Kept : (socket : ℕ) (d : MsgData) (s : State) → Kept s (send_all socket d s).1
unfolding send_all
send_all-Kept socket d s = send_loop-Kept (suc (suc (length s.script))) socket (message_bytes d) s
