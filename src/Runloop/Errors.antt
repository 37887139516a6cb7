-- ===== src/Runloop/Errors.antt =====
-- What a udp connection looks like in the callback of an error.
use msgbox.Prelude.{
  ℕ, ◌≡◌, refl, ap, ◌∙◌, Option, none, some, List, ◌∷◌, [], arith, ◌++◌, Bool, true, ◌==◌,
  if◌then◌else◌, upd_self,
}
use msgbox.Types.{address_of_conn, msg_udp, msg_error, Buffer, unset}
use msgbox.Libc.{Libc}
use msgbox.State.{State, PendingCall, ToFree, set_conn}
use msgbox.Status.{status_of_conn}
use msgbox.State.Callbacks.{msg_new_data}
use msgbox.Runloop.{before_call, restore_metadata, restore_context, conn_from}

restore_context-address :
    (p : ℕ) (o : Option ℕ) (s : State)
    → address_of_conn ((restore_context p o s).1.conn_at p) ≡ address_of_conn (s.conn_at p)
unfolding restore_context
restore_context-address p none s = refl
restore_context-address p (some st) s = ap address_of_conn (upd_self s.conn_at p _)

module _ ⦃os : Libc⦄ where
  restore_metadata-address :
      (p : ℕ) (b : Buffer) (s : State)
      → address_of_conn ((restore_metadata p (some b) s).1.conn_at p)
        ≡ address_of_conn (conn_from b (s.conn_at p))
  unfolding restore_metadata
  restore_metadata-address p b s =
      let c = conn_from b (s.conn_at p) in
      let s1 = set_conn p c s in
      restore_context-address p (status_of_conn p s1) s1
      ∙ ap address_of_conn (upd_self s.conn_at p c)

  -- The data of send_callback_error has no metadata. So make_call puts what malloc left in the
  -- block into the address of a udp conn before it calls the callback with the error.
  pub before_call-stale :
      (p : ℕ) (msg : List ℕ) (to_free : ToFree) (s : State)
      → (s.conn_at p).protocol_type ≡ msg_udp
      → let call : PendingCall = record {
        conn = p;
        event = msg_error;
        payload = msg_new_data msg;
        to_free = to_free;
      } in
        address_of_conn ((before_call call s).1.conn_at p) ≡ os.stale_address
  unfolding before_call msg_new_data
  before_call-stale p msg to_free s udp =
      let test : ((s.conn_at p).protocol_type == msg_udp) ≡ true = ground arith in
      let d = msg_new_data msg in
      let b : Buffer = record {
        reply_context = none;
        remote_address = none;
        header = unset;
        bytes = msg ++ 0 ∷ [];
      } in
      ap
        (λ (t : Bool).
          address_of_conn ((if t then restore_metadata p (some b) s else (none, s)).1.conn_at p))
        test
      ∙ restore_metadata-address p b s
