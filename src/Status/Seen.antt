-- ===== src/Status/Seen.antt =====
-- The first and the later messages from a remote address.
use msgbox.Prelude.{ℕ, ◌≡◌, ◌∙◌, [], ◌∷◌, ◌++◌, none, some}
use msgbox.Cstructs.{Cstructs}
use msgbox.Types.{Address, address_of_conn, msg_connection_ready}
use msgbox.Address.{address_key}
use msgbox.Address.Key.{address_key-Agree, address_eq_refl}
use msgbox.State.{State, PendingCall, free_nothing}
use msgbox.State.Callbacks.{send_callback}
use msgbox.Status.{remote_address_seen, first_seen, status_of_conn, add_status, ready_data}

abbrev pub ready_call : ℕ → Address → PendingCall
ready_call p a = record {
  conn = p;
  event = msg_connection_ready;
  payload = ready_data a;
  to_free = free_nothing;
}

module _ ⦃cs : Cstructs⦄ where
  pub remote_address_seen-new :
      (p : ℕ) (s : State)
      → s.conn_status (address_of_conn (s.conn_at p)) ≡ none
      → remote_address_seen p s ≡ (s.next_status, first_seen p s)
  unfolding remote_address_seen status_of_conn
  remote_address_seen-new p s e = rw (e, remote_address_seen)

  pub remote_address_seen-old :
      (p st : ℕ) (s : State)
      → s.conn_status (address_of_conn (s.conn_at p)) ≡ some st
      → remote_address_seen p s ≡ (st, s)
  unfolding remote_address_seen status_of_conn
  remote_address_seen-old p st s e = rw (e, remote_address_seen)

  first_seen-known :
      (p : ℕ) (s : State)
      → let s' = first_seen p s in
        (s'.conn_status (address_of_conn (s'.conn_at p)) ≡ some s.next_status)
        × (s'.immediate_callbacks
            ≡ s.immediate_callbacks ++ ready_call p (address_of_conn (s.conn_at p)) ∷ [])
  unfolding first_seen send_callback add_status
  first_seen-known p s =
      let a = address_of_conn (s.conn_at p) in
      (
        cs.map_set_lem address_key s.conn_status a s.next_status a (address_key-Agree a a)
            ∙ rw (address_eq_refl a),
        cs.add_item_lem s.immediate_callbacks _,
      )

  -- A remote address without a status gets one msg_connection_ready callback, with its address, and
  -- a status; a second look finds that status and changes nothing.
  pub remote_address_seen_once :
      (p : ℕ) (s : State)
      → s.conn_status (address_of_conn (s.conn_at p)) ≡ none
      → let s' = (remote_address_seen p s).1 in
        (s'.immediate_callbacks
          ≡ s.immediate_callbacks ++ ready_call p (address_of_conn (s.conn_at p)) ∷ [])
        × (remote_address_seen p s' ≡ (s.next_status, s'))
  remote_address_seen_once p s new =
      let (known, calls) = first_seen-known p s in
      rw (remote_address_seen-new p s new)
        (calls, remote_address_seen-old p s.next_status (first_seen p s) known)
