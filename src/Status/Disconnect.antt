-- ===== src/Status/Disconnect.antt =====
-- How a connection ends.
use msgbox.Prelude.{
  ℕ, ◌≡◌, refl, ap, ap₂, ◌∙◌, true, false, List, [], ◌∷◌, ◌++◌, Option, none, Option-cases, inl,
  inr, Bool, some, upd_self,
}
use msgbox.Cstructs.{Cstructs}
use msgbox.Types.{Address, Conn, address_of_conn, Event, no_data}
use msgbox.Address.{address_key}
use msgbox.Address.Key.{address_key-Agree, address_eq_refl}
use msgbox.State.{State, PendingCall, ConnStatus, ToFree, free_nothing, free_conn, Call, sys_close}
use msgbox.State.Frame.{syscall-Called}
use msgbox.State.Callbacks.{send_callback}
use msgbox.Status.{
  unset_status, delete_conn_status, end_conn, close_and_remove, local_disconnect, is_listening_udp,
}

-- A state that differs at most in the connection statuses.
pub record SameArrays (s s' : State) : Type 0 where
  pub calls : s'.calls ≡ s.calls
  pub conn_at : s'.conn_at ≡ s.conn_at
  pub removals : s'.removals ≡ s.removals
  pub immediate_callbacks : s'.immediate_callbacks ≡ s.immediate_callbacks

same_arrays : (s : State) → SameArrays s s
same_arrays s = record { calls = refl; conn_at = refl; removals = refl; immediate_callbacks = refl }

-- The callback that tells of the end, and what is freed after it.
abbrev pub end_call : ℕ → Event → ToFree → PendingCall
end_call p event to_free = record { conn = p; event = event; payload = no_data; to_free = to_free }

module _ ⦃cs : Cstructs⦄ where
  unset_status-SameArrays : (a : Address) (s : State) → SameArrays s (unset_status a s)
  unfolding unset_status delete_conn_status
  unset_status-SameArrays a s = elim (Option-cases (s.conn_status a)) [
    | inl e ↦ rw (e, unset_status) (same_arrays s)
    | inr (st, e) ↦
        rw (e, unset_status)
          (record { calls = refl; conn_at = refl; removals = refl; immediate_callbacks = refl })
  ]

  -- The address is unknown afterwards.
  pub conn_status-unset_status : (a : Address) (s : State) → (unset_status a s).conn_status a ≡ none
  unfolding unset_status delete_conn_status
  conn_status-unset_status a s = elim (Option-cases (s.conn_status a)) [
    | inl e ↦ rw (e, unset_status) e
    | inr (st, e) ↦
        rw (e, unset_status)
          (cs.map_unset_lem address_key s.conn_status a a (address_key-Agree a a)
            ∙ rw (address_eq_refl a))
  ]

  end_conn-closed :
      (p : ℕ) (event : Event) (s : State)
      → let s' = end_conn false p event s in
        (s'.immediate_callbacks ≡ s.immediate_callbacks ++ end_call p event (free_conn p) ∷ [])
        × (s'.removals ≡ s.removals ++ (s.conn_at p).index ∷ [])
        × (s'.calls ≡ sys_close (s.conn_at p).socket ∷ s.calls)
        × (s'.conn_status ≡ s.conn_status)
  unfolding end_conn close_and_remove send_callback
  end_conn-closed p event s =
      let s1 = send_callback p event no_data (free_conn p) s in
      let f = syscall-Called (sys_close (s.conn_at p).socket) s1 in
      (
        f.immediate_callbacks ∙ cs.add_item_lem s.immediate_callbacks _,
        cs.add_item_lem _ _
            ∙ ap₂ (λ (r : List ℕ) (m : ℕ → Conn). r ++ (m p).index ∷ []) f.removals f.conn_at,
        f.calls,
        f.conn_status,
      )

  -- Ending any connection but a listening udp one forgets its address, schedules one callback with
  -- the event and no data, after which the conn is freed, closes its socket once, and marks its
  -- index for removal.
  pub local_disconnect-closes :
      (p : ℕ) (event : Event) (s : State)
      → is_listening_udp (s.conn_at p) ≡ false
      → let s' = local_disconnect p event s in
        (s'.immediate_callbacks ≡ s.immediate_callbacks ++ end_call p event (free_conn p) ∷ [])
        × (s'.removals ≡ s.removals ++ (s.conn_at p).index ∷ [])
        × (s'.calls ≡ sys_close (s.conn_at p).socket ∷ s.calls)
        × (s'.conn_status (address_of_conn (s.conn_at p)) ≡ none)
  unfolding local_disconnect
  local_disconnect-closes p event s e =
      let a = address_of_conn (s.conn_at p) in
      let f = unset_status-SameArrays a s in
      let (calls, removed, closed, status) = end_conn-closed p event (unset_status a s) in
      rw e (
        calls
            ∙ ap (λ (xs : List PendingCall). xs ++ end_call p event (free_conn p) ∷ [])
                f.immediate_callbacks,
        removed ∙ ap₂ (λ (r : List ℕ) (m : ℕ → Conn). r ++ (m p).index ∷ []) f.removals f.conn_at,
        closed
            ∙ ap₂ (λ (m : ℕ → Conn) (cl : List Call). sys_close (m p).socket ∷ cl) f.conn_at
                f.calls,
        ap (λ (m : Address → Option ℕ). m a) status ∙ conn_status-unset_status a s,
      )

  -- A listening udp conn keeps its socket and its place: one callback without data is scheduled,
  -- after which the conn is not freed, no system call is made, nothing is marked for removal, and
  -- the address is forgotten.
  pub local_disconnect-keeps :
      (p : ℕ) (event : Event) (s : State)
      → is_listening_udp (s.conn_at p) ≡ true
      → let s' = local_disconnect p event s in
        (s'.immediate_callbacks ≡ s.immediate_callbacks ++ end_call p event free_nothing ∷ [])
        × (s'.removals ≡ s.removals)
        × (s'.calls ≡ s.calls)
        × (s'.conn_status (address_of_conn (s.conn_at p)) ≡ none)
  unfolding local_disconnect end_conn send_callback
  local_disconnect-keeps p event s e =
      let a = address_of_conn (s.conn_at p) in
      let f = unset_status-SameArrays a s in
      rw e (
        cs.add_item_lem _ _
            ∙ ap (λ (xs : List PendingCall). xs ++ end_call p event free_nothing ∷ [])
                f.immediate_callbacks,
        f.removals,
        f.calls,
        conn_status-unset_status a s,
      )

  end_conn-statuses :
      (is_listening : Bool) (p : ℕ) (event : Event) (s : State)
      → ((end_conn is_listening p event s).status_at ≡ s.status_at)
        × ((end_conn is_listening p event s).timeouts ≡ s.timeouts)
  unfolding end_conn close_and_remove send_callback
  end_conn-statuses true p event s = (refl, refl)
  end_conn-statuses false p event s =
      let f =
        syscall-Called (sys_close (s.conn_at p).socket)
          (send_callback p event no_data (free_conn p) s) in
      (f.status_at, f.timeouts)

  unset_status-frees :
      (a : Address) (st : ℕ) (s : State)
      → s.conn_status a ≡ some st
      → (((unset_status a s).status_at st).contexts_freed ≡ true)
        × ((unset_status a s).timeouts ≡ s.timeouts)
  unfolding unset_status delete_conn_status
  unset_status-frees a st s e =
      rw (e, unset_status)
        (ap (λ (x : ConnStatus). x.contexts_freed) (upd_self s.status_at st _), refl)

  -- The status of an ended connection is given up, and the timeouts are not touched.
  pub local_disconnect-frees :
      (p st : ℕ) (event : Event) (s : State)
      → s.conn_status (address_of_conn (s.conn_at p)) ≡ some st
      → (((local_disconnect p event s).status_at st).contexts_freed ≡ true)
        × ((local_disconnect p event s).timeouts ≡ s.timeouts)
  unfolding local_disconnect
  local_disconnect-frees p st event s e =
      let a = address_of_conn (s.conn_at p) in
      let (same, kept) =
        end_conn-statuses (is_listening_udp (s.conn_at p)) p event (unset_status a s) in
      let (freed, old) = unset_status-frees a st s e in
      (ap (λ (m : ℕ → ConnStatus). (m st).contexts_freed) same ∙ freed, kept ∙ old)

  unset_status-stream : (a : Address) (s : State) → (unset_status a s).stream ≡ s.stream
  unfolding unset_status delete_conn_status
  unset_status-stream a s = elim (Option-cases (s.conn_status a)) [
    | inl e ↦ rw (e, unset_status)
    | inr (st, e) ↦ rw (e, unset_status)
  ]

  end_conn-stream :
      (is_listening : Bool) (p : ℕ) (event : Event) (s : State)
      → (end_conn is_listening p event s).stream ≡ s.stream
  unfolding end_conn close_and_remove send_callback
  end_conn-stream true p event s = refl
  end_conn-stream false p event s =
      (syscall-Called (sys_close (s.conn_at p).socket)
        (send_callback p event no_data (free_conn p) s)).stream

  -- Nothing is sent at the end of a connection.
  pub local_disconnect-stream :
      (p : ℕ) (event : Event) (s : State) → (local_disconnect p event s).stream ≡ s.stream
  unfolding local_disconnect
  local_disconnect-stream p event s =
      end_conn-stream (is_listening_udp (s.conn_at p)) p event _
      ∙ unset_status-stream (address_of_conn (s.conn_at p)) s
