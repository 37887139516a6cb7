-- ===== src/Open/Called.antt =====
-- What open_socket does by the answer of bind or connect.
use msgbox.Prelude.{ℕ, ◌-◌, ◌≡◌, refl, true, false, List, ◌∷◌, codes, ◌||◌, ◌==◌, length}
use msgbox.Cstructs.{Cstructs}
use msgbox.Types.{Conn, msg_tcp}
use msgbox.Libc.{Libc}
use msgbox.State.{
  syscall, err_in_progress, err_would_block, State, Response, Answer, done, fail, Call, sys_bind,
  sys_listen, sys_connect,
}
use msgbox.Status.{remote_address_seen}
use msgbox.Poll.{set_conn_to_poll_mode, mode_write}
use msgbox.Open.{open_address, address_opened, listened, open_failed}
use msgbox.Open.Made.{called}

module _ ⦃cs : Cstructs⦄ ⦃os : Libc⦄ where
  module _ (p : ℕ) (script : List Response) (u : State)
      (tcp : (u.conn_at p).protocol_type ≡ msg_tcp) where
    abbrev c : Conn
    c = u.conn_at p

    abbrev bind_call : Call
    bind_call = sys_bind c.socket c.remote_ip c.remote_port

    abbrev connect_call : Call
    connect_call = sys_connect c.socket c.remote_ip c.remote_port

    pub listened_on :
        (b : Answer)
        → c.for_listening ≡ true
        → open_address p (record u { script = done b ∷ script })
          ≡ listened p (
              syscall
                (sys_listen c.socket)
                (record u { script = script; calls = bind_call ∷ u.calls }))
    unfolding open_address address_opened syscall
    listened_on b h = rw (tcp, h) refl

    pub bind_fail :
        (e : ℕ)
        → c.for_listening ≡ true
        → open_address p (record u { script = fail e ∷ script })
          ≡ open_failed p (codes "bind") (called bind_call e script u)
    unfolding open_address address_opened syscall
    bind_fail e h = rw (tcp, h) refl

    pub connect_done :
        (b : Answer)
        → c.for_listening ≡ false
        → open_address p (record u { script = done b ∷ script })
          ≡ (remote_address_seen p (called connect_call u.errno script u)).1
    unfolding open_address address_opened syscall
    connect_done b h = rw (tcp, h) refl

    pub connect_in_progress :
        (e : ℕ)
        → c.for_listening ≡ false
        → (e == err_in_progress || e == err_would_block) ≡ true
        → open_address p (record u { script = fail e ∷ script })
          ≡ set_conn_to_poll_mode (length u.conns - 1) mode_write (called connect_call e script u)
    unfolding open_address address_opened syscall
    connect_in_progress e h going = rw (tcp, h, going) refl

    pub connect_fail :
        (e : ℕ)
        → c.for_listening ≡ false
        → (e == err_in_progress || e == err_would_block) ≡ false
        → open_address p (record u { script = fail e ∷ script })
          ≡ open_failed p (codes "connect") (called connect_call e script u)
    unfolding open_address address_opened syscall
    connect_fail e h ended = rw (tcp, h, ended) refl
