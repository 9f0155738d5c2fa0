-- ===== src/Core/Link/Dials.antt =====
-- A dialler connects over the interface that was asked for.
use speeed.Base.{
  ◌≡◌, ◌⊎◌, refl, inl, inr, Bool, true, false, Option, none, some, List, [], ◌∷◌, ◌++◌, Result, ok,
  err, panic, if◌then◌else◌,
}
use speeed.Core.Errors.{CoreError, io}
use speeed.Core.Platform.{BufferResult, bind_to_interface, set_socket_buffers}
use speeed.Core.Link.{
  Address, Peer, Call, lookup_host, new_socket, bind, set_buffers, connect, set_nodelay, handshake,
  Net, Dialer, next_stream, greeted, connected, dialled, resolved,
}

abbrev pub IsAmong : Call → List Call → Type 0
IsAmong call [] = ⊥
IsAmong call (c ∷ calls) = (c ≡ call) ⊎ IsAmong call calls

-- What stands before a connection.
abbrev pub Prepared : Net → Dialer → Address → List Call → Type 0
Prepared net d target calls =
    (bind_to_interface net.os net.bound d.config.bound_interface_index ≡ ok tt)
    × (rest : List Call) × (calls
        ≡ lookup_host d.addr
          ∷ new_socket target.is_ipv4
          ∷ bind d.config.bound_interface_index
          ∷ set_buffers (
              set_socket_buffers net.send_buffer net.recv_buffer d.config.socket_send_buffer_bytes
                d.config.socket_recv_buffer_bytes)
          ∷ connect target
          ∷ rest)

module _ (net : Net) (d : Dialer) (target : Address) where
  abbrev binds : Result CoreError (Unit {0})
  binds = bind_to_interface net.os net.bound d.config.bound_interface_index

  abbrev buffers : BufferResult
  buffers =
      set_socket_buffers net.send_buffer net.recv_buffer d.config.socket_send_buffer_bytes
        d.config.socket_recv_buffer_bytes

  abbrev before : Address → List Call
  before found =
      lookup_host d.addr ∷ new_socket found.is_ipv4 ∷ bind d.config.bound_interface_index ∷ []

  greeted-Prepared :
      (found : Address) (reached : Option Peer)
      → binds ≡ ok tt
      → IsAmong
          (connect target)
          (greeted net d (before found ++ set_buffers buffers ∷ connect found ∷ []) reached).0
      → Prepared net d target
          (greeted net d (before found ++ set_buffers buffers ∷ connect found ∷ []) reached).0
  greeted-Prepared found none e (inl p) = cc
  greeted-Prepared found none e (inr (inl p)) = cc
  greeted-Prepared found none e (inr (inr (inl p))) = cc
  greeted-Prepared found none e (inr (inr (inr (inl p)))) = cc
  greeted-Prepared found none e (inr (inr (inr (inr (inl p))))) =
      let same : found ≡ target = cc in rw same (e, [], refl)
  greeted-Prepared found none e (inr (inr (inr (inr (inr p))))) = absurd p
  greeted-Prepared found (some peer) e (inl p) = cc
  greeted-Prepared found (some peer) e (inr (inl p)) = cc
  greeted-Prepared found (some peer) e (inr (inr (inl p))) = cc
  greeted-Prepared found (some peer) e (inr (inr (inr (inl p)))) = cc
  greeted-Prepared found (some peer) e (inr (inr (inr (inr (inl p))))) =
      let same : found ≡ target = cc in
      rw same (e, set_nodelay ∷ handshake d.server_name ∷ [], refl)
  greeted-Prepared found (some peer) e (inr (inr (inr (inr (inr (inl p)))))) = cc
  greeted-Prepared found (some peer) e (inr (inr (inr (inr (inr (inr (inl p))))))) = cc
  greeted-Prepared found (some peer) e (inr (inr (inr (inr (inr (inr (inr p))))))) = absurd p

  connected-Prepared :
      (found : Address) (bound : Result CoreError (Unit {0}))
      → binds ≡ bound
      → IsAmong (connect target) (connected net d found (before found) bound).0
      → Prepared net d target (connected net d found (before found) bound).0
  connected-Prepared found (ok u) e m = greeted-Prepared found (net.reaches found) e m
  connected-Prepared found (err x) e (inl p) = cc
  connected-Prepared found (err x) e (inr (inl p)) = cc
  connected-Prepared found (err x) e (inr (inr (inl p))) = cc
  connected-Prepared found (err x) e (inr (inr (inr p))) = absurd p
  connected-Prepared found panic e (inl p) = cc
  connected-Prepared found panic e (inr (inl p)) = cc
  connected-Prepared found panic e (inr (inr (inl p))) = cc
  connected-Prepared found panic e (inr (inr (inr p))) = absurd p

  created-Prepared :
      (found : Address) (creates : Bool)
      → let t : List Call × Result CoreError Peer =
          if creates
          then connected net d found (before found) binds
          else (lookup_host d.addr ∷ new_socket found.is_ipv4 ∷ [], err io) in
        IsAmong (connect target) t.0 → Prepared net d target t.0
  created-Prepared found true m = connected-Prepared found binds refl m
  created-Prepared found false (inl p) = cc
  created-Prepared found false (inr (inl p)) = cc
  created-Prepared found false (inr (inr p)) = absurd p

  dialled-Prepared :
      (found : Option (List Address))
      → IsAmong (connect target) (dialled net d (lookup_host d.addr ∷ []) (resolved found)).0
      → Prepared net d target (dialled net d (lookup_host d.addr ∷ []) (resolved found)).0
  dialled-Prepared none (inl p) = cc
  dialled-Prepared none (inr p) = absurd p
  dialled-Prepared (some []) (inl p) = cc
  dialled-Prepared (some []) (inr p) = absurd p
  dialled-Prepared (some (found ∷ more)) m = created-Prepared found (net.creates found.is_ipv4) m

-- Before a dialler connects to an address, in whatever way the call ends, it has bound its socket to the
-- interface that was asked for, with success, and then set the sizes of the buffers: these calls stand
-- before the connection, in this order and with nothing else behind the creation of the socket.
pub next_stream-Prepared :
    (net : Net) (d : Dialer) (target : Address)
    → IsAmong (connect target) (next_stream net d).0
    → Prepared net d target (next_stream net d).0
unfolding next_stream
next_stream-Prepared net d target m = dialled-Prepared net d target (net.lookup d.addr) m
