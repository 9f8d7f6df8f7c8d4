-- ===== src/Ingress/Socket/Defaults.antt =====
-- What the engine is given of an alert that came through the socket
-- (internal/ingress/unix_socket.go).
use autonomous_remediation_e.Prelude.{
  ℕ, ◌≡◌, ◌≢◌, refl, String, Option, some, Bytes, str_eq, str_eq_iff, take, inl, inr, Bool-cases,
}
use autonomous_remediation_e.Prelude.Assoc.{Assoc, lookup, lookup-insert}
use autonomous_remediation_e.Host.{System}
use autonomous_remediation_e.Engine.{Alert, Engine, Readings, Texts}
use autonomous_remediation_e.Ingress.Processor.{Daemon, process}
use autonomous_remediation_e.Ingress.Socket.{
  Peer, Codec, executed, max_payload, with_peer, filled, answer, handle_conn,
}

-- The annotations are those of the kernel's credentials.
pub record IsAttested (codec : Codec) (peer : Peer) (annotations : Assoc String) : Type 0 where
  pub uid : lookup "peer_uid" annotations ≡ some (codec.itoa peer.uid)
  pub gid : lookup "peer_gid" annotations ≡ some (codec.itoa peer.gid)
  pub pid : lookup "peer_pid" annotations ≡ some (codec.itoa peer.pid)

with_peer-IsAttested :
    (codec : Codec) (peer : Peer) (annotations : Assoc String)
    → IsAttested codec peer (with_peer codec (some peer) annotations)
unfolding with_peer
with_peer-IsAttested codec peer a = record {
  uid = simp lookup-insert;
  gid = simp lookup-insert;
  pid = simp lookup-insert;
}

-- What the engine is given of an alert.
pub record IsCompleted (codec : Codec) (peer : Peer) (alert given : Alert) : Type 0 where
  pub identified : given.id ≢ ""
  pub resource : given.resource_id ≡ alert.resource_id
  pub labels : given.labels ≡ alert.labels
  pub attested : IsAttested codec peer given.annotations

filled-id :
    (codec : Codec) (fresh_id : String) (now : ℕ) (peer : Option Peer) (alert : Alert)
    → fresh_id ≢ ""
    → (filled codec fresh_id now peer alert).id ≢ ""
unfolding filled
filled-id codec fresh_id now peer alert fresh = elim (Bool-cases (str_eq alert.id "")) [
  | inl e ↦ rw e fresh
  | inr e ↦ rw e (λ h. cc (e, (str_eq_iff alert.id "").1 h))
]

module _ {X : Type 0} (os : System X) (texts : Texts) (e : Engine X) (codec : Codec) where
  -- The engine runs on every alert that decodes, whoever the peer is and with no look at its
  -- resource: on an alert with the same resource and labels, with an id that is not empty, and
  -- annotated with the kernel's credentials of the peer whatever the sender wrote under those names.
  pub handle_conn-IsCompleted :
      (rs : Readings) (fresh_id : String) (now : ℕ) (peer : Peer) (input : Bytes) (alert : Alert)
      (d : Daemon X)
      → fresh_id ≢ ""
      → codec.decode (take max_payload input) ≡ inl alert
      → (given : Alert) × IsCompleted codec peer alert given
        × (handle_conn os texts e codec rs fresh_id now (some peer) input d
            ≡ ((process os texts e rs given d).0, executed (process os texts e rs given d).1))
  unfolding handle_conn answer filled
  handle_conn-IsCompleted rs fresh_id now peer input alert d fresh decodes = (
    filled codec fresh_id now (some peer) alert,
    record {
      identified = filled-id codec fresh_id now (some peer) alert fresh;
      resource = refl;
      labels = refl;
      attested = with_peer-IsAttested codec peer alert.annotations;
    },
    rw decodes,
  )
