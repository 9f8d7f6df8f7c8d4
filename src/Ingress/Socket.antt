-- ===== src/Ingress/Socket.antt =====
-- internal/ingress/unix_socket.go: one connection to the Unix socket.
pub mod Defaults
use autonomous_remediation_e.Prelude.{
  ℕ, Bool, true, false, String, Option, none, some, Bytes, str_eq, ◌==◌, if◌then◌else◌, take, ◌⊎◌,
  inl, inr,
}
use autonomous_remediation_e.Prelude.Assoc.{Assoc, insert}
use autonomous_remediation_e.Host.{System}
use autonomous_remediation_e.Engine.{Alert, Engine, RemediationResult, Readings, Texts}
use autonomous_remediation_e.Ingress.Processor.{Daemon, process}

-- What `SO_PEERCRED` tells of the peer.
pub record Peer : Type 0 where
  pub pid : ℕ
  pub uid : ℕ
  pub gid : ℕ

-- What the handler takes from the libraries: `json.Decode`, with its error, and `strconv.Itoa`.
pub record Codec : Type 0 where
  pub decode : Bytes → Alert ⊎ String
  pub itoa : ℕ → String

-- What the handler writes back; an alert that could not be decoded is answered by a result in the
-- state ESCALATED with this message.
pub data SocketReply : Type 0 where
  malformed_json : String → SocketReply
  executed : RemediationResult → SocketReply

-- 1 MB.
abbrev pub max_payload : ℕ
max_payload = 1048576

-- The annotations on the peer, where its credentials are known.
unfoldable pub with_peer : Codec → Option Peer → Assoc String → Assoc String
with_peer codec none annotations = annotations
with_peer codec (some peer) annotations =
    insert "peer_pid" (codec.itoa peer.pid) (
      insert "peer_gid" (codec.itoa peer.gid) (insert "peer_uid" (codec.itoa peer.uid) annotations))

-- The fields that the handler fills in; the first text is the one that it makes of the nanoseconds.
unfoldable pub filled : Codec → String → ℕ → Option Peer → Alert → Alert
filled codec fresh_id now peer alert = record alert {
  id = if str_eq alert.id "" then fresh_id else alert.id;
  source = if str_eq alert.source "" then "unix_socket" else alert.source;
  received_at = if alert.received_at == 0 then now else alert.received_at;
  annotations = with_peer codec peer alert.annotations;
}

module _ {X : Type 0} (os : System X) (texts : Texts) (e : Engine X) (codec : Codec) where
  -- With an alert, or with the decoder's error.
  unfoldable pub answer :
      Readings → String → ℕ → Option Peer → Alert ⊎ String → Daemon X → Daemon X × SocketReply
  answer rs fresh_id now peer (inr message) d = (d, malformed_json message)
  answer rs fresh_id now peer (inl alert) d =
      let (d', result) = process os texts e rs (filled codec fresh_id now peer alert) d in
      (d', executed result)

  -- `handleConn`, on what the peer sends.
  unfoldable pub handle_conn :
      Readings → String → ℕ → Option Peer → Bytes → Daemon X → Daemon X × SocketReply
  handle_conn rs fresh_id now peer input d =
      answer rs fresh_id now peer (codec.decode (take max_payload input)) d
