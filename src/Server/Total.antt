-- ===== src/Server/Total.antt =====
-- A connection on any input: it ends, and only a frame on which a decoder panics crashes it.
use keva.Prelude.{ℕ, ◌≡◌, Bytes, drop, panic}
use keva.Protocol.Message.{Message}
use keva.Protocol.Frame.{FrameError, read_frame}
use keva.Cluster.Node.{Node}
use keva.Server.{TcpServer, Ending, closed, answered, refused, joined, crashed}

-- Somewhere in the bytes stands a frame on which a decoder panics.
abbrev pub HoldsPanic : TcpServer → Bytes → Type 0
HoldsPanic s input = (k : ℕ) × ((read_frame s.max_payload_bytes (drop k input)).0 ≡ panic)

-- How a connection with the given input can end.
pub data Fate (s : TcpServer) (input : Bytes) : Ending → Type 0 where
  closes : (e : FrameError) → Fate s input (closed e)
  answers : Fate s input answered
  refuses : Fate s input refused
  joins : Fate s input joined
  crashes : HoldsPanic s input → Fate s input crashed
