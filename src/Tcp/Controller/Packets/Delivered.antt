-- ===== src/Tcp/Controller/Packets/Delivered.antt =====
-- tcp/controller.go: two controllers, the packets of `SendPackets` of the one and the packets that
-- `processRead` of the other receives.
use clove.Prelude.{◌⊎◌, List, All}
use clove.Network.Packet.{BinaryPacket, Packet}
use clove.Network.CloveFormat.Score.{IsScored}
use clove.Tcp.Controller.{Controller}
use clove.Tcp.Controller.Packets.Determined.{IsDetermined, IsUndetermined}

-- A controller that has the Clove format, or that has none yet and looks for it alone in packets
-- whose protocol type and version are not 0.
abbrev pub IsListening : Controller → List BinaryPacket → Type 0
IsListening peer ps = IsDetermined peer ⊎ (IsUndetermined peer × All IsScored ps)
